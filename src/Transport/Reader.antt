-- ===== src/Transport/Reader.antt =====
-- transport.go, the reading side: `readFrameOnce` and its callees, the loop round it, and the
-- WebSocket transport's frames.
use mezon_sdk_go.Prelude.{
  ℕ, zero, suc, ◌+◌, ◌*◌, ◌/◌, ◌%◌, ◌^◌, Bytes, Bool, true, false, List, [], ◌∷◌, ltb, ◌==◌, not,
  if◌then◌else◌, length, take, drop, big_endian, bit_and, bit_or, bit_xor, get_elem?, Option, none,
  some,
}
use mezon_sdk_go.Transport.{
  frame_envelope, frame_api_chunk, frame_pong, WireFrame, unexpected_prefix, close_frame, Result,
  ok, err, Reader, pure, fail, ◌>>=◌, ◌>>◌, check_frame_size, read_byte, read_full, tcp_pong_prefix,
  abridged_extended_prefix, raw_frame_prefix, raw_header_length, raw_code_fin,
}

unfoldable pub envelope_frame : Bool → Bytes → WireFrame
envelope_frame padded payload = record {
  kind = frame_envelope;
  cid = 0;
  code = 0;
  fin = false;
  payload = payload;
  padded = padded;
}

unfoldable pub pong_frame : ℕ → WireFrame
pong_frame cid = record {
  kind = frame_pong;
  cid = cid;
  code = 0;
  fin = false;
  payload = [];
  padded = false;
}

-- (code >> 16) & 0xffff and code&0xffff == rawCodeFin
unfoldable pub chunk_frame : ℕ → ℕ → Bytes → WireFrame
chunk_frame cid code payload = record {
  kind = frame_api_chunk;
  cid = cid;
  code = bit_and (code / 2 ^ 16) 0xffff;
  fin = bit_and code 0xffff == raw_code_fin;
  payload = payload;
  padded = false;
}

-- int(b[0]) | int(b[1])<<8 | int(b[2])<<16
unfoldable pub little_endian_24 : Bytes → ℕ
little_endian_24 (b0 ∷ b1 ∷ b2 ∷ []) = bit_or (bit_or b0 (b1 * 2 ^ 8)) (b2 * 2 ^ 16)
little_endian_24 _ = 0

unfoldable pub extended_length : Reader ℕ
extended_length = do
  b ← read_full 3
  let n = little_endian_24 b
  check_frame_size (n * 4)
  pure (n * 4)

unfoldable pub read_abridged_length : ℕ → Reader ℕ
read_abridged_length prefix =
    if ltb prefix abridged_extended_prefix
    then pure (prefix * 4)
    else if not (prefix == abridged_extended_prefix)
    then fail (unexpected_prefix prefix)
    else extended_length

-- The RFC 6455 length: 7 bits, or 16 or 64 more.
unfoldable pub read_ws_length : ℕ → Reader ℕ
read_ws_length short =
    if short == 126
    then (do ext ← read_full 2; pure (big_endian ext))
    else if short == 127
    then (do ext ← read_full 8; pure (big_endian ext))
    else pure short

unfoldable pub key_byte : Bytes → ℕ → ℕ
key_byte key i = elim (get_elem? key i) [ some k ↦ k | none ↦ 0 ]

-- payload[i] ^= maskKey[i%4]
unfoldable pub unmask : Bytes → ℕ → Bytes → Bytes
unfolding key_byte
unmask key i [] = []
unmask key i (b ∷ bs) = bit_xor b (key_byte key (i % 4)) ∷ unmask key (i + 1) bs

unfoldable pub read_mask_key : Bool → Reader (Option Bytes)
read_mask_key true = read_full 4 >>= λ key. pure (some key)
read_mask_key false = pure none

unfoldable pub apply_mask : Option Bytes → Bytes → Bytes
apply_mask none payload = payload
apply_mask (some key) payload = unmask key 0 payload

unfoldable pub ws_result : ℕ → Bytes → Reader (Option WireFrame)
ws_result opcode payload =
    if opcode == 2
    then pure (some (envelope_frame false payload))
    else if opcode == 1
    then pure (some (envelope_frame false payload))
    else if opcode == 8
    then fail close_frame
    else pure none

unfoldable pub read_web_socket_frame : ℕ → Reader (Option WireFrame)
read_web_socket_frame first = do
  b2 ← read_byte
  n ← read_ws_length (bit_and b2 0x7f)
  check_frame_size n
  key ← read_mask_key (not (bit_and b2 0x80 == 0))
  payload ← read_full n
  ws_result (bit_and first 0x0f) (apply_mask key payload)

unfoldable pub read_pong : Reader (Option WireFrame)
read_pong = do b ← read_full 2; pure (some (pong_frame (big_endian b)))

unfoldable pub read_api_chunk : Reader (Option WireFrame)
read_api_chunk = do
  hdr ← read_full 10
  let payload_len = big_endian (take 4 (drop 6 hdr))
  check_frame_size payload_len
  payload ← read_full payload_len
  pure (some (chunk_frame (big_endian (take 2 hdr)) (big_endian (take 4 (drop 2 hdr))) payload))

unfoldable pub read_abridged : ℕ → Reader (Option WireFrame)
read_abridged prefix = do
  payload_len ← read_abridged_length prefix
  payload ← read_full payload_len
  pure (some (envelope_frame true payload))

-- One wire frame by its first byte; `none` stands for a control frame that was skipped.
unfoldable pub read_by_prefix : ℕ → Reader (Option WireFrame)
read_by_prefix prefix =
    if prefix == tcp_pong_prefix
    then read_pong
    else if prefix == raw_frame_prefix
    then read_api_chunk
    else if not (bit_and prefix 0x80 == 0)
    then read_web_socket_frame prefix
    else read_abridged prefix

unfoldable pub read_frame_once : Reader (Option WireFrame)
read_frame_once = do prefix ← read_byte; read_by_prefix prefix

-- The loop of `tcpConn.readFrame`. Outer `none`: the fuel ran out.
unfoldable pub read_frame : ℕ → Bytes → Option (Result (WireFrame × Bytes))
read_frame zero s = none
read_frame (suc fuel) s = elim (read_frame_once s) [
  | err e ↦ some (err e)
  | ok (some f, rest) ↦ some (ok (f, rest))
  | ok (none, rest) ↦ read_frame fuel rest
]

-- A raw API response as one WebSocket message.
unfoldable pub parse_ws_raw_frame : Bytes → Option WireFrame
parse_ws_raw_frame message =
    if ltb (length message) raw_header_length
    then none
    else some (
        chunk_frame (big_endian (take 2 (drop 1 message))) (big_endian (take 4 (drop 3 message)))
          (drop raw_header_length message))

unfoldable pub starts_raw : Bytes → Bool
starts_raw [] = false
starts_raw (b ∷ bs) = b == raw_frame_prefix

-- The loop of `wsConn.readFrame` over the messages to come; no message left is a failed read.
unfoldable pub ws_read_frame : List Bytes → Option (WireFrame × List Bytes)
ws_read_frame [] = none
ws_read_frame (m ∷ ms) =
    let skip = ws_read_frame ms in
    if starts_raw m
    then (elim (parse_ws_raw_frame m) [ some f ↦ some (f, ms) | none ↦ skip ])
    else some (envelope_frame false m, ms)
