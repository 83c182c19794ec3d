-- ===== src/Transport/Chunks.antt =====
-- transport.go, the frames with a cid: the ping that comes back as a pong, and the chunks of an
-- API response in the layout that the source documents.
use mezon_sdk_go.Prelude.{
  ℕ, ◌+◌, ◌*◌, ◌/◌, ◌%◌, ◌^◌, ◌≤◌, ◌<◌, ◌≡◌, refl, ◌∙◌, Bytes, false, [], ◌∷◌, ◌++◌, ◌==◌, some,
  arith, length, big_endian, big_endian_from, byte, bit_and, bit_and_mask,
}
use mezon_sdk_go.Transport.{
  frame_api_chunk, WireFrame, ok, check_frame_size, max_tcp_frame_size, raw_frame_prefix,
  raw_code_fin,
}
use mezon_sdk_go.Transport.Reader.{
  pong_frame, chunk_frame, read_pong, read_api_chunk, read_by_prefix, read_frame_once,
  parse_ws_raw_frame,
}
use mezon_sdk_go.Transport.Encode.{write_ping}
use mezon_sdk_go.Transport.RoundTrip.{read_full-append, read_frame_once_cons}

abbrev pub be16 : ℕ → Bytes
be16 x = byte (x / 2 ^ 8) ∷ byte x ∷ []

abbrev pub be32 : ℕ → Bytes
be32 x = byte (x / 2 ^ 24) ∷ byte (x / 2 ^ 16) ∷ byte (x / 2 ^ 8) ∷ byte x ∷ []

big_endian-be16 : (x : ℕ) → x < 2 ^ 16 → big_endian (be16 x) ≡ x
unfolding big_endian_from
big_endian-be16 x h = omega arith

big_endian-be32 : (x : ℕ) → x < 2 ^ 32 → big_endian (be32 x) ≡ x
unfolding big_endian_from
big_endian-be32 x h = omega arith

-- A ping that the peer sends back as it is reads as a pong with the low 16 bits of the cid.
pub read_frame_once-write_ping :
    (cid : ℕ) (rest : Bytes)
    → read_frame_once (write_ping cid ++ rest) ≡ ok (some (pong_frame (cid % 2 ^ 16)), rest)
unfolding write_ping read_by_prefix read_pong
read_frame_once-write_ping cid rest =
    let x : ℕ = cid % 2 ^ 16 in
    read_frame_once_cons 0 (be16 x ++ rest)
    ∙ ground (arith, read_full-append 2 (be16 x) rest refl, big_endian-be16 x (omega arith))

-- The code word of a chunk: the response code above the fin flag.
abbrev pub code_word : ℕ → ℕ → ℕ
code_word code flag = code * 2 ^ 16 + flag

-- What the server sends for a chunk over TCP: prefix, cid, code word, length, payload.
abbrev pub tcp_chunk : ℕ → ℕ → Bytes → Bytes
tcp_chunk cid word payload =
    raw_frame_prefix ∷ ((be16 cid ++ (be32 word ++ be32 (length payload))) ++ payload)

-- And as a WebSocket message: the same without the length.
abbrev pub ws_chunk : ℕ → ℕ → Bytes → Bytes
ws_chunk cid word payload = raw_frame_prefix ∷ (be16 cid ++ (be32 word ++ payload))

abbrev pub expected_chunk : ℕ → ℕ → ℕ → Bytes → WireFrame
expected_chunk cid code flag payload = record {
  kind = frame_api_chunk;
  cid = cid;
  code = code;
  fin = flag == raw_code_fin;
  payload = payload;
  padded = false;
}

chunk_frame_lem :
    (cid code flag : ℕ) (payload : Bytes)
    → code < 2 ^ 16
    → flag < 2 ^ 16
    → chunk_frame cid (code_word code flag) payload ≡ expected_chunk cid code flag payload
unfolding chunk_frame
chunk_frame_lem cid code flag payload hc hf =
    let high : bit_and (code_word code flag / 2 ^ 16) 0xffff ≡ code =
      bit_and_mask 16 0xffff (code_word code flag / 2 ^ 16) refl ∙ omega arith in
    let low : bit_and (code_word code flag) 0xffff ≡ flag =
      bit_and_mask 16 0xffff (code_word code flag) refl ∙ omega arith in
    rw (high, low)

-- A chunk in the documented layout, with a payload within the limit, is read with its cid, its
-- response code, whether it is the last one, and its payload; what follows it is left.
pub read_frame_once-tcp_chunk :
    (cid code flag : ℕ) (payload rest : Bytes)
    → cid < 2 ^ 16
    → code < 2 ^ 16
    → flag < 2 ^ 16
    → length payload ≤ max_tcp_frame_size
    → read_frame_once (tcp_chunk cid (code_word code flag) payload ++ rest)
      ≡ ok (some (expected_chunk cid code flag payload), rest)
unfolding read_by_prefix read_api_chunk check_frame_size
read_frame_once-tcp_chunk cid code flag payload rest hcid hcode hflag hlen =
    let word : ℕ = code_word code flag in
    let hdr : Bytes = be16 cid ++ (be32 word ++ be32 (length payload)) in
    read_frame_once_cons 0xff (hdr ++ (payload ++ rest))
    ∙ ground (
      arith,
      read_full-append 10 hdr (payload ++ rest) refl,
      read_full-append (length payload) payload rest refl,
      big_endian-be16 cid hcid,
      big_endian-be32 word (omega arith),
      big_endian-be32 (length payload) (omega arith),
      chunk_frame_lem cid code flag payload hcode hflag,
    )

-- Both transports read the same chunk: the WebSocket message gives the frame that TCP gives.
pub parse_ws_raw_frame-ws_chunk :
    (cid code flag : ℕ) (payload : Bytes)
    → cid < 2 ^ 16
    → code < 2 ^ 16
    → flag < 2 ^ 16
    → parse_ws_raw_frame (ws_chunk cid (code_word code flag) payload)
      ≡ some (expected_chunk cid code flag payload)
unfolding parse_ws_raw_frame
parse_ws_raw_frame-ws_chunk cid code flag payload hcid hcode hflag = ground (
  arith,
  big_endian-be16 cid hcid,
  big_endian-be32 (code_word code flag) (omega arith),
  chunk_frame_lem cid code flag payload hcode hflag,
)
