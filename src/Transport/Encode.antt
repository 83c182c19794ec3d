-- ===== src/Transport/Encode.antt =====
-- transport.go, the writing side: the abridged frame, the handshake, the ping frame, and the
-- envelope with its guard against a trailing zero byte.
use mezon_sdk_go.Prelude.{
  ℕ, zero, suc, ◌+◌, ◌-◌, ◌/◌, ◌%◌, ◌^◌, Bytes, Bool, false, [], Option, ◌∷◌, ◌++◌, ltb, ◌==◌,
  if◌then◌else◌, length, replicate, take, byte, bit_and, get_elem?, none, some, min,
}
use mezon_sdk_go.Transport.{tcp_handshake_prefix, tcp_pong_prefix, abridged_extended_prefix}

-- (4 - len(payload)%4) & 3
unfoldable pub padding_of : ℕ → ℕ
padding_of n = bit_and (4 - n % 4) 3

unfoldable pub abridged_header : ℕ → Bytes
abridged_header len_div_4 =
    if ltb len_div_4 127
    then byte len_div_4 ∷ []
    else abridged_extended_prefix
      ∷ byte len_div_4
      ∷ byte (len_div_4 / 2 ^ 8)
      ∷ byte (len_div_4 / 2 ^ 16)
      ∷ []

unfoldable pub encode_abridged_frame : Bytes → Bytes
encode_abridged_frame payload =
    let padding = padding_of (length payload) in
    abridged_header ((length payload + padding) / 4) ++ (payload ++ replicate padding 0)

unfoldable pub tcp_handshake_frame : Bytes → Bytes
tcp_handshake_frame token = tcp_handshake_prefix ∷ encode_abridged_frame token

-- `b[len(b)-1-i] == 0x00`
abbrev pub is_zero_at : Option ℕ → Bool
is_zero_at none = false
is_zero_at (some x) = x == 0

unfoldable pub ends_zero : Bytes → ℕ → Bool
ends_zero b i = is_zero_at (get_elem? b (length b - 1 - i))

unfoldable pub trim_count : ℕ → ℕ → Bytes → ℕ
trim_count zero trimmed b = trimmed
trim_count (suc rounds) trimmed b =
    let rest = trim_count rounds (trimmed + 1) b in if ends_zero b trimmed then rest else trimmed

-- The loop runs while `trimmed < maxPadding`, at most `maxPadding` rounds.
unfoldable pub trim_abridged_padding : Bytes → Bytes
trim_abridged_padding b = take (length b - trim_count (min 3 (length b)) 0 b) b

-- The last byte, which the code reads where the slice is not empty.
unfoldable pub last_is_zero : Bytes → Bool
last_is_zero [] = false
last_is_zero (b ∷ []) = b == 0
last_is_zero (b ∷ c ∷ bs) = last_is_zero (c ∷ bs)

-- What `writeEnvelope` frames: a payload that ends in zero gets an unknown varint field.
unfoldable pub guard_trailing_zero : Bytes → Bytes
guard_trailing_zero message =
    if last_is_zero message then message ++ (0xf8 ∷ 0x7f ∷ 0x01 ∷ []) else message

unfoldable pub write_envelope : Bytes → Bytes
write_envelope message = encode_abridged_frame (guard_trailing_zero message)

-- `cid` is the bit pattern of the int32.
unfoldable pub write_ping : ℕ → Bytes
write_ping cid = tcp_pong_prefix ∷ byte (cid % 2 ^ 16 / 2 ^ 8) ∷ byte (cid % 2 ^ 16) ∷ []
