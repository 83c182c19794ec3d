-- ===== src/Transport/RoundTrip.antt =====
-- transport.go, what one side writes the other side reads: abridged frames.
use mezon_sdk_go.Prelude.{
  sym, ℕ, ◌+◌, ◌*◌, ◌-◌, ◌/◌, ◌%◌, ◌^◌, ◌≤◌, ◌<◌, ◌≡◌, refl, ap, ◌∙◌, inl, inr, Bytes, true, [],
  ◌∷◌, ◌++◌, ltb, ◌==◌, ==_iff, Option, some, arith, length, length-append, length-replicate,
  take-append, drop-append, append_assoc, replicate, byte, bit_and, Bool-cases, ltb→lt,
  bit_and_mask, bit_or_low, checks_below, checks_below_sound, IsByte,
}
use mezon_sdk_go.Transport.{
  WireFrame, ok, err, Reader, pure, ◌>>=◌, check_frame_size, read_byte, read_full,
}
use mezon_sdk_go.Transport.Reader.{
  extended_length, read_abridged_length, read_abridged, read_by_prefix, read_frame_once,
  envelope_frame, little_endian_24,
}
use mezon_sdk_go.Transport.Encode.{padding_of, abridged_header, encode_abridged_frame}

-- The padding is at most 3 and fills the length up to a multiple of 4.
pub padding_of_lem : (n : ℕ) → (padding_of n ≤ 3) × ((n + padding_of n) % 4 ≡ 0)
unfolding padding_of
padding_of_lem n = rw (bit_and_mask 2 3 (4 - n % 4) refl) (omega arith, omega arith)

top_bit_table : checks_below (λ b. bit_and b 0x80 == b / 128 * 128) 256 ≡ true
unfolding checks_below
top_bit_table = refl

pub top_bit : (b : ℕ) → IsByte b → bit_and b 0x80 ≡ b / 128 * 128
top_bit b h = (==_iff _ _).0 (checks_below_sound _ 256 b h top_bit_table)

pub read_full-append : (n : ℕ) (b r : Bytes) → length b ≡ n → read_full n (b ++ r) ≡ ok (b, r)
unfolding read_full
read_full-append n b r e =
    rw (← e) (ground (arith, length-append b r, take-append b r, drop-append b r))

little_endian_24_lem :
    (n : ℕ) → n < 2 ^ 24 → little_endian_24 (byte n ∷ byte (n / 2 ^ 8) ∷ byte (n / 2 ^ 16) ∷ []) ≡ n
unfolding little_endian_24
little_endian_24_lem n h = rw (bit_or_low 8 (byte (n / 2 ^ 8)) (byte n) (omega arith)) (
    rw (bit_or_low 16 (byte (n / 2 ^ 16)) (byte n + byte (n / 2 ^ 8) * 2 ^ 8) (omega arith))
      (omega arith))

read_by_prefix_abridged :
    (n : ℕ) (s : Bytes) → 0 < n → n < 128 → read_by_prefix n s ≡ read_abridged n s
unfolding read_by_prefix
read_by_prefix_abridged n s pos small = ground (arith, top_bit n (omega arith))

pub read_frame_once_cons : (b : ℕ) (s : Bytes) → read_frame_once (b ∷ s) ≡ read_by_prefix b s
unfolding read_frame_once read_byte
read_frame_once_cons b s = refl

abbrev payload_reader : ℕ → Reader (Option WireFrame)
payload_reader n = read_full n >>= λ payload. pure (some (envelope_frame true payload))

read_abridged_short : (n : ℕ) (s : Bytes) → n < 127 → read_abridged n s ≡ payload_reader (n * 4) s
unfolding read_abridged read_abridged_length
read_abridged_short n s h = ground arith

read_abridged_extended :
    (n : ℕ) (s : Bytes)
    → n < 2 ^ 24
    → read_abridged 0x7f (byte n ∷ byte (n / 2 ^ 8) ∷ byte (n / 2 ^ 16) ∷ s)
      ≡ payload_reader (n * 4) s
unfolding read_abridged read_abridged_length extended_length check_frame_size
read_abridged_extended n s h =
    let b : Bytes = byte n ∷ byte (n / 2 ^ 8) ∷ byte (n / 2 ^ 16) ∷ [] in
    ground (arith, read_full-append 3 b s refl, little_endian_24_lem n h)

header_short : (n : ℕ) → n < 127 → abridged_header n ≡ n ∷ []
unfolding abridged_header
header_short n h = ground arith

header_extended :
    (n : ℕ)
    → 126 < n
    → abridged_header n ≡ 0x7f ∷ byte n ∷ byte (n / 2 ^ 8) ∷ byte (n / 2 ^ 16) ∷ []
unfolding abridged_header
header_extended n h = ground arith

-- The reader takes the header back off, at every length that fits 3 bytes.
pub read_header :
    (n : ℕ) (s : Bytes)
    → 0 < n
    → n < 2 ^ 24
    → read_frame_once (abridged_header n ++ s) ≡ payload_reader (n * 4) s
read_header n s pos small = elim (Bool-cases (ltb n 127)) [
  | inl short ↦
      let lt : n < 127 = ltb→lt n 127 short in
      rw (header_short n lt) (
        read_frame_once_cons n s
        ∙ read_by_prefix_abridged n s pos (omega arith)
        ∙ read_abridged_short n s lt)
  | inr long ↦ rw (header_extended n (ground arith)) (
      read_frame_once_cons 0x7f _
      ∙ read_by_prefix_abridged 0x7f _ (omega arith) (omega arith)
      ∙ read_abridged_extended n s small)
]

-- A payload of at least one byte and at most 4 * (2^24 - 1) bytes that is framed, followed by
-- whatever comes next on the stream, is read as one padded envelope frame that holds the payload
-- and its zero padding, and the rest of the stream is left.
pub read_frame_once-encode_abridged_frame :
    (payload rest : Bytes)
    → 0 < length payload
    → length payload ≤ 4 * (2 ^ 24 - 1)
    → read_frame_once (encode_abridged_frame payload ++ rest)
      ≡ ok (some (envelope_frame true (payload ++ replicate (padding_of (length payload)) 0)), rest)
unfolding encode_abridged_frame
read_frame_once-encode_abridged_frame payload rest pos small =
    let pad : ℕ = padding_of (length payload) in
    let n : ℕ = (length payload + pad) / 4 in
    let body : Bytes = payload ++ replicate pad 0 in
    let p = padding_of_lem (length payload) in
    let size : length body ≡ n * 4 =
      omega (arith, length-append payload (replicate pad 0), length-replicate {A = ℕ} pad 0) in
    rw (append_assoc (abridged_header n) body rest) (
      read_header n (body ++ rest) (omega arith) (omega arith)
      ∙ ap (λ o. elim o [ ok (b, r) ↦ ok (some (envelope_frame true b), r) | err e ↦ err e ])
          (read_full-append (n * 4) body rest size))

-- From 64 MiB on the three length bytes wrap: a payload of 2^24 more words has the same header, so
-- what is written no longer says how long it is.
pub abridged_header-wraps : (n : ℕ) → 127 ≤ n → abridged_header (n + 2 ^ 24) ≡ abridged_header n
abridged_header-wraps n h =
    header_extended (n + 2 ^ 24) (omega arith)
    ∙ (ground arith)
    ∙ sym (header_extended n (omega arith))
