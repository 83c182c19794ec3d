-- ===== src/Transport/Padding.antt =====
-- transport.go, the padding of an abridged frame and how the trailing zero bytes come off.
use mezon_sdk_go.Prelude.{
  sym, dec_lt, append-nil, ℕ, zero, suc, ◌+◌, ◌*◌, ◌-◌, ◌^◌, ◌≤◌, ◌<◌, ◌≡◌, refl, ap, ◌∙◌, Bytes,
  true, false, [], ◌∷◌, ◌++◌, some, arith, length, length-append, length-replicate, take-append,
  replicate, take, get_elem?, inl, inr, Bool-cases, min,
}
use mezon_sdk_go.Transport.{ok}
use mezon_sdk_go.Transport.Reader.{read_frame_once, envelope_frame}
use mezon_sdk_go.Transport.RoundTrip.{padding_of_lem, read_frame_once-encode_abridged_frame}
use mezon_sdk_go.Transport.Encode.{
  is_zero_at, padding_of, ends_zero, trim_count, trim_abridged_padding, last_is_zero,
  guard_trailing_zero, write_envelope,
}

get_elem?-append : (xs ys : Bytes) (j : ℕ) → get_elem? (xs ++ ys) (length xs + j) ≡ get_elem? ys j
get_elem?-append [] ys j = let e : 0 + j ≡ j = omega arith in rw e
get_elem?-append (x ∷ xs) ys j =
    let e : suc (length xs) + j ≡ suc (length xs + j) = omega arith in
    rw e (get_elem?-append xs ys j)

get_elem?-replicate : (n j : ℕ) → j < n → get_elem? {A = ℕ} (replicate n 0) j ≡ some 0
get_elem?-replicate zero j h = absurd (omega arith)
get_elem?-replicate (suc n) zero h = refl
get_elem?-replicate (suc n) (suc j) h = get_elem?-replicate n j (omega arith)

get_elem?-left : (xs ys : Bytes) (j : ℕ) → j < length xs → get_elem? (xs ++ ys) j ≡ get_elem? xs j
get_elem?-left [] ys j h = absurd (omega arith)
get_elem?-left (x ∷ xs) ys zero h = refl
get_elem?-left (x ∷ xs) ys (suc j) h = get_elem?-left xs ys j (omega arith)

last_is_zero-ends_zero : (b : Bytes) → ends_zero b 0 ≡ last_is_zero b
unfolding ends_zero last_is_zero
last_is_zero-ends_zero [] = refl
last_is_zero-ends_zero (b ∷ []) = refl
last_is_zero-ends_zero (b ∷ c ∷ bs) =
    let e : suc (suc (length bs)) - 1 - 0 ≡ suc (length bs) = omega arith in
    let f : suc (length bs) - 1 - 0 ≡ length bs = omega arith in
    ap is_zero_at (ap (get_elem? (b ∷ c ∷ bs)) e ∙ ap (get_elem? (c ∷ bs)) (sym f))
    ∙ last_is_zero-ends_zero (c ∷ bs)

ends_zero_padding : (xs : Bytes) (p i : ℕ) → i < p → ends_zero (xs ++ replicate p 0) i ≡ true
unfolding ends_zero
ends_zero_padding xs p i h =
    let e : length (xs ++ replicate p 0) - 1 - i ≡ length xs + (p - 1 - i) =
      omega (arith, length-append xs (replicate p 0), length-replicate {A = ℕ} p 0) in
    ap is_zero_at (
      ap (get_elem? (xs ++ replicate p 0)) e
      ∙ get_elem?-append xs (replicate p 0) (p - 1 - i)
      ∙ get_elem?-replicate p (p - 1 - i) (omega arith))

ends_zero_content :
    (xs : Bytes) (p : ℕ) → 0 < length xs → ends_zero (xs ++ replicate p 0) p ≡ ends_zero xs 0
unfolding ends_zero
ends_zero_content xs p h =
    let e : length (xs ++ replicate p 0) - 1 - p ≡ length xs - 1 - 0 =
      omega (arith, length-append xs (replicate p 0), length-replicate {A = ℕ} p 0) in
    ap is_zero_at (
      ap (get_elem? (xs ++ replicate p 0)) e
      ∙ get_elem?-left xs (replicate p 0) (length xs - 1 - 0) (omega arith))

trim_count_lem :
    (rounds t p : ℕ) (b : Bytes)
    → ((i : ℕ) → i < p → ends_zero b i ≡ true)
    → ends_zero b p ≡ false
    → t ≤ p
    → p ≤ t + rounds
    → trim_count rounds t b ≡ p
unfolding trim_count
trim_count_lem zero t p b zeros stop low high = omega arith
trim_count_lem (suc rounds) t p b zeros stop low high = elim (dec_lt t p) [
  | yes before ↦
      rw (zeros t before) (trim_count_lem rounds (t + 1) p b zeros stop (omega arith) (omega arith))
  | no beyond ↦ let e : t ≡ p = omega arith in let here : ends_zero b t ≡ false = cc in rw here e
]

-- Trimming takes off exactly the padding when the content does not end in a zero byte.
pub trim_abridged_padding-append :
    (xs : Bytes) (p : ℕ)
    → 0 < length xs
    → last_is_zero xs ≡ false
    → p ≤ 3
    → trim_abridged_padding (xs ++ replicate p 0) ≡ xs
unfolding trim_abridged_padding
trim_abridged_padding-append xs p pos last small =
    let b : Bytes = xs ++ replicate p 0 in
    let size : length b ≡ length xs + p =
      omega (arith, length-append xs (replicate p 0), length-replicate {A = ℕ} p 0) in
    let count : trim_count (min 3 (length b)) 0 b ≡ p =
      trim_count_lem (min 3 (length b)) 0 p b (ends_zero_padding xs p)
        (ends_zero_content xs p pos ∙ last_is_zero-ends_zero xs ∙ last) (omega arith)
        (omega arith) in
    let rest : length b - trim_count (min 3 (length b)) 0 b ≡ length xs = omega arith in
    ap (λ n. take n b) rest ∙ take-append xs (replicate p 0)

varint_suffix : (xs : Bytes) → last_is_zero (xs ++ 0xf8 ∷ 0x7f ∷ 0x01 ∷ []) ≡ false
unfolding last_is_zero
varint_suffix [] = refl
varint_suffix (x ∷ []) = refl
varint_suffix (x ∷ y ∷ xs) = varint_suffix (y ∷ xs)

guard_trailing_zero-last : (m : Bytes) → last_is_zero (guard_trailing_zero m) ≡ false
unfolding guard_trailing_zero
guard_trailing_zero-last m = elim (Bool-cases (last_is_zero m)) [
  | inl z ↦ rw z (varint_suffix m)
  | inr nz ↦ rw nz nz
]

guard_trailing_zero-length :
    (m : Bytes)
    → (length m ≤ length (guard_trailing_zero m)) × (length (guard_trailing_zero m) ≤ length m + 3)
unfolding guard_trailing_zero
guard_trailing_zero-length m = ground (arith, length-append m (0xf8 ∷ 0x7f ∷ 0x01 ∷ []))

take-guard_trailing_zero : (m : Bytes) → take (length m) (guard_trailing_zero m) ≡ m
unfolding guard_trailing_zero
take-guard_trailing_zero m =
    ground (arith, take-append m (0xf8 ∷ 0x7f ∷ 0x01 ∷ []), take-append m [], append-nil m)

-- An envelope that the client writes is one frame on the wire, which ends where the next one
-- begins; and trimming the frame's trailing zeros, as the gateway does, gives back what was framed,
-- which begins with the envelope's bytes, whatever byte they end in. The envelope has 1 to
-- 4 * (2^24 - 1) - 3 bytes.
pub read_frame_once-write_envelope :
    (m rest : Bytes)
    → 0 < length m
    → length m + 3 ≤ 4 * (2 ^ 24 - 1)
    → (body : Bytes) × (read_frame_once (write_envelope m ++ rest)
        ≡ ok (some (envelope_frame true body), rest))
      × (trim_abridged_padding body ≡ guard_trailing_zero m)
      × (take (length m) (guard_trailing_zero m) ≡ m)
unfolding write_envelope
read_frame_once-write_envelope m rest pos small =
    let g : Bytes = guard_trailing_zero m in
    let len = guard_trailing_zero-length m in
    (
      g ++ replicate (padding_of (length g)) 0,
      read_frame_once-encode_abridged_frame g rest (omega arith) (omega arith),
      trim_abridged_padding-append g (padding_of (length g)) (omega arith)
          (guard_trailing_zero-last m) (padding_of_lem (length g)).0,
      take-guard_trailing_zero m,
    )
