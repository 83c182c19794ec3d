-- ===== src/Utf16/Encoding.antt =====
-- utf16.go, lengths and offsets against the encoding.
use mezon_sdk_go.Prelude.{
  dec_lt, ℕ, zero, suc, ◌+◌, ◌-◌, ◌*◌, ◌/◌, ◌%◌, ◌^◌, ◌≤◌, ◌<◌, ◌≡◌, refl, sym, ap, ◌∙◌, ◌⊎◌, Bool,
  ◌&&◌, List, [], ◌∷◌, ◌++◌, ltb, leb, if◌then◌else◌, arith, length, length-append, take, All,
  bit_and_mask, ℤ, pos, negsuc,
}
use mezon_sdk_go.Utf16.{
  Runes, utf16_len_from, utf16_len, encode_rune, utf16_encode, rune_index_from, rune_index_to_utf16,
}

-- What a Go `range` over a string yields.
abbrev pub IsRune : ℕ → Type 0
IsRune r = r ≤ 0x10ffff

-- A rune that is no surrogate half.
abbrev pub IsScalar : ℕ → Type 0
IsScalar r = (r < 0xd800) ⊎ ((0xe000 ≤ r) × (r ≤ 0x10ffff))

abbrev units_of : ℕ → ℕ
units_of r = if ltb 0xffff r then 2 else 1

utf16_len_from-add : (n : ℕ) (s : Runes) → utf16_len_from n s ≡ n + utf16_len s
unfolding utf16_len_from utf16_len
utf16_len_from-add n [] = omega arith
utf16_len_from-add n (r ∷ rs) = ground (
  arith,
  utf16_len_from-add (n + 1) rs,
  utf16_len_from-add (n + 2) rs,
  utf16_len_from-add 1 rs,
  utf16_len_from-add 2 rs,
)

utf16_len-cons : (r : ℕ) (s : Runes) → utf16_len (r ∷ s) ≡ units_of r + utf16_len s
unfolding utf16_len_from utf16_len
utf16_len-cons r s = ground (arith, utf16_len_from-add 1 s, utf16_len_from-add 2 s)

length-encode_rune : (r : ℕ) → IsRune r → length (encode_rune r) ≡ units_of r
unfolding encode_rune
length-encode_rune r h = ground arith

utf16_len-nil : utf16_len [] ≡ 0
unfolding utf16_len utf16_len_from
utf16_len-nil = refl

-- `UTF16Len` is the number of code units that `UTF16Encode` gives.
pub length-utf16_encode : (s : Runes) → All IsRune s → length (utf16_encode s) ≡ utf16_len s
unfolding utf16_encode
length-utf16_encode [] h = sym utf16_len-nil
length-utf16_encode (r ∷ rs) h =
    length-append (encode_rune r) (utf16_encode rs)
    ∙ omega (arith, length-encode_rune r h.0, length-utf16_encode rs h.1, utf16_len-cons r rs)

-- A negative index counts as 0.
abbrev pub clip : ℤ → ℕ
clip (pos n) = n
clip (negsuc n) = 0

rune_index_from_lem :
    (k m off i : ℕ) (s : Runes)
    → k ≡ i + m
    → rune_index_from (pos k) off i s ≡ off + utf16_len (take m s)
unfolding rune_index_from
rune_index_from_lem k zero off i [] h = omega (arith, utf16_len-nil)
rune_index_from_lem k (suc m) off i [] h = omega (arith, utf16_len-nil)
rune_index_from_lem k zero off i (r ∷ rs) h = ground (arith, utf16_len-nil)
rune_index_from_lem k (suc m) off i (r ∷ rs) h = ground (
  arith,
  utf16_len-cons r (take m rs),
  rune_index_from_lem k m (off + 1) (i + 1) rs (omega arith),
  rune_index_from_lem k m (off + 2) (i + 1) rs (omega arith),
)

rune_index_from_negative : (k off i : ℕ) (s : Runes) → rune_index_from (negsuc k) off i s ≡ off
unfolding rune_index_from
rune_index_from_negative k off i [] = refl
rune_index_from_negative k off i (r ∷ rs) = refl

-- `RuneIndexToUTF16` is the UTF-16 length of the runes before the index, and the length of the
-- whole string past its end.
pub rune_index_to_utf16-take :
    (s : Runes) (idx : ℤ) → rune_index_to_utf16 s idx ≡ utf16_len (take (clip idx) s)
unfolding rune_index_to_utf16
rune_index_to_utf16-take s (pos k) = rune_index_from_lem k k 0 0 s (omega arith) ∙ omega arith
rune_index_to_utf16-take s (negsuc k) = rune_index_from_negative k 0 0 s ∙ sym utf16_len-nil

-- The standard reading of UTF-16: a high and a low surrogate make one rune, any other unit is one.
abbrev is_pair : ℕ → ℕ → Bool
is_pair u v = (leb 0xd800 u && ltb u 0xdc00) && (leb 0xdc00 v && ltb v 0xe000)

pub utf16_decode : List ℕ → Runes
utf16_decode [] = []
utf16_decode (u ∷ []) = u ∷ []
utf16_decode (u ∷ v ∷ us) =
    let paired = (0x10000 + (u - 0xd800) * 2 ^ 10 + (v - 0xdc00)) ∷ utf16_decode us in
    let single = u ∷ utf16_decode (v ∷ us) in if is_pair u v then paired else single

encode_rune-bmp : (r : ℕ) → IsScalar r → r ≤ 0xffff → encode_rune r ≡ r ∷ []
unfolding encode_rune
encode_rune-bmp r h small = ground arith

encode_rune-astral :
    (r : ℕ)
    → 0xffff < r
    → r ≤ 0x10ffff
    → encode_rune r ≡ (0xd800 + (r - 0x10000) / 2 ^ 10) ∷ (0xdc00 + (r - 0x10000) % 2 ^ 10) ∷ []
unfolding encode_rune
encode_rune-astral r low high = ground (
  arith,
  bit_and_mask 10 0x3ff ((r - 0x10000) / 2 ^ 10) refl,
  bit_and_mask 10 0x3ff (r - 0x10000) refl,
)

decode_single : (r : ℕ) (us : List ℕ) → IsScalar r → utf16_decode (r ∷ us) ≡ r ∷ utf16_decode us
unfolding utf16_decode
decode_single r [] h = refl
decode_single r (u ∷ us) h = ground arith

decode_pair :
    (x : ℕ) (us : List ℕ)
    → x < 2 ^ 20
    → utf16_decode ((0xd800 + x / 2 ^ 10) ∷ (0xdc00 + x % 2 ^ 10) ∷ us)
      ≡ (0x10000 + x) ∷ utf16_decode us
unfolding utf16_decode
decode_pair x us h = ground arith

decode_rune :
    (r : ℕ) (us : List ℕ) → IsScalar r → utf16_decode (encode_rune r ++ us) ≡ r ∷ utf16_decode us
decode_rune r us h = elim (dec_lt 0xffff r) [
  | yes astral ↦
      let e : 0x10000 + (r - 0x10000) ≡ r = omega arith in
      rw (encode_rune-astral r astral (omega arith))
        (decode_pair (r - 0x10000) us (omega arith) ∙ ap (λ x. x ∷ utf16_decode us) e)
  | no bmp ↦ rw (encode_rune-bmp r h (omega arith)) (decode_single r us h)
]

-- The standard reading of the code units of `UTF16Encode` gives the runes back: no two strings of
-- scalar values share an encoding.
pub utf16_decode-utf16_encode : (s : Runes) → All IsScalar s → utf16_decode (utf16_encode s) ≡ s
unfolding utf16_encode utf16_decode
utf16_decode-utf16_encode [] h = refl
utf16_decode-utf16_encode (r ∷ rs) h =
    decode_rune r (utf16_encode rs) h.0 ∙ ap (◌∷◌ r) (utf16_decode-utf16_encode rs h.1)
