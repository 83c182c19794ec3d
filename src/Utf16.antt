-- ===== src/Utf16.antt =====
-- utf16.go: lengths and offsets in UTF-16 code units. A string is the list of its runes, as a Go
-- `range` yields them; `utf16.Encode` is the language library's, written out.
pub mod Encoding
pub mod Mention
use mezon_sdk_go.Prelude.{
  ℕ, zero, suc, ◌+◌, ◌-◌, ◌/◌, ◌^◌, Bool, true, false, ◌&&◌, List, [], ◌∷◌, Option, none, some, ltb,
  leb, ◌||◌, ◌++◌, ◌==◌, if◌then◌else◌, length, get_elem?, bit_and, ℤ, pos, negsuc,
}

abbrev pub Runes : Type 0
Runes = List ℕ

unfoldable pub utf16_len_from : ℕ → Runes → ℕ
utf16_len_from n [] = n
utf16_len_from n (r ∷ rs) = utf16_len_from (if ltb 0xffff r then n + 2 else n + 1) rs

unfoldable pub utf16_len : Runes → ℕ
utf16_len s = utf16_len_from 0 s

-- One rune by `utf16.Encode`: a unit, a surrogate pair, or U+FFFD for what has no encoding.
unfoldable pub encode_rune : ℕ → List ℕ
encode_rune r =
    if ltb r 0xd800 || (leb 0xe000 r && ltb r 0x10000)
    then r ∷ []
    else if leb 0x10000 r && leb r 0x10ffff
    then (0xd800 + bit_and ((r - 0x10000) / 2 ^ 10) 0x3ff)
      ∷ (0xdc00 + bit_and (r - 0x10000) 0x3ff)
      ∷ []
    else 0xfffd ∷ []

unfoldable pub utf16_encode : Runes → List ℕ
utf16_encode [] = []
utf16_encode (r ∷ rs) = encode_rune r ++ utf16_encode rs

-- `i >= runeIdx`, where `runeIdx` may be negative.
abbrev pub reached : ℤ → ℕ → Bool
reached (pos n) i = leb n i
reached (negsuc n) i = true

unfoldable pub rune_index_from : ℤ → ℕ → ℕ → Runes → ℕ
rune_index_from idx off i [] = off
rune_index_from idx off i (r ∷ rs) =
    let rest = rune_index_from idx (if ltb 0xffff r then off + 2 else off + 1) (i + 1) rs in
    if reached idx i then off else rest

unfoldable pub rune_index_to_utf16 : Runes → ℤ → ℕ
rune_index_to_utf16 s idx = rune_index_from idx 0 0 s

-- `units[i+j] == subUnits[j]`.
abbrev pub unit_is : Option ℕ → ℕ → Bool
unit_is none u = false
unit_is (some v) u = v == u

-- The inner loop of `MentionSpan`; the outer one keeps `i + j` in range.
unfoldable pub matches_at : List ℕ → ℕ → List ℕ → Bool
matches_at units i [] = true
matches_at units i (u ∷ us) = unit_is (get_elem? units i) u && matches_at units (i + 1) us

unfoldable pub search_span : ℕ → ℕ → List ℕ → List ℕ → Option (ℕ × ℕ)
search_span zero i units sub_units = none
search_span (suc rounds) i units sub_units =
    let rest = search_span rounds (i + 1) units sub_units in
    if matches_at units i sub_units then some (i, i + length sub_units) else rest

-- The rounds are the values of `i` with i + len(subUnits) <= len(units).
unfoldable pub mention_span : Runes → Runes → Option (ℕ × ℕ)
mention_span text sub =
    let units = utf16_encode text in
    let sub_units = utf16_encode sub in
    if length sub_units == 0
    then none
    else search_span (length units + 1 - length sub_units) 0 units sub_units
