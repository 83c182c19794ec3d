-- ===== src/Utf16/Mention.antt =====
-- utf16.go, `MentionSpan`: the span that it reports is the first occurrence, and it finds one
-- whenever there is one.
use mezon_sdk_go.Prelude.{
  dec_lt, ℕ, zero, suc, ◌+◌, ◌-◌, ◌≤◌, ◌<◌, ◌≡◌, refl, sym, ap, ◌∙◌, ◌⊎◌, inl, inr, true, false,
  ◌&&◌, List, [], ◌∷◌, ◌++◌, Option, none, some, ◌==◌, ==_iff, ==_refl, Bool-cases, arith, length,
  length-append, All, get_elem?,
}
use mezon_sdk_go.Utf16.{
  unit_is, Runes, utf16_len, utf16_encode, matches_at, search_span, mention_span,
}
use mezon_sdk_go.Utf16.Encoding.{IsRune, length-utf16_encode}

-- `sub` stands in `units` from position `i` on.
abbrev pub Occurs : List ℕ → List ℕ → ℕ → Type 0
Occurs units sub i =
    (before : List ℕ) × (after : List ℕ) × (units ≡ before ++ (sub ++ after)) × (length before ≡ i)

Occurs-cons :
    (u : ℕ) (units sub : List ℕ) (i : ℕ) → Occurs units sub i → Occurs (u ∷ units) sub (suc i)
Occurs-cons u units sub i (before, after, e, n) = (u ∷ before, after, ap (◌∷◌ u) e, ap suc n)

matches_at-cons :
    (u : ℕ) (units : List ℕ) (i : ℕ) (sub : List ℕ)
    → matches_at (u ∷ units) (suc i) sub ≡ matches_at units i sub
unfolding matches_at
matches_at-cons u units i [] = refl
matches_at-cons u units i (s ∷ ss) =
    let e : suc i + 1 ≡ suc (i + 1) = omega arith in
    ap (λ b. unit_is (get_elem? units i) s && b)
      (ap (λ n. matches_at (u ∷ units) n ss) e ∙ matches_at-cons u units (i + 1) ss)

matches_at_start :
    (units sub : List ℕ) → matches_at units 0 sub ≡ true → (after : List ℕ) × (units ≡ sub ++ after)
unfolding matches_at
matches_at_start units [] m = (units, refl)
matches_at_start [] (s ∷ ss) m = cc
matches_at_start (v ∷ units) (s ∷ ss) m =
    let e : ℕ = 0 + 1 in
    let shift = matches_at-cons v units 0 ss in
    let (after, split) = matches_at_start units ss (ground arith) in
    (after, ground (arith, ==_iff v s))

start_matches_at : (sub after : List ℕ) → matches_at (sub ++ after) 0 sub ≡ true
unfolding matches_at
start_matches_at [] after = refl
start_matches_at (s ∷ ss) after =
    ground (arith, ==_refl s, matches_at-cons s (ss ++ after) 0 ss, start_matches_at ss after)

-- The inner loop compares exactly.
matches_at-Occurs :
    (units : List ℕ) (i : ℕ) (sub : List ℕ)
    → i ≤ length units
    → matches_at units i sub ≡ true
    → Occurs units sub i
matches_at-Occurs units zero sub h m =
    let (after, split) = matches_at_start units sub m in ([], after, split, refl)
matches_at-Occurs [] (suc i) sub h m = absurd (omega arith)
matches_at-Occurs (u ∷ units) (suc i) sub h m =
    Occurs-cons u units sub i
      (matches_at-Occurs units i sub (omega arith) (sym (matches_at-cons u units i sub) ∙ m))

Occurs-matches_at :
    (before sub after : List ℕ) → matches_at (before ++ (sub ++ after)) (length before) sub ≡ true
Occurs-matches_at [] sub after = start_matches_at sub after
Occurs-matches_at (u ∷ before) sub after =
    matches_at-cons u (before ++ (sub ++ after)) (length before) sub
    ∙ Occurs-matches_at before sub after

Occurs→matches_at :
    (units sub : List ℕ) (i : ℕ) → Occurs units sub i → matches_at units i sub ≡ true
Occurs→matches_at units sub i (before, after, e, n) =
    rw (e, ← n) (Occurs-matches_at before sub after)

Occurs-le : (units sub : List ℕ) (i : ℕ) → Occurs units sub i → i + length sub ≤ length units
Occurs-le units sub i (before, after, e, n) =
    omega (arith, ap length e, length-append before (sub ++ after), length-append sub after)

-- What the outer loop has found from `i` on in so many rounds.
abbrev Searched : ℕ → ℕ → List ℕ → List ℕ → Option (ℕ × ℕ) → Type 0
Searched rounds i units sub none = (j : ℕ) → i ≤ j → j < i + rounds → matches_at units j sub ≡ false
Searched rounds i units sub (some (a, b)) =
    (matches_at units a sub ≡ true)
    × (b ≡ a + length sub)
    × (i ≤ a)
    × (a < i + rounds)
    × ((j : ℕ) → i ≤ j → j < a → matches_at units j sub ≡ false)

Searched-step :
    (rounds i : ℕ) (units sub : List ℕ) (o : Option (ℕ × ℕ))
    → matches_at units i sub ≡ false
    → Searched rounds (i + 1) units sub o
    → Searched (suc rounds) i units sub o
Searched-step rounds i units sub none miss later = λ j low high. elim (dec_lt i j) [
  | yes past ↦ later j (omega arith) (omega arith)
  | no here ↦ let e : j ≡ i = omega arith in rw e miss
]
Searched-step rounds i units sub (some (a, b)) miss (m, e, low, high, first) = (
  m,
  e,
  omega arith,
  omega arith,
  λ j jl jh. elim (dec_lt i j) [
    | yes past ↦ first j (omega arith) jh
    | no here ↦ let e : j ≡ i = omega arith in rw e miss
  ],
)

search_span-Searched :
    (rounds i : ℕ) (units sub : List ℕ)
    → Searched rounds i units sub (search_span rounds i units sub)
unfolding search_span
search_span-Searched zero i units sub = λ j low high. absurd (omega arith)
search_span-Searched (suc rounds) i units sub = elim (Bool-cases (matches_at units i sub)) [
  | inl hit ↦ rw hit (hit, refl, omega arith, omega arith, λ j low high. absurd (omega arith))
  | inr miss ↦
      rw miss
        (Searched-step rounds i units sub _ miss (search_span-Searched rounds (i + 1) units sub))
]

-- The meaning of a result: the first occurrence of a non-empty `sub`, ending one past its last
-- code unit; or no occurrence.
abbrev pub IsMentionSpan : Runes → Runes → Option (ℕ × ℕ) → Type 0
IsMentionSpan text sub none =
    (utf16_len sub ≡ 0) ⊎ ((i : ℕ) → ¬ Occurs (utf16_encode text) (utf16_encode sub) i)
IsMentionSpan text sub (some (start, stop)) =
    (0 < utf16_len sub)
    × Occurs (utf16_encode text) (utf16_encode sub) start
    × (stop ≡ start + utf16_len sub)
    × ((i : ℕ) → i < start → ¬ Occurs (utf16_encode text) (utf16_encode sub) i)

Searched-IsMentionSpan :
    (text sub : Runes) (o : Option (ℕ × ℕ))
    → length (utf16_encode sub) ≡ utf16_len sub
    → 0 < utf16_len sub
    → Searched
        (length (utf16_encode text) + 1 - length (utf16_encode sub))
        0
        (utf16_encode text)
        (utf16_encode sub)
        o
    → IsMentionSpan text sub o
Searched-IsMentionSpan text sub none size pos s =
    let units : List ℕ = utf16_encode text in
    let us : List ℕ = utf16_encode sub in
    inr λ i o.
      let miss = s i (omega arith) (omega (arith, Occurs-le units us i o)) in
      let hit = Occurs→matches_at units us i o in cc
Searched-IsMentionSpan text sub (some (a, b)) size pos (m, e, low, high, first) =
    let units : List ℕ = utf16_encode text in
    let us : List ℕ = utf16_encode sub in
    (
      pos,
      matches_at-Occurs units a us (omega arith) m,
      omega arith,
      λ i before o.
          let miss = first i (omega arith) before in let hit = Occurs→matches_at units us i o in cc,
    )

-- `MentionSpan` reports the first occurrence of a non-empty `sub` in the code units of the text,
-- from its start to one past its last unit, and reports nothing only when `sub` is empty or does
-- not occur.
pub mention_span-IsMentionSpan :
    (text sub : Runes) → All IsRune sub → IsMentionSpan text sub (mention_span text sub)
unfolding mention_span
mention_span-IsMentionSpan text sub valid =
    let size = length-utf16_encode sub valid in
    elim (Bool-cases (length (utf16_encode sub) == 0)) [
      | inl empty ↦ rw empty (inl (ground arith))
      | inr full ↦ rw full (
          Searched-IsMentionSpan text sub _ size (ground arith) (
            search_span-Searched (length (utf16_encode text) + 1 - length (utf16_encode sub)) 0
              (utf16_encode text) (utf16_encode sub)))
    ]
