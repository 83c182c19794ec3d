-- ===== src/ApiName/Lookup.antt =====
-- apiname.go: the index map finds every name of the list at its place, and nothing else.
use mezon_sdk_go.Prelude.{
  ℕ, zero, suc, ◌+◌, ◌≡◌, refl, sym, ap, ◌∙◌, inl, inr, List, [], ◌∷◌, Option, none, some, Bool,
  true, false, if◌then◌else◌, Bytes, insert, lookup, lookup-insert, bytes_eq, same_bytes, is_some,
  same_bytes→≡, same_bytes_refl, Option-cases, ◌↔◌, get_elem?, arith,
}
use mezon_sdk_go.ApiName.{api_names, index_names, api_name_index, api_index_from_name}

-- The place of a name in a list, counted from `i`; the last one counts.
abbrev pub place_from : ℕ → Bytes → List Bytes → Option ℕ
place_from i name [] = none
place_from i name (x ∷ names) = elim (place_from (suc i) name names) [
  | some j ↦ some j
  | none ↦ if same_bytes x name then some i else none
]

abbrev or_else : Option ℕ → Option ℕ → Option ℕ
or_else none o = o
or_else (some j) o = some j

or_else-none : (o : Option ℕ) → or_else o none ≡ o
or_else-none none = refl
or_else-none (some j) = refl

lookup-index_names :
    (name : Bytes) (i : ℕ) (names : List Bytes) (m : List (Bytes × ℕ))
    → lookup name (index_names i names m) ≡ or_else (place_from i name names) (lookup name m)
unfolding index_names
lookup-index_names name i [] m = refl
lookup-index_names name i (x ∷ names) m =
    lookup-index_names name (suc i) names (insert x i m)
    ∙ ap (or_else (place_from (suc i) name names)) (lookup-insert x name i m)
    ∙ here (place_from (suc i) name names)
  where
    here :
        (o : Option ℕ)
        → or_else o (if same_bytes x name then some i else lookup name m)
          ≡ or_else
              (elim o [ some j ↦ some j | none ↦ if same_bytes x name then some i else none ])
              (lookup name m)
    here (some j) = refl
    here none = ground arith

-- The names of the table are all different.
abbrev all_distinct : List Bytes → Bool
all_distinct [] = true
all_distinct (x ∷ names) = if is_some (place_from 0 x names) then false else all_distinct names

api_names-distinct : all_distinct api_names ≡ true
unfolding api_names
api_names-distinct = refl

place_from-none :
    (i j : ℕ) (name : Bytes) (names : List Bytes)
    → place_from i name names ≡ none
    → place_from j name names ≡ none
place_from-none i j name [] h = refl
place_from-none i j name (x ∷ names) h = ground (arith, place_from-none (suc i) (suc j) name names)

place_from_sound :
    (i j : ℕ) (name : Bytes) (names : List Bytes)
    → place_from i name names ≡ some j
    → (k : ℕ) × (j ≡ i + k) × (get_elem? names k ≡ some name)
place_from_sound i j name [] h = absurd (ground arith)
place_from_sound i j name (x ∷ names) h = elim (Option-cases (place_from (suc i) name names)) [
  | inr (m, found) ↦
      let later = place_from_sound (suc i) m name names found in
      let same : m ≡ j = ground arith in (suc later.0, omega (arith, later.1, same), later.2)
  | inl absent ↦
      let hit : (if same_bytes x name then some i else none) ≡ some j = rw absent at h in
      (0, ground arith, ground (arith, same_bytes→≡ x name))
]

place_from_complete :
    (i k : ℕ) (name : Bytes) (names : List Bytes)
    → all_distinct names ≡ true
    → get_elem? names k ≡ some name
    → place_from i name names ≡ some (i + k)
place_from_complete i k name [] d h = absurd (ground arith)
place_from_complete i zero name (x ∷ names) d h =
    let same : x ≡ name = ground arith in
    let once : place_from 0 x names ≡ none = ground arith in
    let absent : place_from (suc i) name names ≡ none =
      place_from-none 0 (suc i) name names (ap (λ n. place_from 0 n names) (sym same) ∙ once) in
    rw (absent, same, same_bytes_refl name) (ap some (omega arith))
place_from_complete i (suc k) name (x ∷ names) d h =
    let rest : all_distinct names ≡ true = ground arith in
    rw (place_from_complete (suc i) k name names rest h) (ap some (omega arith))

-- apiIndexFromName gives an index for a name exactly when the name stands at that index of the
-- table: every name of it has its place as index, and no other string has an index.
pub api_index_from_name_lem :
    (name : Bytes) (i : ℕ)
    → (api_index_from_name name ≡ some i) ↔ (get_elem? api_names i ≡ some name)
unfolding api_index_from_name api_name_index lookup
api_index_from_name_lem name i =
    let e : lookup name (index_names 0 api_names []) ≡ or_else (place_from 0 name api_names) none =
      lookup-index_names name 0 api_names [] in
    let f : or_else (place_from 0 name api_names) none ≡ place_from 0 name api_names =
      or_else-none (place_from 0 name api_names) in
    (
      λ h.
          let at = place_from_sound 0 i name api_names (sym (e ∙ f) ∙ h) in
          let same : at.0 ≡ i = omega (arith, at.1) in ap (get_elem? api_names) (sym same) ∙ at.2,
      λ h.
          e
          ∙ f
          ∙ place_from_complete 0 i name api_names api_names-distinct h
          ∙ ap some (omega arith),
    )
