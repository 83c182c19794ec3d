-- ===== src/Cache/Fifo.antt =====
-- What a cache promises: a queue of entries, oldest first, each key once, cut to a limit by
-- dropping the oldest.
use mezon_sdk_go.Prelude.{
  length-insert, ℕ, ◌≤◌, ◌<◌, Bool, false, List, [], ◌∷◌, ◌++◌, Option, none, some, arith,
  if◌then◌else◌, is_some, Eq, length, length-append, lookup, insert, ℤ, pos,
}
use mezon_sdk_go.Cache.{at_limit}

abbrev pub is_key {ℓ} : {K : Type ℓ} ⦃e : Eq K⦄ → Option K → K → Bool
is_key none k = false
is_key ⦃e⦄ (some j) k = e.beq j k

module _ {ℓ} {K V : Type ℓ} ⦃e : Eq K⦄ where
  unfoldable pub drop_first : List (K × V) → List (K × V)
  drop_first [] = []
  drop_first (x ∷ xs) = xs

  unfoldable pub push : ℤ → K → V → List (K × V) → List (K × V)
  push limit id v es =
      if is_some (lookup id es)
      then insert id v es
      else (if at_limit limit (length es) then drop_first es else es) ++ (id, v) ∷ []

  -- The queue stays within a positive limit.
  pub length-push :
      (m : ℕ) (id : K) (v : V) (es : List (K × V))
      → 0 < m
      → length es ≤ m
      → length (push (pos m) id v es) ≤ m
  unfolding push drop_first lookup
  length-push m id v [] h k = ground arith
  length-push m id v (x ∷ es) h k = ground (
    arith,
    length-insert id v (x ∷ es),
    length-append es ((id, v) ∷ []),
    length-append (x ∷ es) ((id, v) ∷ []),
  )

  abbrev pub first_key : List (K × V) → Option K
  first_key [] = none
  first_key (x ∷ es) = some x.0

  -- The key that a push drops: the oldest, when a new key meets the limit.
  unfoldable pub victim : ℤ → K → List (K × V) → Option K
  victim limit id es =
      if is_some (lookup id es)
      then none
      else if at_limit limit (length es)
      then first_key es
      else none
