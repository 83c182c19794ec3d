-- ===== src/Client/Heap.antt =====
-- The cells of a heap after a write and after an allocation.
use mezon_sdk_go.Prelude.{
  ◌≡◌, ◌≢◌, refl, ◌⊎◌, inl, inr, List, Option, none, some, arith, if◌then◌else◌, nat_eq, ◌==◌,
  ==_iff, ==_refl, lookup, insert, lookup-insert, Option-cases, Bool-cases,
}
use mezon_sdk_go.Entities.{Address}
use mezon_sdk_go.Client.{modify}

module _ {V : Type 0} where
  abbrev mapped : (V → V) → Option V → Option V
  mapped f none = none
  mapped f (some v) = some (f v)

  pub lookup-modify :
      (p q : Address) (f : V → V) (heap : List (Address × V))
      → lookup q (modify p f heap) ≡ (if p == q then mapped f (lookup q heap) else lookup q heap)
  unfolding modify
  lookup-modify p q f heap = elim (Option-cases (lookup p heap)) [
    | inl gone ↦ rw (gone, modify) (ground (arith, ==_iff p q))
    | inr (v, there) ↦ rw (there, modify) (ground (arith, ==_iff p q, lookup-insert p q (f v) heap))
  ]

  pub modify_self :
      (p : Address) (f : V → V) (heap : List (Address × V)) {v : V}
      → lookup p heap ≡ some v
      → lookup p (modify p f heap) ≡ some (f v)
  modify_self p f heap h = ground (arith, lookup-modify p p f heap, ==_refl p)

  -- A cell after a write was a cell before it.
  pub modify_cases :
      (p q : Address) (f : V → V) (heap : List (Address × V)) {w : V}
      → lookup q (modify p f heap) ≡ some w
      → (v : V) × (lookup q heap ≡ some v) × ((w ≡ v) ⊎ ((p ≡ q) × (w ≡ f v)))
  modify_cases p q f heap {w} h = elim (Option-cases (lookup q heap)) [
    | inl gone ↦ absurd (ground (arith, lookup-modify p q f heap))
    | inr (v, there) ↦ (v, there, ground (arith, lookup-modify p q f heap, ==_iff p q))
  ]

  -- And a cell before it is one after it.
  pub modify_keeps :
      (p q : Address) (f : V → V) (heap : List (Address × V)) {v : V}
      → lookup q heap ≡ some v
      → (w : V) × (lookup q (modify p f heap) ≡ some w) × ((w ≡ v) ⊎ ((p ≡ q) × (w ≡ f v)))
  modify_keeps p q f heap {v} h = elim (Bool-cases (p == q)) [
    | inl same ↦ (f v, ground (arith, lookup-modify p q f heap), inr ((==_iff p q).0 same, refl))
    | inr other ↦ (v, ground (arith, lookup-modify p q f heap), inl refl)
  ]

  pub modify_absent :
      (p q : Address) (f : V → V) (heap : List (Address × V))
      → lookup q heap ≡ none
      → lookup q (modify p f heap) ≡ none
  modify_absent p q f heap h = ground (arith, lookup-modify p q f heap)

  pub insert_cases :
      (p q : Address) (v : V) (heap : List (Address × V)) {w : V}
      → lookup q (insert p v heap) ≡ some w
      → (v ≡ w) ⊎ (lookup q heap ≡ some w)
  insert_cases p q v heap h = ground (arith, lookup-insert p q v heap)

  pub insert_self :
      (p : Address) (v : V) (heap : List (Address × V)) → lookup p (insert p v heap) ≡ some v
  insert_self p v heap = ground (arith, lookup-insert p p v heap, ==_refl p)

  pub insert_other :
      (p q : Address) (v : V) (heap : List (Address × V))
      → p ≢ q
      → lookup q (insert p v heap) ≡ lookup q heap
  insert_other p q v heap h = ground (arith, lookup-insert p q v heap, ==_iff p q)
