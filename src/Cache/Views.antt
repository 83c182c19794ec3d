-- ===== src/Cache/Views.antt =====
-- cache.go, what can be read of a cache: `Get`, `Values` and `Size` against its queue of entries.
use mezon_sdk_go.Prelude.{
  All, ◌≡◌, refl, ap, ◌∙◌, subst, inl, inr, List, [], ◌∷◌, none, some, if◌then◌else◌, Eq, beq_refl,
  Bool-cases, length, lookup, Distinct,
}
use mezon_sdk_go.Cache.{CacheManager, values_of, get, values, size}
use mezon_sdk_go.Cache.Refinement.{keys, vals, Represents}

module _ {ℓ} {K V : Type ℓ} ⦃e : Eq K⦄ where
  -- Every entry of the second list is what the first says of its key.
  abbrev Finds : List (K × V) → List (K × V) → Type ℓ
  Finds items = All (λ p. lookup p.0 items ≡ some p.1)

  values_of-vals :
      (z : V) (items fs : List (K × V)) → Finds items fs → values_of z items (keys fs) ≡ vals fs
  unfolding values_of
  values_of-vals z items [] h = refl
  values_of-vals z items (p ∷ fs) h = rw h.0 (ap (◌∷◌ p.1) (values_of-vals z items fs h.1))

  Finds-cons :
      (j : K) (x : V) (es fs : List (K × V))
      → lookup j es ≡ none
      → Finds es fs
      → Finds ((j, x) ∷ es) fs
  unfolding lookup
  Finds-cons j x es [] absent h = tt
  Finds-cons j x es (p ∷ fs) absent h = (head, Finds-cons j x es fs absent h.1)
    where
      head : (if e.beq j p.0 then some x else lookup p.0 es) ≡ some p.1
      head = elim (Bool-cases (e.beq j p.0)) [
        | inl hit ↦
            let same : j ≡ p.0 = (e.beq_iff j p.0).0 hit in
            let clash : lookup p.0 es ≡ none = subst (λ k. lookup k es ≡ none) same absent in
            cc (clash, h.0)
        | inr miss ↦ rw miss h.0
      ]

  Distinct-Finds : (es : List (K × V)) → Distinct es → Finds es es
  unfolding lookup
  Distinct-Finds [] d = tt
  Distinct-Finds ((j, x) ∷ es) d =
      (rw (beq_refl j), Finds-cons j x es es d.0 (Distinct-Finds es d.1))

  Finds-eq :
      (items es fs : List (K × V))
      → ((k : K) → lookup k items ≡ lookup k es)
      → Finds es fs
      → Finds items fs
  Finds-eq items es [] same h = tt
  Finds-eq items es (p ∷ fs) same h = (same p.0 ∙ h.0, Finds-eq items es fs same h.1)

  -- What can be read: `Get` and `Values` and `Size` are those of the queue.
  pub reads :
      (z : V) (c : CacheManager K V) (es : List (K × V))
      → Represents c es
      → ((k : K) → get c k ≡ lookup k es) × (values z c ≡ vals es) × (size c ≡ length es)
  unfolding get values size
  reads z c es r = (
    r.entries,
    ap (values_of z c.items) r.ordered
        ∙ values_of-vals z c.items es
            (Finds-eq c.items es es r.entries (Distinct-Finds es r.distinct)),
    r.count,
  )
