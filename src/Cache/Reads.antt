-- ===== src/Cache/Reads.antt =====
-- cache.go, what a caller sees: reads after writes, `Fetch`, and the size after any history.
use mezon_sdk_go.Prelude.{
  ◌≡◌, refl, sym, ap, ◌∙◌, subst, ◌⊎◌, inl, inr, List, [], ◌∷◌, none, some, arith, if◌then◌else◌,
  Eq, beq_refl, Bool-cases, Option-cases, lookup, Distinct, lookup-insert, ℤ,
}
use mezon_sdk_go.Errors.{Error, Result, ok, err, err_not_found}
use mezon_sdk_go.Cache.{
  CacheManager, Fetcher, get, make_room, append_key, store, set, fetch_result, fetch_miss, fetch,
}
use mezon_sdk_go.Cache.Fifo.{first_key, victim, is_key, drop_first, push}
use mezon_sdk_go.Cache.Refinement.{Represents, set-push, lookup-append}

module _ {ℓ} {K V : Type ℓ} ⦃e : Eq K⦄ where
  lookup_cons :
      (k j : K) (x : V) (es : List (K × V))
      → lookup k ((j, x) ∷ es) ≡ (if e.beq j k then some x else lookup k es)
  unfolding lookup
  lookup_cons k j x es = refl

  lookup-drop_first :
      (k : K) (es : List (K × V))
      → Distinct es
      → lookup k (drop_first es) ≡ (if is_key (first_key es) k then none else lookup k es)
  unfolding drop_first
  lookup-drop_first k [] d = refl
  lookup-drop_first k ((j, x) ∷ es) d = elim (Bool-cases (e.beq j k)) [
    | inl hit ↦
        let same : j ≡ k = (e.beq_iff j k).0 hit in
        rw hit (subst (λ z. lookup z es ≡ none) same d.0)
    | inr other ↦ rw other (sym (lookup_cons k j x es ∙ rw other))
  ]

  push_new :
      (limit : ℤ) (id k : K) (v : V) (es : List (K × V))
      → Distinct es
      → lookup id es ≡ none
      → lookup k (push limit id v es) ≡ (
          if e.beq id k
          then some v
          else if is_key (victim limit id es) k
          then none
          else lookup k es)
  unfolding push victim
  push_new limit id k v es d miss =
      let absent : lookup id (drop_first es) ≡ none = ground (arith, lookup-drop_first id es d) in
      ground (
        arith,
        e.beq_iff id k,
        lookup-append k id v es,
        lookup-append k id v (drop_first es),
        lookup-drop_first k es d,
      )

  push_cached :
      (limit : ℤ) (id k : K) (v w : V) (es : List (K × V))
      → lookup id es ≡ some w
      → lookup k (push limit id v es) ≡ (
          if e.beq id k
          then some v
          else if is_key (victim limit id es) k
          then none
          else lookup k es)
  unfolding push victim
  push_cached limit id k v w es hit = ground (arith, lookup-insert id k v es)

  lookup-push :
      (limit : ℤ) (id k : K) (v : V) (es : List (K × V))
      → Distinct es
      → lookup k (push limit id v es) ≡ (
          if e.beq id k
          then some v
          else if is_key (victim limit id es) k
          then none
          else lookup k es)
  lookup-push limit id k v es d = elim (Option-cases (lookup id es)) [
    | inr (w, hit) ↦ push_cached limit id k v w es hit
    | inl miss ↦ push_new limit id k v es d miss
  ]

  -- A `Get` after a `Set` reads the new value under the key that was set, nothing under the key
  -- that made room for it, and what it read before under any other key.
  pub get-set :
      (c : CacheManager K V) (es : List (K × V)) (id k : K) (v : V)
      → Represents c es
      → get (set c id v) k ≡ (
          if e.beq id k
          then some v
          else if is_key (victim c.max_size id es) k
          then none
          else get c k)
  unfolding get
  get-set c es id k v r =
      let after = (set-push c es id v r).0 in
      rw (r.entries k) (after.entries k ∙ lookup-push c.max_size id k v es r.distinct)

  set_reads_self : (c : CacheManager K V) (id : K) (v : V) → get (set c id v) id ≡ some v
  unfolding get set store
  set_reads_self c id v = ground (
    arith,
    beq_refl id,
    lookup-insert id id v c.items,
    lookup-insert id id v (append_key id (make_room c)).items,
  )

  pub fetch_hit :
      (f : Fetcher K V) (c : CacheManager K V) (id : K) (v : V)
      → get c id ≡ some v
      → fetch f c id ≡ (c, ok v)
  unfolding fetch
  fetch_hit f c id v h = rw (h, fetch)

  fetch_result_held :
      (o : CacheManager K V × Result V) (c' : CacheManager K V) (id : K) (v : V)
      → fetch_result id o ≡ (c', ok v)
      → get c' id ≡ some v
  unfolding fetch_result
  fetch_result_held (d, ok w) c' id v p =
      let state : set d id w ≡ c' = ap (λ q. q.0) p in
      let value : w ≡ v = ground arith in
      subst (λ q. get q id ≡ some v) state (set_reads_self d id w ∙ ap some value)
  fetch_result_held (d, err x) c' id v p = cc

  pub fetch-none :
      (f : Fetcher K V) (c : CacheManager K V) (id : K)
      → get c id ≡ none
      → fetch f c id ≡ fetch_miss f c id
  unfolding fetch
  fetch-none f c id h = rw (h, fetch)

  fetch_cases :
      (f : Fetcher K V) (c c' : CacheManager K V) (id : K) (v : V)
      → (get c id ≡ none) ⊎ ((w : V) × (get c id ≡ some w))
      → fetch f c id ≡ (c', ok v)
      → get c' id ≡ some v
  unfolding fetch_miss
  fetch_cases f c c' id v (inr (w, hit)) h =
      let p = sym (fetch_hit f c id w hit) ∙ h in
      let value : w ≡ v = ground arith in
      subst (λ q. get q id ≡ some v) (ap (λ q. q.0) p) (hit ∙ ap some value)
  fetch_cases none c c' id v (inl miss) h = let p = sym (fetch-none none c id miss) ∙ h in cc
  fetch_cases (some fetcher) c c' id v (inl miss) h =
      fetch_result_held (fetcher c id) c' id v (sym (fetch-none (some fetcher) c id miss) ∙ h)

  -- A value that `Fetch` returns is in the cache afterwards: the next `Get` of the key returns it,
  -- and so does the next `Fetch`, whatever its fetcher would say.
  pub get-fetch :
      (f g : Fetcher K V) (c c' : CacheManager K V) (id : K) (v : V)
      → fetch f c id ≡ (c', ok v)
      → (get c' id ≡ some v) × (fetch g c' id ≡ (c', ok v))
  get-fetch f g c c' id v h =
      let held = fetch_cases f c c' id v (Option-cases (get c id)) h in
      (held, fetch_hit g c' id v held)

  -- A miss with no fetcher, or with one that fails, stores nothing and returns the error.
  pub fetch-err :
      (c d : CacheManager K V) (id : K) (x : Error)
      (fetcher : CacheManager K V → K → CacheManager K V × Result V)
      → get c id ≡ none
      → fetcher c id ≡ (d, err x)
      → (fetch none c id ≡ (c, err err_not_found)) × (fetch (some fetcher) c id ≡ (d, err x))
  unfolding fetch_miss fetch_result
  fetch-err c d id x fetcher miss fails =
      (fetch-none none c id miss, fetch-none (some fetcher) c id miss ∙ ap (fetch_result id) fails)
