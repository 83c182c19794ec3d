-- ===== src/Cache/Refinement.antt =====
-- cache.go, each method against the queue of entries that the cache stands for.
use mezon_sdk_go.Prelude.{
  delete_absent, ◌≡◌, refl, sym, ap, ◌∙◌, subst, inl, inr, Bool, true, false, List, [], ◌∷◌, ◌++◌,
  none, some, arith, if◌then◌else◌, is_some, Eq, beq_refl, Bool-cases, Option-cases, length,
  length-append, map, lookup, insert, delete, Distinct, lookup-insert, lookup-delete, length-insert,
  length-delete, Distinct-insert, Distinct-delete,
}
use mezon_sdk_go.Cache.{
  CacheManager, at_limit, remove_key, drop_oldest, make_room, append_key, store, set, delete_key,
}
use mezon_sdk_go.Cache.Fifo.{drop_first, push}

abbrev pub keys {ℓ} : {K V : Type ℓ} → List (K × V) → List K
keys = map (λ p. p.0)

abbrev pub vals {ℓ} : {K V : Type ℓ} → List (K × V) → List V
vals = map (λ p. p.1)

-- The cache holds the entries `es`, oldest first.
pub record Represents {ℓ} {K V : Type ℓ} ⦃e : Eq K⦄ (c : CacheManager K V) (es : List (K × V))
    : Type ℓ where
  pub ordered : c.order ≡ keys es
  pub entries : (k : K) → lookup k c.items ≡ lookup k es
  pub distinct : Distinct es
  pub items_distinct : Distinct c.items
  pub count : length c.items ≡ length es

module _ {ℓ} {K V : Type ℓ} ⦃e : Eq K⦄ where
  pub lookup-append :
      (k id : K) (v : V) (es : List (K × V))
      → lookup k (es ++ (id, v) ∷ [])
        ≡ (if is_some (lookup k es) then lookup k es else if e.beq id k then some v else none)
  unfolding lookup
  lookup-append k id v [] = refl
  lookup-append k id v ((j, w) ∷ es) = ground (arith, lookup-append k id v es)

  Distinct-append :
      (id : K) (v : V) (es : List (K × V))
      → lookup id es ≡ none
      → Distinct es
      → Distinct (es ++ (id, v) ∷ [])
  unfolding lookup
  Distinct-append id v [] h d = (refl, tt)
  Distinct-append id v ((j, w) ∷ es) h d =
      ground
        (arith, e.beq_iff j id, e.beq_iff id j, lookup-append j id v es, Distinct-append id v es)

  keys-append :
      (id : K) (v : V) (es : List (K × V)) → keys (es ++ (id, v) ∷ []) ≡ keys es ++ id ∷ []
  keys-append id v [] = refl
  keys-append id v (x ∷ es) = ap (◌∷◌ x.0) (keys-append id v es)

  keys-insert :
      (id : K) (v w : V) (es : List (K × V))
      → lookup id es ≡ some w
      → keys (insert id v es) ≡ keys es
  unfolding lookup insert
  keys-insert id v w [] h = cc
  keys-insert id v w ((j, x) ∷ es) h = ground (arith, e.beq_iff j id, keys-insert id v w es)

  keys-delete :
      (id : K) (es : List (K × V)) → Distinct es → keys (delete id es) ≡ remove_key id (keys es)
  unfolding lookup delete remove_key
  keys-delete id [] d = refl
  keys-delete id ((j, x) ∷ es) d = elim (Bool-cases (e.beq j id)) [
    | inl hit ↦
        let same : j ≡ id = (e.beq_iff j id).0 hit in
        rw hit (ap keys (delete_absent id es (subst (λ k. lookup k es ≡ none) same d.0)))
    | inr miss ↦ rw miss (ap (◌∷◌ j) (keys-delete id es d.1))
  ]

  Represents-update :
      (c : CacheManager K V) (es : List (K × V)) (id : K) (v w : V)
      → Represents c es
      → lookup id es ≡ some w
      → Represents (store id v c) (insert id v es)
  unfolding store
  Represents-update c es id v w r h = record {
    ordered = r.ordered ∙ sym (keys-insert id v w es h);
    entries =
        λ k. ground (arith, lookup-insert id k v c.items, lookup-insert id k v es, r.entries k);
    distinct = Distinct-insert id v es r.distinct;
    items_distinct = Distinct-insert id v c.items r.items_distinct;
    count =
        ground (arith, length-insert id v c.items, length-insert id v es, r.entries id, r.count);
  }

  Represents-append :
      (c : CacheManager K V) (es : List (K × V)) (id : K) (v : V)
      → Represents c es
      → lookup id es ≡ none
      → Represents (store id v (append_key id c)) (es ++ (id, v) ∷ [])
  unfolding store append_key
  Represents-append c es id v r h = record {
    ordered = ap (λ ks. ks ++ id ∷ []) r.ordered ∙ sym (keys-append id v es);
    entries = λ k.
        ground (
          arith,
          e.beq_iff id k,
          lookup-insert id k v c.items,
          lookup-append k id v es,
          r.entries k,
        );
    distinct = Distinct-append id v es h r.distinct;
    items_distinct = Distinct-insert id v c.items r.items_distinct;
    count =
        ground (
          arith,
          length-insert id v c.items,
          length-append es ((id, v) ∷ []),
          r.entries id,
          r.count,
        );
  }

  Represents-drop_oldest :
      (c : CacheManager K V) (es : List (K × V))
      → Represents c es
      → Represents (drop_oldest c (keys es)) (drop_first es)
  unfolding drop_oldest drop_first lookup
  Represents-drop_oldest c [] r = r
  Represents-drop_oldest c ((j, x) ∷ es) r = record {
    ordered = refl;
    entries =
        λ k. ground (arith, e.beq_iff j k, lookup-delete j k c.items, r.entries k, r.distinct);
    distinct = r.distinct.1;
    items_distinct = Distinct-delete j c.items r.items_distinct;
    count =
        let here : lookup j ((j, x) ∷ es) ≡ some x = rw (beq_refl j) in
        omega (arith, length-delete j x c.items r.items_distinct (r.entries j ∙ here), r.count);
  }

  Represents-make_room :
      (c : CacheManager K V) (es : List (K × V))
      → Represents c es
      → Represents (make_room c) (if at_limit c.max_size (length es) then drop_first es else es)
  unfolding make_room
  Represents-make_room c es r =
      subst (λ n. Represents (make_room c) (if at_limit c.max_size n then drop_first es else es))
        r.count
        (elim (Bool-cases (at_limit c.max_size (length c.items))) [
          | inl full ↦ rw full (
              subst (λ ks. Represents (drop_oldest c ks) (drop_first es)) (sym r.ordered)
                (Represents-drop_oldest c es r))
          | inr room ↦ rw room r
        ])

  make_room-max_size : (c : CacheManager K V) → (make_room c).max_size ≡ c.max_size
  unfolding make_room
  make_room-max_size c = drop (at_limit c.max_size (length c.items)) c.order
    where
      drop : (b : Bool) (ks : List K) → (if b then drop_oldest c ks else c).max_size ≡ c.max_size
      drop true [] = unfold drop_oldest in refl
      drop true (k ∷ ks) = unfold drop_oldest in refl
      drop false ks = refl

  lookup-drop_first :
      (id : K) (es : List (K × V)) → lookup id es ≡ none → lookup id (drop_first es) ≡ none
  unfolding drop_first lookup
  lookup-drop_first id [] h = refl
  lookup-drop_first id (x ∷ es) h = ground arith

  -- `Set` is `push` on the queue: an entry for a cached key is replaced where it stands, and a new
  -- one goes to the end, after the oldest has made room if the limit is reached. The limit stays.
  pub set-push :
      (c : CacheManager K V) (es : List (K × V)) (id : K) (v : V)
      → Represents c es
      → Represents (set c id v) (push c.max_size id v es) × ((set c id v).max_size ≡ c.max_size)
  unfolding set push
  set-push c es id v r = elim (Option-cases (lookup id es)) [
    | inr (w, hit) ↦
        rw (hit, r.entries id ∙ hit) (Represents-update c es id v w r hit, unfold store in refl)
    | inl miss ↦
        let kept : Bool = at_limit c.max_size (length es) in
        let absent : lookup id (if kept then drop_first es else es) ≡ none =
          ground (arith, lookup-drop_first id es miss) in
        rw (miss, r.entries id ∙ miss)
          (
            Represents-append (make_room c) _ id v (Represents-make_room c es r) absent,
            unfold store append_key in make_room-max_size c,
          )
  ]

  -- `Delete` takes the key's entry out, keeps the order of the others, and reports whether there
  -- was one.
  pub delete_key-delete :
      (c : CacheManager K V) (es : List (K × V)) (id : K)
      → Represents c es
      → Represents (delete_key c id).0 (delete id es)
        × ((delete_key c id).1 ≡ is_some (lookup id es))
  unfolding delete_key
  delete_key-delete c es id r = elim (Option-cases (lookup id es)) [
    | inl miss ↦ rw (miss, r.entries id ∙ miss, delete_absent id es miss) (r, refl)
    | inr (w, hit) ↦
        rw (hit, r.entries id ∙ hit)
          (
            record {
              ordered = ap (remove_key id) r.ordered ∙ sym (keys-delete id es r.distinct);
              entries = λ k.
                  ground (arith, lookup-delete id k c.items, lookup-delete id k es, r.entries k);
              distinct = Distinct-delete id es r.distinct;
              items_distinct = Distinct-delete id c.items r.items_distinct;
              count = omega (
                arith,
                length-delete id w c.items r.items_distinct (r.entries id ∙ hit),
                length-delete id w es r.distinct hit,
                r.count,
              );
            },
            refl,
          )
  ]
