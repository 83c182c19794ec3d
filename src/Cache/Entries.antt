-- ===== src/Cache/Entries.antt =====
-- cache.go: what an entry of the cache may be after a Set or a Delete, of any cache.
use mezon_sdk_go.Prelude.{
  ◌≡◌, refl, sym, ◌∙◌, ◌≢◌, ◌⊎◌, inl, inr, List, [], ◌∷◌, some, arith, if◌then◌else◌, is_some, Eq,
  beq_refl, Bool-cases, lookup, length, lookup-insert, lookup-delete,
}
use mezon_sdk_go.Cache.{
  CacheManager, get, drop_oldest, make_room, at_limit, append_key, store, set, delete_key,
}

module _ {ℓ} {K V : Type ℓ} ⦃e : Eq K⦄ where
  drop_oldest-get :
      (c : CacheManager K V) (order : List K) (k : K) {w : V}
      → get (drop_oldest c order) k ≡ some w
      → get c k ≡ some w
  unfolding get drop_oldest
  drop_oldest-get c [] k h = h
  drop_oldest-get c (oldest ∷ rest) k h = ground (arith, lookup-delete oldest k c.items)

  make_room-get :
      (c : CacheManager K V) (k : K) {w : V} → get (make_room c) k ≡ some w → get c k ≡ some w
  unfolding make_room
  make_room-get c k h = elim (Bool-cases (at_limit c.max_size (length c.items))) [
    | inl full ↦ drop_oldest-get c c.order k (rw (full, make_room) at h)
    | inr room ↦ rw (room, make_room) at h
  ]

  store_get :
      (c : CacheManager K V) (id k : K) (v : V)
      → get (store id v c) k ≡ (if e.beq id k then some v else get c k)
  unfolding get store
  store_get c id k v = lookup-insert id k v c.items

  -- After a Set the key has the value.
  pub get-set_self : (c : CacheManager K V) (id : K) (v : V) → get (set c id v) id ≡ some v
  unfolding set
  get-set_self c id v = elim (Bool-cases (is_some (lookup id c.items))) [
    | inl old ↦ rw old (store_get c id id v ∙ rw (beq_refl id) refl)
    | inr new ↦ rw new (store_get (append_key id (make_room c)) id id v ∙ rw (beq_refl id) refl)
  ]

  append_key-get : (id k : K) (c : CacheManager K V) → get (append_key id c) k ≡ get c k
  unfolding get append_key
  append_key-get id k c = refl

  store_cases :
      (c : CacheManager K V) (id k : K) (v : V) {w : V}
      → get (store id v c) k ≡ some w
      → ((id ≡ k) × (v ≡ w)) ⊎ (get c k ≡ some w)
  store_cases c id k v h = ground (arith, e.beq_iff id k, store_get c id k v)

  -- An entry after a Set is the new one, or stood there before.
  pub get-set_cases :
      (c : CacheManager K V) (id k : K) (v : V) {w : V}
      → get (set c id v) k ≡ some w
      → ((id ≡ k) × (v ≡ w)) ⊎ (get c k ≡ some w)
  unfolding set
  get-set_cases c id k v {w} h = elim (Bool-cases (is_some (lookup id c.items))) [
    | inl old ↦ store_cases c id k v (rw (old, set) at h)
    | inr new ↦ elim (store_cases (append_key id (make_room c)) id k v (rw (new, set) at h)) [
      | inl now ↦ inl now
      | inr before ↦ inr (make_room-get c k (sym (append_key-get id k (make_room c)) ∙ before))
    ]
  ]

  -- An entry after a Delete stood there before, under another key.
  pub get-delete_key :
      (c : CacheManager K V) (id k : K) {w : V}
      → get (delete_key c id).0 k ≡ some w
      → (id ≢ k) × (get c k ≡ some w)
  unfolding get delete_key
  get-delete_key c id k h = ground (arith, e.beq_iff id k, lookup-delete id k c.items)
