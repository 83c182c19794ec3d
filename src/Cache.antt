-- ===== src/Cache.antt =====
-- cache.go: `CacheManager`, an insertion-ordered cache over a map and an order slice. The mutex
-- makes each method one step; a fetcher may itself call the cache, so it is given the state.
pub mod Fifo
pub mod Refinement
pub mod Views
pub mod Reads
pub mod History
pub mod Entries
use mezon_sdk_go.Prelude.{
  ℕ, Bool, true, false, ◌&&◌, List, [], ◌∷◌, ◌++◌, Option, none, some, ltb, leb, not, if◌then◌else◌,
  is_some, Eq, length, lookup, insert, delete, ℤ, pos, negsuc, map,
}
use mezon_sdk_go.Errors.{Error, err_not_found, Result, ok, err}

pub record CacheManager {ℓ} (K V : Type ℓ) : Type ℓ where
  pub items : List (K × V)
  pub order : List K
  pub max_size : ℤ

unfoldable pub new_cache_manager {ℓ} : {K V : Type ℓ} → ℤ → CacheManager K V
new_cache_manager max_size = record { items = []; order = []; max_size = max_size }

-- maxSize > 0 && n >= maxSize
abbrev pub at_limit : ℤ → ℕ → Bool
at_limit (pos m) n = ltb 0 m && leb m n
at_limit (negsuc m) n = false

abbrev pub or_zero {ℓ} : {V : Type ℓ} → V → Option V → V
or_zero zero_value none = zero_value
or_zero zero_value (some v) = v

-- The loop of `Delete` over `order`: the first occurrence goes.
unfoldable pub remove_key {ℓ} : {K : Type ℓ} ⦃e : Eq K⦄ → K → List K → List K
remove_key id [] = []
remove_key ⦃e⦄ id (k ∷ ks) = if e.beq k id then ks else k ∷ remove_key id ks

-- A fetcher, if there is one, may fail, and may change the cache before it returns.
abbrev pub Fetcher {ℓ} : (K V : Type ℓ) → Type ℓ
Fetcher K V = Option (CacheManager K V → K → CacheManager K V × Result V)

module _ {ℓ} {K V : Type ℓ} ⦃e : Eq K⦄ where
  -- A key that the map lacks gives the zero value.
  unfoldable pub values_of : V → List (K × V) → List K → List V
  values_of zero_value items [] = []
  values_of zero_value items (k ∷ ks) =
      or_zero zero_value (lookup k items) ∷ values_of zero_value items ks

  unfoldable pub get : CacheManager K V → K → Option V
  get c id = lookup id c.items

  -- The eviction of the oldest key: `order[0]`, `order[1:]` and `delete(items, oldest)`.
  unfoldable pub drop_oldest : CacheManager K V → List K → CacheManager K V
  drop_oldest c [] = c
  drop_oldest c (oldest ∷ rest) = record c { order = rest; items = delete oldest c.items }

  unfoldable pub make_room : CacheManager K V → CacheManager K V
  make_room c = if at_limit c.max_size (length c.items) then drop_oldest c c.order else c

  unfoldable pub append_key : K → CacheManager K V → CacheManager K V
  append_key id c = record c { order = c.order ++ id ∷ [] }

  unfoldable pub store : K → V → CacheManager K V → CacheManager K V
  store id value c = record c { items = insert id value c.items }

  unfoldable pub set : CacheManager K V → K → V → CacheManager K V
  set c id value =
      if is_some (lookup id c.items)
      then store id value c
      else store id value (append_key id (make_room c))

  unfoldable pub delete_key : CacheManager K V → K → CacheManager K V × Bool
  delete_key c id =
      if is_some (lookup id c.items)
      then (record c { items = delete id c.items; order = remove_key id c.order }, true)
      else (c, false)

  unfoldable pub values : V → CacheManager K V → List V
  values zero_value c = values_of zero_value c.items c.order

  unfoldable pub size : CacheManager K V → ℕ
  size c = length c.items

  unfoldable pub fetch_result : K → CacheManager K V × Result V → CacheManager K V × Result V
  fetch_result id (c, ok v) = (set c id v, ok v)
  fetch_result id (c, err x) = (c, err x)

  unfoldable pub fetch_miss : Fetcher K V → CacheManager K V → K → CacheManager K V × Result V
  fetch_miss none c id = (c, err err_not_found)
  fetch_miss (some fetcher) c id = fetch_result id (fetcher c id)

  unfoldable pub fetch : Fetcher K V → CacheManager K V → K → CacheManager K V × Result V
  fetch fetcher c id = elim (get c id) [ some v ↦ (c, ok v) | none ↦ fetch_miss fetcher c id ]
