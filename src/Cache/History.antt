-- ===== src/Cache/History.antt =====
-- cache.go, any sequence of calls: the limit and the agreement of the map with the order slice.
use mezon_sdk_go.Cache.Reads.{fetch_hit, fetch-none}
use mezon_sdk_go.Prelude.{
  length-delete-le, ℕ, ◌≤◌, ◌<◌, ◌≡◌, refl, sym, ◌∙◌, subst, ◌⊎◌, inl, inr, List, [], ◌∷◌, none,
  some, arith, is_some, Eq, Bool-cases, Option-cases, length, lookup, delete, pos,
}
use mezon_sdk_go.Errors.{Result, ok, err}
use mezon_sdk_go.Cache.{
  CacheManager, Fetcher, new_cache_manager, get, set, delete_key, fetch_result, fetch_miss, fetch,
}
use mezon_sdk_go.Cache.Fifo.{push, length-push}
use mezon_sdk_go.Cache.Refinement.{Represents, set-push, delete_key-delete}

-- What runs on the cache under its mutex, which another goroutine cannot come between.
pub data Call {ℓ} (K V : Type ℓ) : Type ℓ where
  sets : K → V → Call K V
  deletes gets : K → Call K V

-- A call of one goroutine, or a whole Fetch whose fetcher makes calls of the same cache, and others
-- do while it runs, before it answers or fails. Where two overlap, the later one is its Get, which
-- the former contains, and its Set.
pub data Step {ℓ} (K V : Type ℓ) : Type ℓ where
  calls : Call K V → Step K V
  fetches : K → List (Call K V) → Result V → Step K V

module _ {ℓ} {K V : Type ℓ} ⦃e : Eq K⦄ where
  pub one_call : CacheManager K V → Call K V → CacheManager K V
  one_call c (sets k v) = set c k v
  one_call c (deletes k) = (delete_key c k).0
  one_call c (gets k) = c

  pub run_calls : CacheManager K V → List (Call K V) → CacheManager K V
  run_calls c [] = c
  run_calls c (x ∷ xs) = run_calls (one_call c x) xs

  -- A fetcher that makes these calls.
  pub fetcher_of : List (Call K V) → Result V → Fetcher K V
  fetcher_of meanwhile r = some (λ d _. (run_calls d meanwhile, r))

  pub step : CacheManager K V → Step K V → CacheManager K V
  step c (calls x) = one_call c x
  step c (fetches k meanwhile r) = (fetch (fetcher_of meanwhile r) c k).0

  pub run : CacheManager K V → List (Step K V) → CacheManager K V
  run c [] = c
  run c (x ∷ xs) = run (step c x) xs

  -- The cache stands for a queue of at most `m` entries.
  pub record Holds (m : ℕ) (c : CacheManager K V) : Type ℓ where
    pub entries_of : List (K × V)
    pub represents : Represents c entries_of
    pub limit : c.max_size ≡ pos m
    pub within : length entries_of ≤ m

  set-Holds :
      (m : ℕ) (c : CacheManager K V) (k : K) (v : V) → 0 < m → Holds m c → Holds m (set c k v)
  set-Holds m c k v h r =
      let s = set-push c r.entries_of k v r.represents in
      record {
        entries_of = push c.max_size k v r.entries_of;
        represents = s.0;
        limit = s.1 ∙ r.limit;
        within =
            subst (λ l. length (push l k v r.entries_of) ≤ m) (sym r.limit)
              (length-push m k v r.entries_of h r.within);
      }

  delete_key-max_size : (c : CacheManager K V) (k : K) → (delete_key c k).0.max_size ≡ c.max_size
  unfolding delete_key
  delete_key-max_size c k = elim (Bool-cases (is_some (lookup k c.items))) [
    | inl hit ↦ rw hit
    | inr miss ↦ rw miss
  ]

  delete_key-Holds : (m : ℕ) (c : CacheManager K V) (k : K) → Holds m c → Holds m (delete_key c k).0
  delete_key-Holds m c k r = record {
    entries_of = delete k r.entries_of;
    represents = (delete_key-delete c r.entries_of k r.represents).0;
    limit = delete_key-max_size c k ∙ r.limit;
    within = omega (arith, length-delete-le k r.entries_of);
  }

  one_call-Holds :
      (m : ℕ) (c : CacheManager K V) (x : Call K V) → 0 < m → Holds m c → Holds m (one_call c x)
  unfolding one_call
  one_call-Holds m c (sets k v) h r = set-Holds m c k v h r
  one_call-Holds m c (deletes k) h r = delete_key-Holds m c k r
  one_call-Holds m c (gets k) h r = r

  run_calls-Holds :
      (m : ℕ) (c : CacheManager K V) (xs : List (Call K V))
      → 0 < m
      → Holds m c
      → Holds m (run_calls c xs)
  unfolding run_calls
  run_calls-Holds m c [] h r = r
  run_calls-Holds m c (x ∷ xs) h r =
      run_calls-Holds m (one_call c x) xs h (one_call-Holds m c x h r)

  fetch-Holds :
      (m : ℕ) (c : CacheManager K V) (k : K) (xs : List (Call K V)) (o : Result V)
      → 0 < m
      → Holds m c
      → (get c k ≡ none) ⊎ ((w : V) × (get c k ≡ some w))
      → Holds m (fetch (fetcher_of xs o) c k).0
  unfolding fetch_miss fetch_result fetcher_of
  fetch-Holds m c k xs o h r (inr (w, hit)) =
      subst (λ q. Holds m q.0) (sym (fetch_hit (fetcher_of xs o) c k w hit)) r
  fetch-Holds m c k xs (ok v) h r (inl miss) =
      subst (λ q. Holds m q.0) (sym (fetch-none (fetcher_of xs (ok v)) c k miss))
        (set-Holds m (run_calls c xs) k v h (run_calls-Holds m c xs h r))
  fetch-Holds m c k xs (err x) h r (inl miss) =
      subst (λ q. Holds m q.0) (sym (fetch-none (fetcher_of xs (err x)) c k miss))
        (run_calls-Holds m c xs h r)

  step-Holds :
      (m : ℕ) (c : CacheManager K V) (x : Step K V) → 0 < m → Holds m c → Holds m (step c x)
  unfolding step
  step-Holds m c (calls x) h r = one_call-Holds m c x h r
  step-Holds m c (fetches k xs o) h r = fetch-Holds m c k xs o h r (Option-cases (get c k))

  -- After any history of `Set`, `Delete`, `Get` and `Fetch`, where a fetcher, and other goroutines
  -- while it runs, make any calls of the same cache, a cache with a positive limit holds at most so
  -- many entries, each key once, and its map and its order slice agree, if they did at the start.
  pub run-Holds :
      (m : ℕ) (c : CacheManager K V) (xs : List (Step K V)) → 0 < m → Holds m c → Holds m (run c xs)
  unfolding run
  run-Holds m c [] h r = r
  run-Holds m c (x ∷ xs) h r = run-Holds m (step c x) xs h (step-Holds m c x h r)

  pub new_cache_manager-Holds : (m : ℕ) → Holds m (new_cache_manager (pos m))
  unfolding new_cache_manager
  new_cache_manager-Holds m = record {
    entries_of = [];
    represents = record {
      ordered = refl;
      entries = λ k. refl;
      distinct = tt;
      items_distinct = tt;
      count = refl;
    };
    limit = refl;
    within = omega arith;
  }
