-- ===== src/Tests/Caches.antt =====
-- cache.go on a small cache.
use mezon_sdk_go.Prelude.{
  ℕ, ◌≡◌, refl, List, [], ◌∷◌, none, some, arith, pos, lookup, nat_eq, codes,
}
use mezon_sdk_go.Errors.{Result, ok, err, err_text}
use mezon_sdk_go.Cache.{
  CacheManager, new_cache_manager, Fetcher, get, set, fetch_result, fetch_miss, fetch,
}
use mezon_sdk_go.Cache.Fifo.{push, drop_first}
use mezon_sdk_go.Cache.Refinement.{Represents, set-push}
use mezon_sdk_go.Cache.History.{
  calls, sets, deletes, fetches, run, Holds, run-Holds, new_cache_manager-Holds,
}

-- At its limit of two.
abbrev full : CacheManager ℕ ℕ
full = record { items = (1, 10) ∷ (2, 20) ∷ []; order = 1 ∷ 2 ∷ []; max_size = pos 2 }

abbrev entries : List (ℕ × ℕ)
entries = (1, 10) ∷ (2, 20) ∷ []

full-Represents : Represents full entries
unfolding lookup
full-Represents = record {
  ordered = refl;
  entries = λ k. refl;
  distinct = (refl, (refl, (tt)));
  items_distinct = (refl, (refl, (tt)));
  count = refl;
}

set-push_example :
    Represents (set full 3 30) ((2, 20) ∷ (3, 30) ∷ []) × ((set full 3 30).max_size ≡ pos 2)
unfolding push lookup drop_first
set-push_example = set-push full entries 3 30 full-Represents

abbrev failing : CacheManager ℕ ℕ → ℕ → CacheManager ℕ ℕ × Result ℕ
failing c k = (c, err (err_text (codes "no")))

abbrev answering : Fetcher ℕ ℕ
answering = some (λ c k. (c, ok 30))

fetched : fetch answering full 3 ≡ (set full 3 30, ok 30)
unfolding fetch fetch_miss fetch_result get lookup
fetched = refl

missing : get full 3 ≡ none
unfolding get lookup
missing = refl

run-Holds_example : Holds {K = ℕ} {V = ℕ} 2 (
    run (new_cache_manager (pos 2)) (
      calls (sets 1 10)
      ∷ calls (sets 2 20)
      ∷ calls (deletes 2)
      ∷ fetches 4 (sets 4 5 ∷ deletes 1 ∷ []) (ok 40)
      ∷ []))
run-Holds_example =
    run-Holds 2 (new_cache_manager (pos 2))
      (calls (sets 1 10)
        ∷ calls (sets 2 20)
        ∷ calls (deletes 2)
        ∷ fetches 4 (sets 4 5 ∷ deletes 1 ∷ []) (ok 40)
        ∷ [])
      (omega arith) (new_cache_manager-Holds 2)
