-- ===== src/RedisStore/Lawful.antt =====
-- redisstore/redis.go: on a Redis that keeps what it takes, the store is one that the client
-- expects.
use mezon_sdk_go.Prelude.{
  ℕ, ℤ, pos, negsuc, ◌≡◌, ◌≢◌, refl, sym, subst, ap, some, [], ◌∷◌, ◌++◌, none, Bytes,
}
use mezon_sdk_go.Errors.{ok}
use mezon_sdk_go.Client.Lookup.{IsLawful}
use mezon_sdk_go.RedisStore.{
  nil_reply, bytes_reply, UniversalClient, Store, ttl_of, get_reply, get, set, delete, shared_store,
}

-- What Redis promises of GET, DEL and of SET with an expiry, or none, which is 0. It promises
-- nothing of a negative expiry, which the Redis client takes for other options.
pub record KeepsKeys {S : Type 0} (client : UniversalClient S) : Type 0 where
  pub get-set :
      (state : S) (key value : Bytes) (expiry : ℕ)
      → (client.set state key value (pos expiry)).1 ≡ none
      → client.get (client.set state key value (pos expiry)).0 key ≡ bytes_reply value
  pub get-set_other :
      (state : S) (key j value : Bytes) (expiry : ℕ)
      → key ≢ j
      → client.get (client.set state key value (pos expiry)).0 j ≡ client.get state j
  pub get-del :
      (state : S) (key : Bytes)
      → (client.del state key).1 ≡ none
      → client.get (client.del state key).0 key ≡ nil_reply

append_cancel : (p key j : Bytes) → p ++ key ≡ p ++ j → key ≡ j
append_cancel [] key j h = h
append_cancel (c ∷ p) key j h = append_cancel p key j (cc)

-- The expiry that reaches Redis is never negative.
abbrev expiry_of : ℤ → ℕ
expiry_of (pos n) = n
expiry_of (negsuc n) = 0

ttl_of-pos : (ttl : ℤ) → ttl_of ttl ≡ pos (expiry_of ttl)
unfolding ttl_of
ttl_of-pos (pos n) = refl
ttl_of-pos (negsuc n) = refl

-- On a Redis that keeps its keys under every expiry that is not negative, the store with any prefix
-- is lawful for every TTL, the negative ones included: what was set without an error is read back,
-- other keys are as they were, and a deleted key is a miss.
pub shared_store-IsLawful :
    {S : Type 0} (s : Store S) → KeepsKeys s.client → IsLawful (shared_store s)
unfolding shared_store get set delete get_reply
shared_store-IsLawful s keeps = record {
  get-set = λ state key value ttl.
      subst
        (λ t.
          (s.client.set state (s.prefix ++ key) value t).1 ≡ none
          → get_reply
              (s.client.get (s.client.set state (s.prefix ++ key) value t).0 (s.prefix ++ key))
            ≡ ok (some value))
        (sym (ttl_of-pos ttl))
        (λ accepted.
          ap get_reply (keeps.get-set state (s.prefix ++ key) value (expiry_of ttl) accepted));
  get-set_other = λ state key j value ttl different.
      subst
        (λ t.
          get_reply (s.client.get (s.client.set state (s.prefix ++ key) value t).0 (s.prefix ++ j))
          ≡ get_reply (s.client.get state (s.prefix ++ j)))
        (sym (ttl_of-pos ttl))
        (ap get_reply (
          keeps.get-set_other state (s.prefix ++ key) (s.prefix ++ j) value (expiry_of ttl)
            (λ e. different (append_cancel s.prefix key j e))));
  get-delete = λ state key accepted. ap get_reply (keeps.get-del state (s.prefix ++ key) accepted);
}
