-- ===== src/RedisStore.antt =====
-- redisstore/redis.go: SharedStore on a Redis client, whose keys all get one prefix. The Redis
-- client is a parameter; redis.Nil is its own reply.
pub mod Lawful
use mezon_sdk_go.Prelude.{ℤ, pos, negsuc, List, [], ◌∷◌, ◌++◌, Option, none, some, Bytes}
use mezon_sdk_go.Errors.{Error, Result, ok, err}
use mezon_sdk_go.Client.{SharedStore}

pub data Reply : Type 0 where
  nil_reply : Reply
  bytes_reply : Bytes → Reply
  failed : Error → Reply

pub record UniversalClient (S : Type 0) : Type 0 where
  pub get : S → Bytes → Reply
  pub set : S → Bytes → Bytes → ℤ → S × Option Error
  pub del : S → Bytes → S × Option Error

pub record Store (S : Type 0) : Type 0 where
  pub client : UniversalClient S
  pub prefix : Bytes

module _ {S : Type 0} where
  unfoldable pub with_prefix : Bytes → Store S → Store S
  with_prefix prefix s = record s { prefix = prefix }

  unfoldable pub configure : List (Store S → Store S) → Store S → Store S
  configure [] s = s
  configure (opt ∷ opts) s = configure opts (opt s)

  -- New
  unfoldable pub new_store : UniversalClient S → List (Store S → Store S) → Store S
  new_store client opts = configure opts (record { client = client; prefix = [] })

-- A TTL below zero becomes zero, which never expires.
unfoldable pub ttl_of : ℤ → ℤ
ttl_of (pos n) = pos n
ttl_of (negsuc n) = pos 0

unfoldable pub get_reply : Reply → Result (Option Bytes)
get_reply nil_reply = ok none
get_reply (bytes_reply b) = ok (some b)
get_reply (failed e) = err e

module _ {S : Type 0} (s : Store S) where
  unfoldable pub get : S → Bytes → Result (Option Bytes)
  get state key = get_reply (s.client.get state (s.prefix ++ key))

  unfoldable pub set : S → Bytes → Bytes → ℤ → S × Option Error
  set state key value ttl = s.client.set state (s.prefix ++ key) value (ttl_of ttl)

  unfoldable pub delete : S → Bytes → S × Option Error
  delete state key = s.client.del state (s.prefix ++ key)

  -- Store satisfies the interface.
  unfoldable pub shared_store : SharedStore S
  unfolding get set delete
  shared_store = record { get = get; set = set; delete = delete }
