-- ===== src/Client.antt =====
-- client.go and sharedcache.go: the state of a client and the store that it shares with other bots.
-- Objects live in heaps, one for each type, and `fresh` is the next address. The client has
-- logged in, so that its REST client, socket and channel manager are there.
pub mod Shared
pub mod Heap
pub mod Wiring
pub mod Identity
pub mod Lookup
pub mod Layers
pub mod Fetched
pub mod Clans
pub mod Merged
pub mod Requests
pub mod Connect
pub mod Events
pub mod Dm
pub mod Messages
pub mod Users
pub mod Sent
pub mod Reconnect
pub mod Login
use mezon_sdk_go.Prelude.{
  ℕ, suc, ℤ, List, [], ◌∷◌, ◌++◌, Option, none, some, Bool, Bytes, codes, lookup, insert, nat_eq,
}
use mezon_sdk_go.Errors.{Error, Result, ok, err}
use mezon_sdk_go.Cache.{CacheManager}
use mezon_sdk_go.Rest.{MezonApi, Target}
use mezon_sdk_go.Rest.Endpoints.{ApiRequest}
use mezon_sdk_go.Entities.{Address, Message, TextChannel, Clan, User, ChannelDescription}

-- The interface SharedStore over the store's own state: a miss is `ok none`.
pub record SharedStore (S : Type 0) : Type 0 where
  pub get : S → Bytes → Result (Option Bytes)
  pub set : S → Bytes → Bytes → ℤ → S × Option Error
  pub delete : S → Bytes → S × Option Error

pub record UserDto : Type 0 where
  pub id : Bytes
  pub dm_channel_id : Bytes

-- api.CreateChannelDescRequest
pub record CreateChannelDescRequest : Type 0 where
  pub clan_id : ℤ
  pub parent_id : ℤ
  pub channel_id : ℤ
  pub category_id : ℤ
  pub type : ℤ
  pub channel_label : Bytes
  pub channel_private : ℤ
  pub user_ids : List ℤ

-- api.ChangeChannelPrivateRequest
pub record ChangeChannelPrivateRequest : Type 0 where
  pub clan_id : ℤ
  pub channel_id : ℤ
  pub channel_private : ℤ
  pub role_ids : List ℤ
  pub user_ids : List ℤ

-- The request messages that the client fills, and others that its user does.
pub data Filled : Type 0 where
  create_channel_desc_request : CreateChannelDescRequest → Filled
  change_channel_private_request : ChangeChannelPrivateRequest → Filled
  add_role_channel_desc_request : ℤ → List ℤ → Filled
  other_request : ℕ → Filled

-- What the client is given, and the libraries that it calls: the optional shared store, and the
-- protobuf and JSON encodings.
pub record Setting (S : Type 0) : Type 0 where
  pub store : Option (SharedStore S)
  pub cache_ttl : ℤ
  pub encode_desc : ChannelDescription → Result Bytes
  pub decode_desc : Bytes → Result ChannelDescription
  pub encode_user : UserDto → Result Bytes
  pub decode_user : Bytes → Result UserDto
  pub marshal : ApiRequest Filled → Result Bytes
  pub desc_target : Target ChannelDescription
  pub desc_list_target : Target (List ChannelDescription)

-- `session` is the session's token; `l2` the state of the shared store.
pub record Client (S : Type 0) : Type 0 where
  pub client_id : Bytes
  pub api : MezonApi
  pub session : Option Bytes
  pub clans : CacheManager Bytes Address
  pub channels : CacheManager Bytes Address
  pub users : CacheManager Bytes Address
  pub clan_heap : List (Address × Clan)
  pub channel_heap : List (Address × TextChannel)
  pub user_heap : List (Address × User)
  pub message_heap : List (Address × Message)
  pub fresh : Address
  pub dm_by_user : List (Bytes × Bytes)
  pub dm_descs : List ChannelDescription
  pub l2 : S

-- A write to a field of the object at an address.
unfoldable pub modify : {V : Type 0} → Address → (V → V) → List (Address × V) → List (Address × V)
modify p f heap = elim (lookup p heap) [ none ↦ heap | some v ↦ insert p (f v) heap ]

unfoldable pub l2_channel_prefix : Bytes
l2_channel_prefix = codes "mezon:ch:"

unfoldable pub l2_user_prefix : Bytes
l2_user_prefix = codes "mezon:user:"

unfoldable pub hit_of : Result (Option Bytes) → Option Bytes
hit_of (err e) = none
hit_of (ok hit) = hit

module _ {S : Type 0} where
  unfoldable pub l2_get : Setting S → Bytes → Client S → Option Bytes
  l2_get env key c = elim env.store [ none ↦ none | some store ↦ hit_of (store.get c.l2 key) ]

  -- An error is logged, and else ignored.
  unfoldable pub l2_set : Setting S → Bytes → Bytes → Client S → Client S
  l2_set env key value c = elim env.store [
    | none ↦ c
    | some store ↦ record c { l2 = (store.set c.l2 key value env.cache_ttl).0 }
  ]

  unfoldable pub l2_delete : Setting S → Bytes → Client S → Client S
  l2_delete env key c = elim env.store [
    | none ↦ c
    | some store ↦ record c { l2 = (store.delete c.l2 key).0 }
  ]
