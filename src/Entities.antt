-- ===== src/Entities.antt =====
-- channel.go, message.go, clan.go, user.go: the objects that a client shares out. They are cells of
-- the client's heap and refer to one another by address; every object of a client has the client's
-- socket and queue. `CreateTime` and `UpdateTime` of a message are never set.
pub mod Channels
pub mod Messages
use mezon_sdk_go.Prelude.{
  ℕ, zero, suc, ℤ, pos, negsuc, List, [], ◌∷◌, Option, none, some, Bool, true, false, Bytes,
}
use mezon_sdk_go.Cache.{CacheManager}
use mezon_sdk_go.Types.{Mention, Attachment, MessageRef}
use mezon_sdk_go.Inbound.{Reaction}

abbrev pub Address : Type 0
Address = ℕ

pub record Message : Type 0 where
  pub id : Bytes
  pub clan_id : Bytes
  pub channel_id : Bytes
  pub sender_id : Bytes
  pub content : Bytes
  pub mentions : List Mention
  pub attachments : List Attachment
  pub references : List MessageRef
  pub reactions : List Reaction
  pub topic_id : Bytes
  pub create_time_seconds : ℕ
  pub update_time_seconds : ℕ
  pub code : ℤ
  pub username : Bytes
  pub persistent : Bool
  pub mode : ℤ
  pub channel : Address

pub record TextChannel : Type 0 where
  pub id : Bytes
  pub name : Bytes
  pub is_private : Bool
  pub channel_type : ℤ
  pub category_id : Bytes
  pub category_name : Bytes
  pub parent_id : Bytes
  pub meeting_code : Bytes
  pub clan : Address
  pub messages : CacheManager Bytes Address

pub record Clan : Type 0 where
  pub id : Bytes
  pub name : Bytes
  pub welcome_channel_id : Bytes
  pub clan_name : Bytes
  pub channels : CacheManager Bytes Address
  pub session_token : Bytes
  pub client_id : Bytes
  pub channels_loaded : Bool

pub record User : Type 0 where
  pub id : Bytes
  pub username : Bytes
  pub clan_nick : Bytes
  pub clan_avatar : Bytes
  pub display_name : Bytes
  pub avatar : Bytes
  pub dm_channel_id : Bytes

-- The fields of api.ChannelDescription that are read. The type and the private flag are int32.
pub record ChannelDescription : Type 0 where
  pub clan_id : ℤ
  pub parent_id : ℤ
  pub channel_id : ℤ
  pub category_id : ℤ
  pub category_name : Bytes
  pub type : ℤ
  pub channel_label : Bytes
  pub channel_private : ℤ
  pub user_ids : List ℤ
  pub meeting_code : Bytes

unfoldable pub is_zero : ℤ → Bool
is_zero (pos zero) = true
is_zero (pos (suc n)) = false
is_zero (negsuc n) = false

unfoldable pub or_string : Bytes → Bytes → Bytes
or_string [] fallback = fallback
or_string (c ∷ v) fallback = c ∷ v

unfoldable pub first_non_empty : List Bytes → Bytes
first_non_empty [] = []
first_non_empty (v ∷ vals) = or_string v (first_non_empty vals)
