-- ===== src/Client/Events.antt =====
-- client_internal.go and messagestore.go: the handlers that keep the caches, and the message store.
-- The requests of one handler meet different networks, which are given apart.
pub mod Deleted
use mezon_sdk_go.Prelude.{
  ℕ, zero, suc, ℤ, pos, negsuc, List, [], ◌∷◌, ◌++◌, Option, none, some, Bool, true, false, not,
  ◌&&◌, if◌then◌else◌, Bytes, codes, lookup, insert, nat_eq, bytes_eq, same_bytes,
}
use mezon_sdk_go.Errors.{Error, err_not_found, Result, ok, err}
use mezon_sdk_go.Types.{itoa_id}
use mezon_sdk_go.Cache.{get, set, delete_key}
use mezon_sdk_go.Inbound.Fields.{ChannelMessage}
use mezon_sdk_go.Rest.Call.{Net}
use mezon_sdk_go.Entities.{Address, Message, TextChannel, Clan, User, or_string}
use mezon_sdk_go.Entities.Messages.{new_message_from_channel_message, is_set}
use mezon_sdk_go.Client.{Client, Setting, modify, l2_channel_prefix, l2_delete}
use mezon_sdk_go.Client.Shared.{channels_fetch}
use mezon_sdk_go.Client.Clans.{load_channels, drop_clan_channel}
use mezon_sdk_go.Client.Dm.{add_user}
use mezon_sdk_go.Client.Messages.{set_message, allocate_message, cache_identified}

-- The interface MessageStore over the store's own state.
pub record MessageStore (D : Type 0) : Type 0 where
  pub save_message : D → ChannelMessage → D × Option Error
  pub get_message_by_id : D → Bytes → Bytes → Bytes → Result (Option ChannelMessage)

unfoldable pub save_inbound : {D : Type 0} → Option (MessageStore D) → ChannelMessage → D → D
save_inbound none e d = d
save_inbound (some db) e d = (db.save_message d e).0

unfoldable pub loaded_message : Address → Result (Option ChannelMessage) → Result Message
loaded_message q (err e) = err err_not_found
loaded_message q (ok none) = err err_not_found
loaded_message q (ok (some cm)) = ok (new_message_from_channel_message cm q)

-- loadMessageFromStore, of the channel `ch` at the address `q` in the clan.
unfoldable pub load_message_from_store :
    {D : Type 0}
    → Option (MessageStore D)
    → D
    → Address
    → TextChannel
    → Clan
    → Bytes
    → Result Message
load_message_from_store none d q ch clan message_id = err err_not_found
load_message_from_store (some db) d q ch clan message_id =
    loaded_message q (db.get_message_by_id d message_id ch.id clan.id)

-- What an inbound message changes of its sender, if the user is cached.
unfoldable pub renamed_user : ChannelMessage → Bytes → User → User
renamed_user e dm_id u = record u {
  username = or_string e.username u.username;
  clan_nick = or_string e.clan_nick u.clan_nick;
  clan_avatar = or_string e.clan_avatar u.clan_avatar;
  display_name = or_string e.display_name u.display_name;
  avatar = or_string e.avatar u.avatar;
  dm_channel_id = or_string dm_id u.dm_channel_id;
}

unfoldable pub user_of_message : ChannelMessage → Bytes → User
user_of_message e dm_id = record {
  id = e.sender_id;
  username = e.username;
  clan_nick = e.clan_nick;
  clan_avatar = e.clan_avatar;
  display_name = e.display_name;
  avatar = e.avatar;
  dm_channel_id = dm_id;
}

-- A missing key of a Go map gives the zero value.
unfoldable pub text_or_empty : Option Bytes → Bytes
text_or_empty none = []
text_or_empty (some text) = text

-- ClanID != "" && ClanID != "0"
unfoldable pub names_clan : Bytes → Bool
names_clan clan_id = is_set clan_id && not (same_bytes clan_id (codes "0"))

module _ {S : Type 0} where
  unfoldable pub load_known_clan : Setting S → Net → Option Address → Client S → Client S
  load_known_clan env net none c = c
  load_known_clan env net (some p) c = (load_channels env net p c).0

  unfoldable pub load_message_clan : Setting S → Net → ChannelMessage → Client S → Client S
  load_message_clan env net e c =
      if names_clan e.clan_id then load_known_clan env net (get c.clans e.clan_id) c else c

  -- Into the cache of the channel that was fetched, unless the message has no id.
  unfoldable pub cache_message : ChannelMessage → Client S × Result Address → Client S
  cache_message e (c, err x) = c
  cache_message e (c, ok q) =
      if is_set e.message_id
      then cache_identified q e.message_id c.fresh
          (allocate_message (new_message_from_channel_message e q) c)
      else c

  -- cacheChannelMessage, after the message was saved.
  unfoldable pub cache_channel_message :
      Setting S → Net → Net → ChannelMessage → Client S → Client S
  cache_channel_message env clan_net channel_net e c =
      let loaded = load_message_clan env clan_net e c in
      cache_message e (channels_fetch env channel_net e.channel_id loaded)

  unfoldable pub cache_sender : ChannelMessage → Bytes → Option Address → Client S → Client S
  cache_sender e dm_id (some u) c = record c {
    user_heap = modify u (renamed_user e dm_id) c.user_heap;
  }
  cache_sender e dm_id none c = (add_user e.sender_id (user_of_message e dm_id) c).0

  unfoldable pub cache_user_from_message : ChannelMessage → Client S → Client S
  cache_user_from_message e c =
      if is_set e.sender_id
      then cache_sender e (text_or_empty (lookup e.sender_id c.dm_by_user))
          (get c.users e.sender_id) c
      else c

  -- The handler of EventChannelMessage.
  unfoldable pub on_channel_message :
      {D : Type 0}
      → Setting S
      → Option (MessageStore D)
      → Net
      → Net
      → ChannelMessage
      → Client S × D
      → Client S × D
  on_channel_message env db clan_net channel_net e (c, d) = (
    cache_user_from_message e (cache_channel_message env clan_net channel_net e c),
    save_inbound db e d,
  )

  unfoldable pub evict_from_clan : Option Address → Bytes → Client S → Client S
  evict_from_clan none id c = c
  evict_from_clan (some p) id c = record c {
    clan_heap = modify p (drop_clan_channel id) c.clan_heap;
  }

  -- The handlers of EventChannelDeleted and EventChannelUpdated, which do the same.
  unfoldable pub on_channel_gone : Setting S → ℤ → ℤ → Client S → Client S
  on_channel_gone env clan channel c =
      let id = itoa_id channel in
      let after =
        l2_delete env (l2_channel_prefix ++ id)
          (record c { channels = (delete_key c.channels id).0 }) in
      evict_from_clan (get after.clans (itoa_id clan)) id after
