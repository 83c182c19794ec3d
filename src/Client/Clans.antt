-- ===== src/Client/Clans.antt =====
-- clan.go: the channels of a clan. A clan is its address; a clan that is not there does nothing.
use mezon_sdk_go.Prelude.{
  zero, suc, ℤ, pos, negsuc, List, [], ◌∷◌, map, Option, none, some, Bool, true, false,
  if◌then◌else◌, Bytes, codes, lookup, nat_eq, bytes_eq,
}
use mezon_sdk_go.Errors.{Error, err_text, Result, ok, err}
use mezon_sdk_go.Types.{atoi_id, itoa_id}
use mezon_sdk_go.Prelude.{int32_of}
use mezon_sdk_go.Cache.{delete_key}
use mezon_sdk_go.Rest.{MezonApi}
use mezon_sdk_go.Rest.Call.{Net}
use mezon_sdk_go.Rest.Endpoints.{list_channel_descs, create_channel_desc, delete_channel_desc}
use mezon_sdk_go.Entities.{Address, Clan, ChannelDescription, is_zero}
use mezon_sdk_go.Entities.Channels.{new_text_channel}
use mezon_sdk_go.Client.{
  Client, Setting, modify, CreateChannelDescRequest, create_channel_desc_request,
}
use mezon_sdk_go.Client.Shared.{upsert_channel, register_channel, allocate_channel}

-- `channelsLoaded = true`
unfoldable pub mark_loaded : Clan → Clan
mark_loaded clan = record clan { channels_loaded = true }

unfoldable pub drop_clan_channel : Bytes → Clan → Clan
drop_clan_channel id clan = record clan { channels = (delete_key clan.channels id).0 }

module _ {S : Type 0} where
  unfoldable pub with_api : MezonApi → Client S → Client S
  with_api a c = record c { api = a }

  -- The loop over the listed channels.
  unfoldable pub merge_channels : Address → List ChannelDescription → Client S → Client S
  merge_channels p [] c = c
  merge_channels p (ch ∷ chs) c =
      merge_channels p chs (if is_zero ch.channel_id then c else (upsert_channel p ch c).0)

  unfoldable pub mark_clan_loaded : Address → Client S → Client S
  mark_clan_loaded p c = record c { clan_heap = modify p mark_loaded c.clan_heap }

  unfoldable pub merge_listed :
      Address → Result (List ChannelDescription) → Client S → Client S × Option Error
  merge_listed p (err e) c = (c, some e)
  merge_listed p (ok chs) c = (mark_clan_loaded p (merge_channels p chs c), none)

  unfoldable pub reload_clan : Setting S → Net → Address → Clan → Client S → Client S × Option Error
  reload_clan env net p clan c =
      let r =
        list_channel_descs net env.marshal env.desc_list_target clan.session_token (pos 1) clan.id
          (pos 0) (pos 0) [] false c.api in
      merge_listed p r.1 (with_api r.0 c)

  unfoldable pub reload_channels : Setting S → Net → Address → Client S → Client S × Option Error
  reload_channels env net p c = elim (lookup p c.clan_heap) [
    | none ↦ (c, none)
    | some clan ↦ reload_clan env net p clan c
  ]

  unfoldable pub load_clan : Setting S → Net → Address → Clan → Client S → Client S × Option Error
  load_clan env net p clan c =
      if clan.channels_loaded then (c, none) else reload_clan env net p clan c

  unfoldable pub load_channels : Setting S → Net → Address → Client S → Client S × Option Error
  load_channels env net p c = elim (lookup p c.clan_heap) [
    | none ↦ (c, none)
    | some clan ↦ load_clan env net p clan c
  ]

  -- Out of the cache of the clan and that of the client.
  unfoldable pub evict_channel : Address → Bytes → Client S → Client S
  evict_channel p id c = record c {
    clan_heap = modify p (drop_clan_channel id) c.clan_heap;
    channels = (delete_key c.channels id).0;
  }

  unfoldable pub evict_deleted :
      Address → Bytes → Result (Unit {0}) → Client S → Client S × Option Error
  evict_deleted p id (err e) c = (c, some e)
  evict_deleted p id (ok u) c = (evict_channel p id c, none)

  unfoldable pub delete_channel :
      Setting S → Net → Address → Clan → Bytes → Client S → Client S × Option Error
  delete_channel env net p clan id c =
      let r = delete_channel_desc net env.marshal clan.session_token clan.id id c.api in
      evict_deleted p id r.1 (with_api r.0 c)

  -- CreateChannel always makes a new object.
  unfoldable pub cache_created :
      Address → Result ChannelDescription → Client S → Client S × Result ChannelDescription
  cache_created p (err e) c = (c, err e)
  cache_created p (ok ch) c = (
    register_channel p (itoa_id ch.channel_id) c.fresh (allocate_channel (new_text_channel ch p) c),
    ok ch,
  )

pub record CreateChannelData : Type 0 where
  pub label : Bytes
  pub type : ℤ
  pub private : Bool
  pub category_id : Bytes
  pub user_ids : List Bytes
  pub parent_id : Bytes

-- A type that is zero stands for ChannelTypeChannel.
unfoldable pub channel_type_or : ℤ → ℤ
channel_type_or (pos zero) = pos 1
channel_type_or (pos (suc n)) = pos (suc n)
channel_type_or (negsuc n) = negsuc n

unfoldable pub flag : Bool → ℤ
flag true = pos 1
flag false = pos 0

unfoldable pub creation_of : Bytes → CreateChannelData → CreateChannelDescRequest
creation_of clan_id d = record {
  clan_id = atoi_id clan_id;
  parent_id = atoi_id d.parent_id;
  channel_id = pos 0;
  category_id = atoi_id d.category_id;
  type = int32_of (channel_type_or d.type);
  channel_label = d.label;
  channel_private = flag d.private;
  user_ids = map atoi_id d.user_ids;
}

module _ {S : Type 0} where
  unfoldable pub create_labelled :
      Setting S
      → Net
      → Address
      → Clan
      → CreateChannelData
      → Bytes
      → Client S
      → Client S × Result ChannelDescription
  create_labelled env net p clan d [] c =
      (c, err (err_text (codes "mezon: channel label is required")))
  create_labelled env net p clan d (l ∷ label) c =
      let r =
        create_channel_desc net env.marshal env.desc_target clan.session_token
          (create_channel_desc_request (creation_of clan.id d)) c.api in
      cache_created p r.1 (with_api r.0 c)

  unfoldable pub create_channel :
      Setting S
      → Net
      → Address
      → Clan
      → CreateChannelData
      → Client S
      → Client S × Result ChannelDescription
  create_channel env net p clan d c = create_labelled env net p clan d d.label c
