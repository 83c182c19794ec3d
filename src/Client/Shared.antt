-- ===== src/Client/Shared.antt =====
-- sharedcache.go: channels looked up through the shared store, and channels built.
use mezon_sdk_go.Prelude.{
  suc, List, [], ◌∷◌, ◌++◌, Option, none, some, if◌then◌else◌, Bytes, codes, lookup, insert, nat_eq,
  bytes_eq,
}
use mezon_sdk_go.Errors.{Error, err_not_found, err_text, Result, ok, err}
use mezon_sdk_go.Cache.{get, set}
use mezon_sdk_go.Types.{itoa_id}
use mezon_sdk_go.Rest.Call.{Net}
use mezon_sdk_go.Rest.Endpoints.{list_channel_detail}
use mezon_sdk_go.Entities.{Address, TextChannel, Clan, ChannelDescription, is_zero}
use mezon_sdk_go.Entities.Channels.{update_from_desc, new_text_channel, new_clan}
use mezon_sdk_go.Client.{Client, Setting, modify, l2_channel_prefix, l2_get, l2_set}

unfoldable pub set_clan_channel : Bytes → Address → Clan → Clan
set_clan_channel id q clan = record clan { channels = set clan.channels id q }

unfoldable pub token_of : Option Bytes → Bytes
token_of none = []
token_of (some token) = token

unfoldable pub decoded_or_none {ℓ} : {A : Type ℓ} → Result A → Option A
decoded_or_none (err e) = none
decoded_or_none (ok a) = some a

unfoldable pub invalid_detail : Bytes → Error
invalid_detail id = err_text (codes "invalid channel detail response for " ++ id)

module _ {S : Type 0} where
  -- The cached channel of the clan at `p`: none for a clan that is not there.
  unfoldable pub clan_channel : Address → Bytes → Client S → Option Address
  clan_channel p id c = elim (lookup p c.clan_heap) [
    | none ↦ none
    | some clan ↦ get clan.channels id
  ]

  unfoldable pub cached_channel : Address → Bytes → Client S → Option Address
  cached_channel p id c = elim (clan_channel p id c) [ some q ↦ some q | none ↦ get c.channels id ]

  -- clan.Channels.Set(id, channel); c.Channels.Set(id, channel)
  unfoldable pub register_channel : Address → Bytes → Address → Client S → Client S
  register_channel p id q c = record c {
    clan_heap = modify p (set_clan_channel id q) c.clan_heap;
    channels = set c.channels id q;
  }

  unfoldable pub refresh_channel : Address → ChannelDescription → Client S → Client S
  refresh_channel q desc c = record c {
    channel_heap = modify q (update_from_desc desc) c.channel_heap;
  }

  unfoldable pub allocate_channel : TextChannel → Client S → Client S
  allocate_channel channel c = record c {
    channel_heap = insert c.fresh channel c.channel_heap;
    fresh = suc c.fresh;
  }

  unfoldable pub upsert_found :
      Address → ChannelDescription → Option Address → Client S → Client S × Address
  upsert_found p desc (some q) c =
      (register_channel p (itoa_id desc.channel_id) q (refresh_channel q desc c), q)
  upsert_found p desc none c = (
    register_channel p (itoa_id desc.channel_id) c.fresh
        (allocate_channel (new_text_channel desc p) c),
    c.fresh,
  )

  unfoldable pub upsert_channel : Address → ChannelDescription → Client S → Client S × Address
  upsert_channel p desc c = upsert_found p desc (cached_channel p (itoa_id desc.channel_id) c) c

  unfoldable pub add_clan : Bytes → Clan → Client S → Client S
  add_clan id clan c = record c {
    clan_heap = insert c.fresh clan c.clan_heap;
    clans = set c.clans id c.fresh;
    fresh = suc c.fresh;
  }

  unfoldable pub pseudo_clan : Bytes → Client S → Clan
  pseudo_clan id c = new_clan id (codes "unknown") [] [] c.client_id (token_of c.session)

  unfoldable pub build_channel : ChannelDescription → Client S → Client S × Address
  build_channel detail c =
      let id = itoa_id detail.clan_id in
      elim (get c.clans id) [
        | some p ↦ upsert_channel p detail c
        | none ↦ upsert_channel c.fresh detail (add_clan id (pseudo_clan id c) c)
      ]

  -- The description that the shared store has.
  unfoldable pub shared_channel : Setting S → Bytes → Client S → Option ChannelDescription
  shared_channel env id c = elim (l2_get env (l2_channel_prefix ++ id) c) [
    | none ↦ none
    | some b ↦ decoded_or_none (env.decode_desc b)
  ]

  unfoldable pub share_encoded : Setting S → Bytes → Result Bytes → Client S → Client S
  share_encoded env key (err e) c = c
  share_encoded env key (ok b) c = l2_set env key b c

  unfoldable pub built : Client S × Address → Client S × Result Address
  built (c, p) = (c, ok p)

  -- After ListChannelDetail, which gives no nil detail without an error.
  unfoldable pub take_detail :
      Setting S → Bytes → Result ChannelDescription → Client S → Client S × Result Address
  take_detail env id (err e) c = (c, err e)
  take_detail env id (ok detail) c =
      if is_zero detail.channel_id
      then (c, err (invalid_detail id))
      else built (
          build_channel detail
            (share_encoded env (l2_channel_prefix ++ id) (env.encode_desc detail) c))

  unfoldable pub fetch_detail :
      Setting S → Net → Bytes → Bytes → Client S → Client S × Result Address
  fetch_detail env net token id c =
      let r = list_channel_detail net env.marshal env.desc_target token id c.api in
      take_detail env id r.1 (record c { api = r.0 })

  unfoldable pub fetch_channel_as :
      Setting S
      → Net
      → Bytes
      → Bytes
      → Option ChannelDescription
      → Client S
      → Client S × Result Address
  fetch_channel_as env net token id (some detail) c = built (build_channel detail c)
  fetch_channel_as env net token id none c = fetch_detail env net token id c

  unfoldable pub fetch_channel : Setting S → Net → Bytes → Client S → Client S × Result Address
  fetch_channel env net id c = elim c.session [
    | none ↦ (c, err err_not_found)
    | some token ↦ fetch_channel_as env net token id (shared_channel env id c) c
  ]

  -- c.Channels.Fetch: a miss calls fetchChannel, and caches what it gives.
  unfoldable pub cache_fetched : Bytes → Client S × Result Address → Client S × Result Address
  cache_fetched id (c, err e) = (c, err e)
  cache_fetched id (c, ok q) = (record c { channels = set c.channels id q }, ok q)

  unfoldable pub channels_fetch : Setting S → Net → Bytes → Client S → Client S × Result Address
  channels_fetch env net id c = elim (get c.channels id) [
    | some q ↦ (c, ok q)
    | none ↦ cache_fetched id (fetch_channel env net id c)
  ]

  -- cacheDmChannel, of a description that is there.
  unfoldable pub cache_dm_channel : ChannelDescription → Client S → Client S × Option Address
  cache_dm_channel desc c =
      if is_zero desc.channel_id
      then (c, none)
      else (let r = build_channel desc c in (r.0, some r.1))

  unfoldable pub cache_dm_channels : List ChannelDescription → Client S → Client S
  cache_dm_channels [] c = c
  cache_dm_channels (desc ∷ descs) c = cache_dm_channels descs (cache_dm_channel desc c).0

  unfoldable pub init_dm_channel_cache : Client S → Client S
  init_dm_channel_cache c = cache_dm_channels c.dm_descs c
