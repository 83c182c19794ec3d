-- ===== src/Client/Merged.antt =====
-- clan.go: loading the channels of a clan keeps the heap wired.
use mezon_sdk_go.Prelude.{
  pos, ◌≡◌, subst, inl, inr, List, [], ◌∷◌, Option, none, some, false, Bytes, nat_eq, bytes_eq,
  lookup, Option-cases, Bool-cases,
}
use mezon_sdk_go.Errors.{Result, ok, err}
use mezon_sdk_go.Types.{itoa_id}
use mezon_sdk_go.Cache.{get}
use mezon_sdk_go.Rest.Call.{Net}
use mezon_sdk_go.Rest.Endpoints.{list_channel_descs}
use mezon_sdk_go.Entities.{Address, Clan, ChannelDescription, is_zero}
use mezon_sdk_go.Client.{Client, Setting, modify}
use mezon_sdk_go.Client.Heap.{modify_cases, modify_keeps, modify_absent}
use mezon_sdk_go.Client.Shared.{
  upsert_channel, upsert_found, register_channel, refresh_channel, allocate_channel,
  set_clan_channel, cached_channel,
}
use mezon_sdk_go.Client.Wiring.{IsWired, ClanAt}
use mezon_sdk_go.Client.Identity.{upsert_channel-IsWired}
use mezon_sdk_go.Client.Fetched.{with_api-IsWired}
use mezon_sdk_go.Client.Clans.{
  with_api, mark_loaded, mark_clan_loaded, merge_channels, merge_listed, reload_clan,
  reload_channels,
}

module _ {S : Type 0} where
  -- A write to a clan that adds no channel to its cache.
  pub modify_clan-IsWired :
      (p : Address) (f : Clan → Clan) (c : Client S)
      → ((clan : Clan) (id : Bytes) (q : Address)
          → get (f clan).channels id ≡ some q
          → get clan.channels id ≡ some q)
      → IsWired c
      → IsWired (record c { clan_heap = modify p f c.clan_heap })
  modify_clan-IsWired p f c less w = record {
    clans = λ j r h.
        let old = w.clans j r h in
        let kept = modify_keeps p r f c.clan_heap old.1 in (kept.0, kept.1);
    channels = w.channels;
    clan_channels = λ r clan j s there h.
        let was = modify_cases p r f c.clan_heap there in
        let old = w.clan_channels r was.0 j s was.1 in
        elim was.2 [
          | inl e ↦ old (subst (λ x. get x.channels j ≡ some s) e h)
          | inr e ↦ old (less was.0 j s (subst (λ x. get x.channels j ≡ some s) e.1 h))
        ];
    homes = λ r ch h.
        let old = w.homes r ch h in
        let kept = modify_keeps p ch.clan f c.clan_heap old.1 in (kept.0, kept.1);
    fresh = λ r h. let old = w.fresh r h in (modify_absent p r f c.clan_heap old.0, old.1);
  }

  upsert_found-ClanAt :
      (p r : Address) (desc : ChannelDescription) (o : Option Address) (c : Client S)
      → ClanAt c r
      → ClanAt (upsert_found p desc o c).0 r
  unfolding upsert_found register_channel refresh_channel allocate_channel
  upsert_found-ClanAt p r desc (some q) c (clan, there) =
      let kept =
        modify_keeps p r (set_clan_channel (itoa_id desc.channel_id) q) c.clan_heap there in
      (kept.0, kept.1)
  upsert_found-ClanAt p r desc none c (clan, there) =
      let kept =
        modify_keeps p r (set_clan_channel (itoa_id desc.channel_id) c.fresh) c.clan_heap there in
      (kept.0, kept.1)

  upsert_channel-ClanAt :
      (p r : Address) (desc : ChannelDescription) (c : Client S)
      → ClanAt c r
      → ClanAt (upsert_channel p desc c).0 r
  unfolding upsert_channel
  upsert_channel-ClanAt p r desc c h =
      upsert_found-ClanAt p r desc (cached_channel p (itoa_id desc.channel_id) c) c h

  merge_channels-IsWired :
      (p : Address) (chs : List ChannelDescription) (c : Client S)
      → ClanAt c p
      → IsWired c
      → IsWired (merge_channels p chs c)
  unfolding merge_channels
  merge_channels-IsWired p [] c home w = w
  merge_channels-IsWired p (ch ∷ chs) c home w = elim (Bool-cases (is_zero ch.channel_id)) [
    | inl skip ↦ rw skip (merge_channels-IsWired p chs c home w)
    | inr listed ↦ rw listed (
        merge_channels-IsWired p chs (upsert_channel p ch c).0 (upsert_channel-ClanAt p p ch c home)
          (upsert_channel-IsWired p ch c home w).0)
  ]

  merge_listed-IsWired :
      (p : Address) (r : Result (List ChannelDescription)) (c : Client S)
      → ClanAt c p
      → IsWired c
      → IsWired (merge_listed p r c).0
  unfolding merge_listed mark_clan_loaded mark_loaded
  merge_listed-IsWired p (err e) c home w = w
  merge_listed-IsWired p (ok chs) c home w =
      modify_clan-IsWired p mark_loaded (merge_channels p chs c) (λ clan id q h. h)
        (merge_channels-IsWired p chs c home w)

  -- ReloadChannels keeps the heap wired.
  pub reload_channels-IsWired :
      (env : Setting S) (net : Net) (p : Address) (c : Client S)
      → IsWired c
      → IsWired (reload_channels env net p c).0
  unfolding reload_channels reload_clan with_api
  reload_channels-IsWired env net p c w = elim (Option-cases (lookup p c.clan_heap)) [
    | inl gone ↦ rw (gone, reload_channels) w
    | inr (clan, there) ↦
        let r =
          list_channel_descs net env.marshal env.desc_list_target clan.session_token (pos 1) clan.id
            (pos 0) (pos 0) [] false c.api in
        rw (there, reload_channels)
          (merge_listed-IsWired p r.1 (record c { api = r.0 }) (clan, there)
            (with_api-IsWired r.0 c w))
  ]
