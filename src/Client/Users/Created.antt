-- ===== src/Client/Users/Created.antt =====
-- user.go and channelmanager.go: what the opening of a direct channel changes in the client.
use mezon_sdk_go.Prelude.{
  ◌≡◌, refl, inl, inr, Option, none, some, not, Bytes, nat_eq, bytes_eq, Bool-cases, Option-cases,
}
use mezon_sdk_go.Errors.{Error, Result, ok, err}
use mezon_sdk_go.Types.{itoa_id}
use mezon_sdk_go.Helper.{is_valid_user_id}
use mezon_sdk_go.Cache.{get}
use mezon_sdk_go.Socket.Write.{Exchange}
use mezon_sdk_go.Rest.{MezonApi}
use mezon_sdk_go.Rest.Call.{Net}
use mezon_sdk_go.Rest.Endpoints.{create_channel_desc}
use mezon_sdk_go.Entities.{Address, ChannelDescription}
use mezon_sdk_go.Client.{Client, Setting, create_channel_desc_request}
use mezon_sdk_go.Client.Wiring.{IsWired, clan_added}
use mezon_sdk_go.Client.Identity.{upsert_channel-Registered}
use mezon_sdk_go.Client.Shared.{
  build_channel, upsert_channel, upsert_found, cached_channel, pseudo_clan, add_clan,
  register_channel, refresh_channel, allocate_channel,
}
use mezon_sdk_go.Client.Clans.{with_api}
use mezon_sdk_go.Client.Dm.{create_dm_channel, create_dm_as, join_dm, dm_request}

module _ {S : Type 0} where
  upsert_found-users :
      (p : Address) (desc : ChannelDescription) (o : Option Address) (c : Client S)
      → let r = (upsert_found p desc o c).0 in (r.user_heap ≡ c.user_heap) × (r.api ≡ c.api)
  unfolding upsert_found register_channel refresh_channel allocate_channel
  upsert_found-users p desc (some q) c = (refl, refl)
  upsert_found-users p desc none c = (refl, refl)

  upsert_channel-users :
      (p : Address) (desc : ChannelDescription) (c : Client S)
      → let r = (upsert_channel p desc c).0 in (r.user_heap ≡ c.user_heap) × (r.api ≡ c.api)
  unfolding upsert_channel
  upsert_channel-users p desc c =
      upsert_found-users p desc (cached_channel p (itoa_id desc.channel_id) c) c

  -- buildChannel leaves its result in the client's cache, and the users as they are.
  pub build_channel-cached :
      (desc : ChannelDescription) (c : Client S)
      → IsWired c
      → let r = build_channel desc c in
        (get r.0.channels (itoa_id desc.channel_id) ≡ some r.1)
        × (r.0.user_heap ≡ c.user_heap)
        × (r.0.api ≡ c.api)
  unfolding build_channel add_clan
  build_channel-cached desc c w =
      let id = itoa_id desc.clan_id in
      elim (Option-cases (get c.clans id)) [
        | inr (p, known) ↦
            let same = upsert_channel-users p desc c in
            rw (known, build_channel)
              ((upsert_channel-Registered p desc c (w.clans id p known)).1, same.0, same.1)
        | inl unknown ↦
            let clan = pseudo_clan id c in
            let c' = add_clan id clan c in
            let same = upsert_channel-users c.fresh desc c' in
            rw (unknown, build_channel)
              (
                (upsert_channel-Registered c.fresh desc c' (clan, clan_added c id clan)).1,
                same.0,
                same.1,
              )
      ]

  join_dm-api :
      (x : Exchange) (r : Result ChannelDescription) (c : Client S)
      → (a : MezonApi) × ((join_dm x r c).0 ≡ with_api a c)
  unfolding join_dm with_api
  join_dm-api x (err e) c = (c.api, refl)
  join_dm-api x (ok ch) c = ((join_dm x (ok ch) c).0.api, refl)

  create_dm_as-api :
      (env : Setting S) (net : Net) (x : Exchange) (id token : Bytes) (c : Client S)
      → (a : MezonApi) × ((create_dm_as env net x id token c).0 ≡ with_api a c)
  unfolding create_dm_as join_dm with_api
  create_dm_as-api env net x id token c =
      let r =
        create_channel_desc net env.marshal env.desc_target token
          (create_channel_desc_request (dm_request id)) c.api in
      join_dm-api x r.1 (with_api r.0 c)

  created-api :
      (env : Setting S) (net : Net) (x : Exchange) (id : Bytes) (session : Option Bytes)
      (c : Client S)
      → (a : MezonApi) × ((elim session as (λ o. Client S × Result ChannelDescription) [
        | none ↦ (c, err Error.err_not_found)
        | some token ↦ create_dm_as env net x id token c
      ]).0
          ≡ with_api a c)
  unfolding with_api
  created-api env net x id none c = (c.api, refl)
  created-api env net x id (some token) c = create_dm_as-api env net x id token c

  pub create_dm_channel-api :
      (env : Setting S) (net : Net) (x : Exchange) (id : Bytes) (c : Client S)
      → (a : MezonApi) × ((create_dm_channel env net x id c).0 ≡ with_api a c)
  unfolding create_dm_channel with_api
  create_dm_channel-api env net x id c = elim (Bool-cases (not (is_valid_user_id id))) [
    | inl invalid ↦ rw invalid (c.api, refl)
    | inr valid ↦ rw valid (created-api env net x id c.session c)
  ]
