-- ===== src/Client/Fetched.antt =====
-- sharedcache.go: a fetch keeps the heap wired, whatever the store and the network give.
use mezon_sdk_go.Prelude.{
  sym, subst, inl, inr, List, [], ◌∷◌, ◌++◌, Option, none, some, Option-cases, Bool-cases, Bytes,
  bytes_eq, nat_eq,
}
use mezon_sdk_go.Errors.{Error, Result, ok, err}
use mezon_sdk_go.Rest.{MezonApi}
use mezon_sdk_go.Rest.Call.{Net}
use mezon_sdk_go.Rest.Endpoints.{list_channel_detail}
use mezon_sdk_go.Entities.{Address, ChannelDescription, is_zero}
use mezon_sdk_go.Client.{Client, Setting, l2_channel_prefix}
use mezon_sdk_go.Client.Wiring.{IsWired}
use mezon_sdk_go.Client.Identity.{build_channel-IsWired}
use mezon_sdk_go.Client.Lookup.{with_l2}
use mezon_sdk_go.Client.Layers.{share_encoded-l2}
use mezon_sdk_go.Client.Shared.{
  build_channel, shared_channel, share_encoded, built, take_detail, fetch_detail, fetch_channel_as,
  fetch_channel, cache_dm_channel, cache_dm_channels,
}

module _ {S : Type 0} where
  pub with_l2-IsWired : (s : S) (c : Client S) → IsWired c → IsWired (with_l2 s c)
  with_l2-IsWired s c w = record {
    clans = w.clans;
    channels = w.channels;
    clan_channels = w.clan_channels;
    homes = w.homes;
    fresh = w.fresh;
  }

  pub with_api-IsWired : (a : MezonApi) (c : Client S) → IsWired c → IsWired (record c { api = a })
  with_api-IsWired a c w = record {
    clans = w.clans;
    channels = w.channels;
    clan_channels = w.clan_channels;
    homes = w.homes;
    fresh = w.fresh;
  }

  built-IsWired :
      (desc : ChannelDescription) (c : Client S)
      → IsWired c
      → IsWired (built (build_channel desc c)).0
  unfolding built
  built-IsWired desc c w = (build_channel-IsWired desc c w).0

  share_encoded-IsWired :
      (env : Setting S) (key : Bytes) (encoded : Result Bytes) (c : Client S)
      → IsWired c
      → IsWired (share_encoded env key encoded c)
  share_encoded-IsWired env key encoded c w =
      subst IsWired (sym (share_encoded-l2 env key encoded c))
        (with_l2-IsWired (share_encoded env key encoded c).l2 c w)

  take_detail-IsWired :
      (env : Setting S) (id : Bytes) (reply : Result ChannelDescription) (c : Client S)
      → IsWired c
      → IsWired (take_detail env id reply c).0
  unfolding take_detail
  take_detail-IsWired env id (err e) c w = w
  take_detail-IsWired env id (ok detail) c w =
      let key = l2_channel_prefix ++ id in
      elim (Bool-cases (is_zero detail.channel_id)) [
        | inl invalid ↦ rw invalid w
        | inr valid ↦ rw valid (
            built-IsWired detail (share_encoded env key (env.encode_desc detail) c)
              (share_encoded-IsWired env key (env.encode_desc detail) c w))
      ]

  fetch_channel_as-IsWired :
      (env : Setting S) (net : Net) (token id : Bytes) (o : Option ChannelDescription)
      (c : Client S)
      → IsWired c
      → IsWired (fetch_channel_as env net token id o c).0
  unfolding fetch_channel_as fetch_detail
  fetch_channel_as-IsWired env net token id (some detail) c w = built-IsWired detail c w
  fetch_channel_as-IsWired env net token id none c w =
      let r = list_channel_detail net env.marshal env.desc_target token id c.api in
      take_detail-IsWired env id r.1 (record c { api = r.0 }) (with_api-IsWired r.0 c w)

  -- Whatever the shared store and the network give, fetchChannel keeps the heap wired: every entry
  -- of the caches of clans and channels refers to an object that is there, a channel has the id it
  -- is cached under, and its clan is there.
  pub fetch_channel-IsWired :
      (env : Setting S) (net : Net) (id : Bytes) (c : Client S)
      → IsWired c
      → IsWired (fetch_channel env net id c).0
  unfolding fetch_channel
  fetch_channel-IsWired env net id c w = elim (Option-cases c.session) [
    | inl out ↦
        subst
          (λ o.
            IsWired
              (elim o as (λ p. Client S × Result Address) [
                | none ↦ (c, err Error.err_not_found)
                | some token ↦ fetch_channel_as env net token id (shared_channel env id c) c
              ]).0)
          (sym out) w
    | inr (token, logged_in) ↦
        subst
          (λ o.
            IsWired
              (elim o as (λ p. Client S × Result Address) [
                | none ↦ (c, err Error.err_not_found)
                | some token ↦ fetch_channel_as env net token id (shared_channel env id c) c
              ]).0)
          (sym logged_in) (fetch_channel_as-IsWired env net token id (shared_channel env id c) c w)
  ]

  cache_dm_channel-IsWired :
      (desc : ChannelDescription) (c : Client S) → IsWired c → IsWired (cache_dm_channel desc c).0
  unfolding cache_dm_channel
  cache_dm_channel-IsWired desc c w = elim (Bool-cases (is_zero desc.channel_id)) [
    | inl invalid ↦ rw invalid w
    | inr valid ↦ rw valid (build_channel-IsWired desc c w).0
  ]

  pub cache_dm_channels-IsWired :
      (descs : List ChannelDescription) (c : Client S)
      → IsWired c
      → IsWired (cache_dm_channels descs c)
  unfolding cache_dm_channels
  cache_dm_channels-IsWired [] c w = w
  cache_dm_channels-IsWired (desc ∷ descs) c w =
      cache_dm_channels-IsWired descs (cache_dm_channel desc c).0
        (cache_dm_channel-IsWired desc c w)
