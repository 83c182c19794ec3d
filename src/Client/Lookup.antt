-- ===== src/Client/Lookup.antt =====
-- sharedcache.go: the layers of a fetch one by one, and that building a channel does not touch the
-- shared store.
use mezon_sdk_go.Prelude.{
  ℤ, ◌≡◌, ◌≢◌, refl, ap, ◌∙◌, inl, inr, ◌++◌, Option, none, some, false, if◌then◌else◌, nat_eq,
  bytes_eq, Option-cases, Bytes,
}
use mezon_sdk_go.Errors.{Error, ok, err}
use mezon_sdk_go.Types.{itoa_id}
use mezon_sdk_go.Cache.{get}
use mezon_sdk_go.Rest.Call.{Net}
use mezon_sdk_go.Entities.{Address, ChannelDescription, is_zero}
use mezon_sdk_go.Client.{Client, Setting, SharedStore, hit_of, l2_get, l2_set, l2_channel_prefix}
use mezon_sdk_go.Client.Shared.{
  clan_channel, cached_channel, register_channel, refresh_channel, allocate_channel, upsert_found,
  upsert_channel, add_clan, build_channel, pseudo_clan, shared_channel, decoded_or_none,
  share_encoded, built, take_detail, fetch_detail, fetch_channel_as, fetch_channel, invalid_detail,
}

-- What a store promises where its calls report no error.
pub record IsLawful {S : Type 0} (store : SharedStore S) : Type 0 where
  pub get-set :
      (s : S) (key value : Bytes) (ttl : ℤ)
      → (store.set s key value ttl).1 ≡ none
      → store.get (store.set s key value ttl).0 key ≡ ok (some value)
  pub get-set_other :
      (s : S) (key j value : Bytes) (ttl : ℤ)
      → key ≢ j
      → store.get (store.set s key value ttl).0 j ≡ store.get s j
  pub get-delete :
      (s : S) (key : Bytes)
      → (store.delete s key).1 ≡ none
      → store.get (store.delete s key).0 key ≡ ok none

module _ {S : Type 0} where
  abbrev pub with_l2 : S → Client S → Client S
  with_l2 s c = record c { l2 = s }

  -- The shared store's state plays no part in building a channel.
  pub upsert_found-l2 :
      (p : Address) (desc : ChannelDescription) (o : Option Address) (s : S) (c : Client S)
      → upsert_found p desc o (with_l2 s c)
        ≡ (with_l2 s (upsert_found p desc o c).0, (upsert_found p desc o c).1)
  unfolding upsert_found register_channel refresh_channel allocate_channel
  upsert_found-l2 p desc (some q) s c = refl
  upsert_found-l2 p desc none s c = refl

  pub upsert_channel-l2 :
      (p : Address) (desc : ChannelDescription) (s : S) (c : Client S)
      → upsert_channel p desc (with_l2 s c)
        ≡ (with_l2 s (upsert_channel p desc c).0, (upsert_channel p desc c).1)
  unfolding upsert_channel cached_channel clan_channel
  upsert_channel-l2 p desc s c =
      upsert_found-l2 p desc (cached_channel p (itoa_id desc.channel_id) c) s c

  pub build_channel-l2 :
      (desc : ChannelDescription) (s : S) (c : Client S)
      → build_channel desc (with_l2 s c)
        ≡ (with_l2 s (build_channel desc c).0, (build_channel desc c).1)
  unfolding build_channel add_clan pseudo_clan
  build_channel-l2 desc s c = elim (Option-cases (get c.clans (itoa_id desc.clan_id))) [
    | inr (p, known) ↦ rw (known, build_channel) (upsert_channel-l2 p desc s c)
    | inl unknown ↦
        rw (unknown, build_channel)
          (upsert_channel-l2 c.fresh desc s
            (add_clan (itoa_id desc.clan_id) (pseudo_clan (itoa_id desc.clan_id) c) c))
  ]

  -- A fetch with a session that finds nothing in the shared store.
  pub fetch_channel-miss :
      (env : Setting S) (net : Net) (id token : Bytes) (c : Client S)
      → c.session ≡ some token
      → shared_channel env id c ≡ none
      → fetch_channel env net id c ≡ fetch_detail env net token id c
  unfolding fetch_channel fetch_channel_as
  fetch_channel-miss env net id token c session miss =
      ap
        (λ o. elim o [
          | none ↦ (c, err Error.err_not_found)
          | some t ↦ fetch_channel_as env net t id (shared_channel env id c) c
        ])
        session
      ∙ ap (λ o. fetch_channel_as env net token id o c) miss

  pub fetch_channel-hit :
      (env : Setting S) (net : Net) (id token : Bytes) (detail : ChannelDescription) (c : Client S)
      → c.session ≡ some token
      → shared_channel env id c ≡ some detail
      → fetch_channel env net id c ≡ built (build_channel detail c)
  unfolding fetch_channel fetch_channel_as
  fetch_channel-hit env net id token detail c session hit =
      ap
        (λ o. elim o [
          | none ↦ (c, err Error.err_not_found)
          | some t ↦ fetch_channel_as env net t id (shared_channel env id c) c
        ])
        session
      ∙ ap (λ o. fetch_channel_as env net token id o c) hit

  pub take_detail_lem :
      (env : Setting S) (id b : Bytes) (detail : ChannelDescription) (c : Client S)
      → is_zero detail.channel_id ≡ false
      → env.encode_desc detail ≡ ok b
      → take_detail env id (ok detail) c
        ≡ built (build_channel detail (l2_set env (l2_channel_prefix ++ id) b c))
  unfolding take_detail share_encoded
  take_detail_lem env id b detail c valid encoded =
      ap
        (λ t.
          if t
          then (c, err (invalid_detail id))
          else built (
              build_channel detail
                (share_encoded env (l2_channel_prefix ++ id) (env.encode_desc detail) c)))
        valid
      ∙ ap (λ e. built (build_channel detail (share_encoded env (l2_channel_prefix ++ id) e c)))
          encoded

  pub l2_set_stored :
      (env : Setting S) (store : SharedStore S) (key value : Bytes) (c : Client S)
      → env.store ≡ some store
      → l2_set env key value c ≡ with_l2 (store.set c.l2 key value env.cache_ttl).0 c
  unfolding l2_set
  l2_set_stored env store key value c h =
      ap (λ o. elim o [ none ↦ c | some x ↦ with_l2 (x.set c.l2 key value env.cache_ttl).0 c ]) h

  pub l2_get_stored :
      (env : Setting S) (store : SharedStore S) (key : Bytes) (c : Client S)
      → env.store ≡ some store
      → l2_get env key c ≡ hit_of (store.get c.l2 key)
  unfolding l2_get
  l2_get_stored env store key c h =
      ap (λ o. elim o [ none ↦ none | some x ↦ hit_of (x.get c.l2 key) ]) h

  pub shared_channel_read :
      (env : Setting S) (id : Bytes) (c : Client S) (o : Option Bytes)
      → l2_get env (l2_channel_prefix ++ id) c ≡ o
      → shared_channel env id c
        ≡ (elim o [ none ↦ none | some b ↦ decoded_or_none (env.decode_desc b) ])
  unfolding shared_channel
  shared_channel_read env id c o h =
      ap (λ o. elim o [ none ↦ none | some b ↦ decoded_or_none (env.decode_desc b) ]) h
