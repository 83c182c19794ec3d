-- ===== src/Client/Layers.antt =====
-- sharedcache.go: what the shared store does for a fetch, and what it does not.
use mezon_sdk_go.Prelude.{
  ◌≡◌, refl, sym, ap, subst, ◌∙◌, ◌⊎◌, inl, inr, ◌++◌, none, some, false, nat_eq, bytes_eq,
  Option-cases, Bool-cases, Bytes,
}
use mezon_sdk_go.Errors.{Error, Result, ok, err}
use mezon_sdk_go.Rest.Call.{Net}
use mezon_sdk_go.Rest.Endpoints.{list_channel_detail}
use mezon_sdk_go.Entities.{Address, ChannelDescription, is_zero}
use mezon_sdk_go.Client.{Client, Setting, SharedStore, hit_of, l2_get, l2_set, l2_channel_prefix}
use mezon_sdk_go.Client.Shared.{
  build_channel, shared_channel, decoded_or_none, share_encoded, built, take_detail, fetch_detail,
  fetch_channel,
}
use mezon_sdk_go.Client.Lookup.{
  IsLawful, with_l2, build_channel-l2, fetch_channel-miss, fetch_channel-hit, take_detail_lem,
  l2_set_stored, l2_get_stored, shared_channel_read,
}

module _ {S : Type 0} where
  shared_channel-storeless :
      (env : Setting S) (id : Bytes) (c : Client S)
      → shared_channel (record env { store = none }) id c ≡ none
  unfolding shared_channel l2_get
  shared_channel-storeless env id c = refl

  -- The read of the store fails, or what it gives cannot be decoded.
  abbrev pub Fails : Setting S → SharedStore S → Bytes → Client S → Type 0
  Fails env store key c =
      ((e : Error) × (store.get c.l2 key ≡ err e))
      ⊎ ((b : Bytes) × (e : Error) × (store.get c.l2 key ≡ ok (some b))
          × (env.decode_desc b ≡ err e))

  shared_channel-failure :
      (env : Setting S) (store : SharedStore S) (id : Bytes) (c : Client S)
      → env.store ≡ some store
      → Fails env store (l2_channel_prefix ++ id) c
      → shared_channel env id c ≡ none
  unfolding hit_of decoded_or_none
  shared_channel-failure env store id c shared (inl (e, down)) =
      shared_channel_read env id c none
        (l2_get_stored env store (l2_channel_prefix ++ id) c shared ∙ ap hit_of down)
  shared_channel-failure env store id c shared (inr (b, e, read, garbled)) =
      shared_channel_read env id c (some b)
        (l2_get_stored env store (l2_channel_prefix ++ id) c shared ∙ ap hit_of read)
      ∙ ap decoded_or_none garbled

  l2_set-l2 :
      (env : Setting S) (key b : Bytes) (c : Client S)
      → l2_set env key b c ≡ with_l2 (l2_set env key b c).l2 c
  unfolding l2_set
  l2_set-l2 env key b c = elim (Option-cases env.store) [
    | inl absent ↦ rw (absent, l2_set) refl
    | inr (store, there) ↦ rw (there, l2_set) refl
  ]

  pub share_encoded-l2 :
      (env : Setting S) (key : Bytes) (encoded : Result Bytes) (c : Client S)
      → share_encoded env key encoded c ≡ with_l2 (share_encoded env key encoded c).l2 c
  unfolding share_encoded
  share_encoded-l2 env key (err e) c = refl
  share_encoded-l2 env key (ok b) c = l2_set-l2 env key b c

  share_encoded-storeless :
      (env : Setting S) (key : Bytes) (encoded : Result Bytes) (c : Client S)
      → share_encoded (record env { store = none }) key encoded c ≡ c
  unfolding share_encoded l2_set
  share_encoded-storeless env key (err e) c = refl
  share_encoded-storeless env key (ok b) c = refl

  up_to_l2 :
      (r plain : Client S × Result Address) (s : S) (b : Client S × Result Address)
      → r ≡ (with_l2 s b.0, b.1)
      → plain ≡ b
      → r ≡ (with_l2 r.0.l2 plain.0, plain.1)
  up_to_l2 r plain s b e f =
      e
      ∙ ap (λ t. (with_l2 t b.0, b.1)) (sym (ap (λ q. q.0.l2) e))
      ∙ ap (λ q. (with_l2 r.0.l2 q.0, q.1)) (sym f)

  take_detail-storeless :
      (env : Setting S) (id : Bytes) (reply : Result ChannelDescription) (c : Client S)
      → let r = take_detail env id reply c in
        let plain = take_detail (record env { store = none }) id reply c in
        r ≡ (with_l2 r.0.l2 plain.0, plain.1)
  unfolding take_detail built
  take_detail-storeless env id (err e) c = refl
  take_detail-storeless env id (ok detail) c =
      let key = l2_channel_prefix ++ id in
      let encoded = env.encode_desc detail in
      let with_it = share_encoded env key encoded c in
      elim (Bool-cases (is_zero detail.channel_id)) [
        | inl invalid ↦ rw invalid refl
        | inr valid ↦ rw valid (
            up_to_l2 (built (build_channel detail with_it))
              (built
                (build_channel detail (share_encoded (record env { store = none }) key encoded c)))
              with_it.l2 (built (build_channel detail c))
              (ap (λ x. built (build_channel detail x)) (share_encoded-l2 env key encoded c)
                ∙ ap built (build_channel-l2 detail with_it.l2 c))
              (ap (λ x. built (build_channel detail x))
                (share_encoded-storeless env key encoded c)))
      ]

  module _ (env : Setting S) (store : SharedStore S) (shared : env.store ≡ some store) where
    -- A channel that one client has fetched over the API and written to a lawful shared store is
    -- fetched by every client of that store, in the state that it then has, without a request:
    -- from the same description, whatever the network does. The encoding must read back what it
    -- writes.
    pub fetch_channel-shared :
        (net net' : Net) (id token token' b : Bytes) (detail : ChannelDescription) (c d : Client S)
        → IsLawful store
        → c.session ≡ some token
        → d.session ≡ some token'
        → shared_channel env id c ≡ none
        → (list_channel_detail net env.marshal env.desc_target token id c.api).1 ≡ ok detail
        → is_zero detail.channel_id ≡ false
        → env.encode_desc detail ≡ ok b
        → env.decode_desc b ≡ ok detail
        → (store.set c.l2 (l2_channel_prefix ++ id) b env.cache_ttl).1 ≡ none
        → d.l2 ≡ (fetch_channel env net id c).0.l2
        → fetch_channel env net' id d ≡ built (build_channel detail d)
    unfolding fetch_detail built hit_of decoded_or_none
    fetch_channel-shared net net' id token token' b detail c d lawful cs ds miss answered valid enc
          dec accepted same =
        let key = l2_channel_prefix ++ id in
        let after : Client S = record c {
          api = (list_channel_detail net env.marshal env.desc_target token id c.api).0;
        } in
        let s = (store.set c.l2 key b env.cache_ttl).0 in
        let fetched =
          fetch_channel-miss env net id token c cs miss
          ∙ ap (λ r. take_detail env id r after) answered
          ∙ take_detail_lem env id b detail after valid enc
          ∙ ap (λ x. built (build_channel detail x)) (l2_set_stored env store key b after shared)
          ∙ ap built (build_channel-l2 detail s after) in
        let kept : d.l2 ≡ s = same ∙ ap (λ r. r.0.l2) fetched in
        let read : l2_get env key d ≡ some b =
          l2_get_stored env store key d shared
          ∙ ap (λ t. hit_of (store.get t key)) kept
          ∙ ap hit_of (lawful.get-set c.l2 key b env.cache_ttl accepted) in
        fetch_channel-hit env net' id token' detail d ds
          (shared_channel_read env id d (some b) read ∙ ap decoded_or_none dec)

    -- A shared store whose read fails, or that holds bytes that cannot be decoded, is as good as
    -- none: the request goes to the API, and everything but the store's own state comes out as
    -- without a store.
    pub fetch_channel-store_failure :
        (net : Net) (id token : Bytes) (c : Client S)
        → c.session ≡ some token
        → (((e : Error) × (store.get c.l2 (l2_channel_prefix ++ id) ≡ err e))
            ⊎ ((b : Bytes) × (e : Error) × (store.get c.l2 (l2_channel_prefix ++ id) ≡ ok (some b))
                × (env.decode_desc b ≡ err e)))
        → let r = fetch_channel env net id c in
          let plain = fetch_channel (record env { store = none }) net id c in
          r ≡ (with_l2 r.0.l2 plain.0, plain.1)
    unfolding fetch_detail built hit_of decoded_or_none
    fetch_channel-store_failure net id token c session failed =
        let after : Client S = record c {
          api = (list_channel_detail net env.marshal env.desc_target token id c.api).0;
        } in
        let reply = (list_channel_detail net env.marshal env.desc_target token id c.api).1 in
        let fetched =
          fetch_channel-miss env net id token c session
            (shared_channel-failure env store id c shared failed) in
        let plain =
          fetch_channel-miss (record env { store = none }) net id token c session
            (shared_channel-storeless env id c) in
        subst
          (λ r. r ≡ (
            with_l2 r.0.l2 (fetch_channel (record env { store = none }) net id c).0,
            (fetch_channel (record env { store = none }) net id c).1,
          ))
          (sym fetched)
          (take_detail-storeless env id reply after
            ∙ ap (λ q. (with_l2 (fetch_detail env net token id c).0.l2 q.0, q.1)) (sym plain))
