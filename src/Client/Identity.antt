-- ===== src/Client/Identity.antt =====
-- sharedcache.go: upsertChannel and buildChannel keep a cached channel's identity and the heap
-- wired.
use mezon_sdk_go.Prelude.{
  ◌≡◌, refl, sym, ap, subst, ◌∙◌, inl, inr, Option, none, some, arith, nat_eq, bytes_eq, lookup,
  Option-cases, Bytes,
}
use mezon_sdk_go.Types.{itoa_id}
use mezon_sdk_go.Cache.{get, new_cache_manager}
use mezon_sdk_go.Cache.Entries.{get-set_self}
use mezon_sdk_go.Entities.{Address, TextChannel, ChannelDescription}
use mezon_sdk_go.Entities.Channels.{update_from_desc, new_text_channel, blank_channel, new_clan}
use mezon_sdk_go.Client.{Client}
use mezon_sdk_go.Client.Heap.{modify_self, insert_self}
use mezon_sdk_go.Client.Wiring.{
  ChannelAt, ClanAt, IsWired, register_channel-IsWired, refresh_channel-IsWired,
  allocate_channel-IsWired, refreshed, add_clan-IsWired, clan_added,
}
use mezon_sdk_go.Client.Shared.{
  clan_channel, cached_channel, set_clan_channel, register_channel, refresh_channel,
  allocate_channel, upsert_found, upsert_channel, add_clan, build_channel, pseudo_clan,
}

new_channel-id :
    (desc : ChannelDescription) (p : Address)
    → (new_text_channel desc p).id ≡ itoa_id desc.channel_id
unfolding new_text_channel update_from_desc blank_channel
new_channel-id desc p = refl

new_channel-clan : (desc : ChannelDescription) (p : Address) → (new_text_channel desc p).clan ≡ p
unfolding new_text_channel update_from_desc blank_channel
new_channel-clan desc p = refl

module _ {S : Type 0} where
  clan_channel-wired :
      (p q : Address) (id : Bytes) (c : Client S)
      → IsWired c
      → clan_channel p id c ≡ some q
      → ChannelAt c q id
  unfolding clan_channel
  clan_channel-wired p q id c w h = elim (Option-cases (lookup p c.clan_heap)) [
    | inl gone ↦ absurd (ground (arith, gone))
    | inr (clan, there) ↦ w.clan_channels p clan id q there (rw (there, clan_channel) at h)
  ]

  cached_channel-wired :
      (p q : Address) (id : Bytes) (c : Client S)
      → IsWired c
      → cached_channel p id c ≡ some q
      → ChannelAt c q id
  unfolding cached_channel
  cached_channel-wired p q id c w h = elim (Option-cases (clan_channel p id c)) [
    | inl gone ↦ w.channels id q (rw (gone, cached_channel) at h)
    | inr (r, there) ↦ clan_channel-wired p q id c w (there ∙ (rw (there, cached_channel) at h))
  ]

  -- The channel is in the clan's cache and in the client's.
  abbrev pub Registered : Address → Bytes → Address → Client S → Type 0
  Registered p id q c = (clan_channel p id c ≡ some q) × (get c.channels id ≡ some q)

  register_channel-Registered :
      (p q : Address) (id : Bytes) (c : Client S)
      → ClanAt c p
      → Registered p id q (register_channel p id q c)
  unfolding register_channel clan_channel set_clan_channel
  register_channel-Registered p q id c (clan, there) = (
    ap (λ o. elim o [ none ↦ none | some x ↦ get x.channels id ])
          (modify_self p (set_clan_channel id q) c.clan_heap there)
        ∙ get-set_self clan.channels id q,
    get-set_self c.channels id q,
  )

  upsert_found-IsWired :
      (p : Address) (desc : ChannelDescription) (o : Option Address) (c : Client S)
      → ((q : Address) → o ≡ some q → ChannelAt c q (itoa_id desc.channel_id))
      → ClanAt c p
      → IsWired c
      → let r = upsert_found p desc o c in IsWired r.0 × ChannelAt r.0 r.1 (itoa_id desc.channel_id)
  unfolding upsert_found register_channel allocate_channel
  upsert_found-IsWired p desc (some q) c found home w =
      let id = itoa_id desc.channel_id in
      let fresh_look = refreshed c q q desc id (found q refl) in
      (
        register_channel-IsWired p q id (refresh_channel q desc c) fresh_look
            (refresh_channel-IsWired q desc c w),
        fresh_look,
      )
  upsert_found-IsWired p desc none c found home w =
      let id = itoa_id desc.channel_id in
      let channel = new_text_channel desc p in
      let there : ChannelAt (allocate_channel channel c) c.fresh id =
        (channel, insert_self c.fresh channel c.channel_heap, new_channel-id desc p) in
      (
        register_channel-IsWired p c.fresh id (allocate_channel channel c) there (
            allocate_channel-IsWired channel c
              (subst (λ x. ClanAt c x) (sym (new_channel-clan desc p)) home) w),
        there,
      )

  -- upsertChannel keeps the heap wired, and its result is a channel with the description's id.
  pub upsert_channel-IsWired :
      (p : Address) (desc : ChannelDescription) (c : Client S)
      → ClanAt c p
      → IsWired c
      → let r = upsert_channel p desc c in IsWired r.0 × ChannelAt r.0 r.1 (itoa_id desc.channel_id)
  unfolding upsert_channel
  upsert_channel-IsWired p desc c home w =
      upsert_found-IsWired p desc (cached_channel p (itoa_id desc.channel_id) c) c
        (λ q h. cached_channel-wired p q (itoa_id desc.channel_id) c w h) home w

  -- A clan that newClan makes has no channels.
  pseudo_clan-bare :
      (id : Bytes) (c : Client S) (j : Bytes) → get (pseudo_clan id c).channels j ≡ none
  unfolding pseudo_clan new_clan get new_cache_manager lookup
  pseudo_clan-bare id c j = refl

  -- buildChannel keeps the heap wired, whether the clan of the description is known or not, and its
  -- result is a channel with the description's id.
  pub build_channel-IsWired :
      (desc : ChannelDescription) (c : Client S)
      → IsWired c
      → let r = build_channel desc c in IsWired r.0 × ChannelAt r.0 r.1 (itoa_id desc.channel_id)
  unfolding build_channel
  build_channel-IsWired desc c w =
      let id = itoa_id desc.clan_id in
      elim (Option-cases (get c.clans id)) [
        | inr (p, known) ↦
            rw (known, build_channel) (upsert_channel-IsWired p desc c (w.clans id p known) w)
        | inl unknown ↦
            let clan = pseudo_clan id c in
            rw (unknown, build_channel)
              (upsert_channel-IsWired c.fresh desc (add_clan id clan c) (clan, clan_added c id clan)
                (add_clan-IsWired id clan c (pseudo_clan-bare id c) w))
      ]

  upsert_found-Registered :
      (p : Address) (desc : ChannelDescription) (o : Option Address) (c : Client S)
      → ClanAt c p
      → let r = upsert_found p desc o c in Registered p (itoa_id desc.channel_id) r.1 r.0
  unfolding upsert_found refresh_channel allocate_channel
  upsert_found-Registered p desc (some q) c home =
      register_channel-Registered p q (itoa_id desc.channel_id) (refresh_channel q desc c) home
  upsert_found-Registered p desc none c home =
      register_channel-Registered p c.fresh (itoa_id desc.channel_id)
        (allocate_channel (new_text_channel desc p) c) home

  -- Whether the channel was cached or not, it is then in the cache of the clan and in that of the
  -- client.
  pub upsert_channel-Registered :
      (p : Address) (desc : ChannelDescription) (c : Client S)
      → ClanAt c p
      → let r = upsert_channel p desc c in Registered p (itoa_id desc.channel_id) r.1 r.0
  unfolding upsert_channel
  upsert_channel-Registered p desc c home =
      upsert_found-Registered p desc (cached_channel p (itoa_id desc.channel_id) c) c home

  -- A channel that the clan's cache or the client's has is what upsertChannel returns: the same
  -- object, with its id and its cache of messages, its name as the description has it. It is then
  -- in both caches.
  pub upsert_channel-keeps :
      (p q : Address) (desc : ChannelDescription) (ch : TextChannel) (c : Client S)
      → ClanAt c p
      → cached_channel p (itoa_id desc.channel_id) c ≡ some q
      → lookup q c.channel_heap ≡ some ch
      → let r = upsert_channel p desc c in
        (r.1 ≡ q)
        × Registered p (itoa_id desc.channel_id) q r.0
        × ((ch' : TextChannel) × (lookup q r.0.channel_heap ≡ some ch')
            × (ch'.messages ≡ ch.messages)
            × (ch'.id ≡ ch.id)
            × (ch'.name ≡ desc.channel_label))
  unfolding upsert_channel upsert_found refresh_channel register_channel update_from_desc
  upsert_channel-keeps p q desc ch c home cached there =
      let same = ap (λ o. upsert_found p desc o c) cached in
      (
        ap (λ r. r.1) same,
        subst (λ r. Registered p (itoa_id desc.channel_id) q r.0) (sym same)
            (upsert_found-Registered p desc (some q) c home),
        (
          update_from_desc desc ch,
          ap (λ r. lookup q r.0.channel_heap) same
              ∙ modify_self q (update_from_desc desc) c.channel_heap there,
          refl,
          refl,
          refl,
        ),
      )
