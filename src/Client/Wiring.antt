-- ===== src/Client/Wiring.antt =====
-- sharedcache.go, the heap of a client: what the caches refer to is there, under the key's id, and
-- every channel has its clan.
use mezon_sdk_go.Prelude.{
  ◌≡◌, ◌≢◌, ◌≤◌, sym, ap, subst, ◌∙◌, inl, inr, none, some, arith, nat_eq, bytes_eq, ==_iff, lookup,
  lookup-insert, Bytes,
}
use mezon_sdk_go.Cache.{CacheManager, get, set}
use mezon_sdk_go.Cache.Entries.{get-set_cases}
use mezon_sdk_go.Entities.{Address, TextChannel, Clan, ChannelDescription}
use mezon_sdk_go.Entities.Channels.{update_from_desc}
use mezon_sdk_go.Client.{Client, modify}
use mezon_sdk_go.Client.Heap.{
  modify_cases, modify_keeps, modify_absent, insert_cases, insert_self, insert_other,
}
use mezon_sdk_go.Client.Shared.{
  set_clan_channel, register_channel, refresh_channel, allocate_channel, add_clan,
}

module _ {S : Type 0} where
  -- The object at an address is a channel with this id.
  abbrev pub ChannelAt : Client S → Address → Bytes → Type 0
  ChannelAt c q id = (ch : TextChannel) × (lookup q c.channel_heap ≡ some ch) × (ch.id ≡ id)

  abbrev pub ClanAt : Client S → Address → Type 0
  ClanAt c p = (clan : Clan) × (lookup p c.clan_heap ≡ some clan)

  pub record IsWired (c : Client S) : Type 0 where
    pub clans : (id : Bytes) (p : Address) → get c.clans id ≡ some p → ClanAt c p
    pub channels : (id : Bytes) (q : Address) → get c.channels id ≡ some q → ChannelAt c q id
    pub clan_channels :
        (p : Address) (clan : Clan) (id : Bytes) (q : Address)
        → lookup p c.clan_heap ≡ some clan
        → get clan.channels id ≡ some q
        → ChannelAt c q id
    pub homes :
        (q : Address) (ch : TextChannel) → lookup q c.channel_heap ≡ some ch → ClanAt c ch.clan
    pub fresh :
        (p : Address)
        → c.fresh ≤ p
        → (lookup p c.clan_heap ≡ none) × (lookup p c.channel_heap ≡ none)

  -- An entry of a cache of channels after one was set.
  entry_after :
      (c : Client S) (cache : CacheManager Bytes Address) (id j : Bytes) (q r : Address)
      → ChannelAt c q id
      → (get cache j ≡ some r → ChannelAt c r j)
      → get (set cache id q) j ≡ some r
      → ChannelAt c r j
  entry_after c cache id j q r new old h = elim (get-set_cases cache id j q h) [
    | inl e ↦ subst (λ x. ChannelAt c x j) e.1 (subst (λ x. ChannelAt c q x) e.0 new)
    | inr before ↦ old before
  ]

  clan_entry_after :
      (c : Client S) (p r : Address) (id j : Bytes) (q s : Address) (clan : Clan)
      → ChannelAt c q id
      → IsWired c
      → lookup r (modify p (set_clan_channel id q) c.clan_heap) ≡ some clan
      → get clan.channels j ≡ some s
      → ChannelAt c s j
  unfolding set_clan_channel
  clan_entry_after c p r id j q s clan new w there h =
      let was = modify_cases p r (set_clan_channel id q) c.clan_heap there in
      let old = w.clan_channels r was.0 j s was.1 in
      elim was.2 [
        | inl same ↦ old (subst (λ x. get x.channels j ≡ some s) same h)
        | inr hit ↦
            entry_after c was.0.channels id j q s new old
              (subst (λ x. get x.channels j ≡ some s) hit.1 h)
      ]

  -- The two writes of the caches keep what is wired.
  pub register_channel-IsWired :
      (p q : Address) (id : Bytes) (c : Client S)
      → ChannelAt c q id
      → IsWired c
      → IsWired (register_channel p id q c)
  unfolding register_channel
  register_channel-IsWired p q id c new w = record {
    clans = λ j r h.
        let old = w.clans j r h in
        let kept = modify_keeps p r (set_clan_channel id q) c.clan_heap old.1 in (kept.0, kept.1);
    channels = λ j r h. entry_after c c.channels id j q r new (w.channels j r) h;
    clan_channels = λ r clan j s there h. clan_entry_after c p r id j q s clan new w there h;
    homes = λ r ch h.
        let old = w.homes r ch h in
        let kept = modify_keeps p ch.clan (set_clan_channel id q) c.clan_heap old.1 in
        (kept.0, kept.1);
    fresh = λ r h.
        let old = w.fresh r h in
        (modify_absent p r (set_clan_channel id q) c.clan_heap old.0, old.1);
  }

  -- A description changes neither the id nor the clan of a channel.
  pub refreshed :
      (c : Client S) (p q : Address) (desc : ChannelDescription) (id : Bytes)
      → ChannelAt c q id
      → ChannelAt (refresh_channel p desc c) q id
  unfolding refresh_channel update_from_desc
  refreshed c p q desc id (ch, there, same) =
      let kept = modify_keeps p q (update_from_desc desc) c.channel_heap there in
      elim kept.2 [
        | inl e ↦ (kept.0, kept.1, ap (λ x. x.id) e ∙ same)
        | inr e ↦ (kept.0, kept.1, ap (λ x. x.id) e.1 ∙ same)
      ]

  pub refresh_channel-IsWired :
      (q : Address) (desc : ChannelDescription) (c : Client S)
      → IsWired c
      → IsWired (refresh_channel q desc c)
  unfolding refresh_channel update_from_desc
  refresh_channel-IsWired q desc c w = record {
    clans = w.clans;
    channels = λ j r h. refreshed c q r desc j (w.channels j r h);
    clan_channels =
        λ r clan j s there h. refreshed c q s desc j (w.clan_channels r clan j s there h);
    homes = λ r ch h.
        let was = modify_cases q r (update_from_desc desc) c.channel_heap h in
        let home = w.homes r was.0 was.1 in
        elim was.2 [
          | inl e ↦ subst (λ x. ClanAt c x.clan) (sym e) home
          | inr e ↦ subst (λ x. ClanAt c x.clan) (sym e.1) home
        ];
    fresh = λ r h.
        let old = w.fresh r h in
        (old.0, modify_absent q r (update_from_desc desc) c.channel_heap old.1);
  }

  allocated :
      (c : Client S) (channel : TextChannel) (q : Address) (id : Bytes)
      → IsWired c
      → ChannelAt c q id
      → ChannelAt (allocate_channel channel c) q id
  unfolding allocate_channel
  allocated c channel q id w (ch, there, same) =
      let old : c.fresh ≢ q = λ e. absurd (ground (arith, w.fresh q)) in
      (ch, ground (arith, lookup-insert c.fresh q channel c.channel_heap, ==_iff c.fresh q), same)

  pub allocate_channel-IsWired :
      (channel : TextChannel) (c : Client S)
      → ClanAt c channel.clan
      → IsWired c
      → IsWired (allocate_channel channel c)
  unfolding allocate_channel
  allocate_channel-IsWired channel c home w = record {
    clans = w.clans;
    channels = λ j r h. allocated c channel r j w (w.channels j r h);
    clan_channels =
        λ r clan j s there h. allocated c channel s j w (w.clan_channels r clan j s there h);
    homes = λ r ch h. elim (insert_cases c.fresh r channel c.channel_heap h) [
      | inl e ↦ subst (λ x. ClanAt c x.clan) e home
      | inr before ↦ w.homes r ch before
    ];
    fresh = λ r h.
        let old = w.fresh r (omega arith) in
        (old.0, insert_other c.fresh r channel c.channel_heap (omega arith) ∙ old.1);
  }

  -- A clan that was there is there after another one was added.
  clan_kept :
      (c : Client S) (id : Bytes) (clan : Clan) (p : Address)
      → IsWired c
      → ClanAt c p
      → ClanAt (add_clan id clan c) p
  unfolding add_clan
  clan_kept c id clan p w (old, there) =
      let other : c.fresh ≢ p = λ e. absurd (ground (arith, w.fresh p)) in
      (old, insert_other c.fresh p clan c.clan_heap other ∙ there)

  pub clan_added :
      (c : Client S) (id : Bytes) (clan : Clan)
      → lookup c.fresh (add_clan id clan c).clan_heap ≡ some clan
  unfolding add_clan
  clan_added c id clan = insert_self c.fresh clan c.clan_heap

  -- A clan with no channels yet.
  pub add_clan-IsWired :
      (id : Bytes) (clan : Clan) (c : Client S)
      → ((j : Bytes) → get clan.channels j ≡ none)
      → IsWired c
      → IsWired (add_clan id clan c)
  unfolding add_clan
  add_clan-IsWired id clan c bare w = record {
    clans = λ j r h. elim (get-set_cases c.clans id j c.fresh h) [
      | inl e ↦ subst (λ x. ClanAt (add_clan id clan c) x) e.1 (clan, clan_added c id clan)
      | inr before ↦ clan_kept c id clan r w (w.clans j r before)
    ];
    channels = w.channels;
    clan_channels = λ r other j s there h. elim (insert_cases c.fresh r clan c.clan_heap there) [
      | inl e ↦ let nothing = bare j in absurd (ground (arith, e))
      | inr before ↦ w.clan_channels r other j s before h
    ];
    homes = λ r ch h. clan_kept c id clan ch.clan w (w.homes r ch h);
    fresh = λ r h.
        let old = w.fresh r (omega arith) in
        (insert_other c.fresh r clan c.clan_heap (omega arith) ∙ old.0, old.1);
  }
