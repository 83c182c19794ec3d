-- ===== src/Client/Events/Deleted.antt =====
-- client_internal.go: a channel that the server has deleted or updated is in no cache any more.
use mezon_sdk_go.Prelude.{
  ℤ, ◌≡◌, refl, sym, subst, ap, ◌∙◌, inl, inr, ◌++◌, Option, none, some, Bytes, lookup, nat_eq,
  bytes_eq, Option-cases,
}
use mezon_sdk_go.Types.{itoa_id}
use mezon_sdk_go.Cache.{CacheManager, get, delete_key}
use mezon_sdk_go.Cache.Entries.{get-delete_key}
use mezon_sdk_go.Entities.{Address, Clan}
use mezon_sdk_go.Client.{Client, Setting, SharedStore, l2_delete, l2_channel_prefix}
use mezon_sdk_go.Client.Heap.{modify_self, modify_absent}
use mezon_sdk_go.Client.Shared.{clan_channel}
use mezon_sdk_go.Client.Lookup.{IsLawful, with_l2}
use mezon_sdk_go.Client.Clans.{drop_clan_channel}
use mezon_sdk_go.Client.Events.{evict_from_clan, on_channel_gone}

get-deleted :
    (cache : CacheManager Bytes Address) (id : Bytes) → get (delete_key cache id).0 id ≡ none
get-deleted cache id = elim (Option-cases (get (delete_key cache id).0 id)) [
  | inl gone ↦ gone
  | inr (q, there) ↦ absurd ((get-delete_key cache id id there).0 refl)
]

module _ {S : Type 0} where
  evict_from_clan-keeps :
      (o : Option Address) (id : Bytes) (c : Client S)
      → let r = evict_from_clan o id c in
        (r.channels ≡ c.channels) × (r.l2 ≡ c.l2) × (r.session ≡ c.session)
  unfolding evict_from_clan
  evict_from_clan-keeps none id c = (refl, refl, refl)
  evict_from_clan-keeps (some p) id c = (refl, refl, refl)

  -- The channel is not in the cache of the clan at this address, if there is one.
  abbrev pub GoneFrom : Option Address → Bytes → Client S → Type 0
  GoneFrom none id c = Unit
  GoneFrom (some p) id c = clan_channel p id c ≡ none

  clan_channel-dropped :
      (p : Address) (o : Option Clan) (id : Bytes) (c : Client S)
      → lookup p c.clan_heap ≡ o
      → clan_channel p id (evict_from_clan (some p) id c) ≡ none
  unfolding evict_from_clan clan_channel drop_clan_channel
  clan_channel-dropped p none id c there =
      ap (λ o. elim o [ none ↦ none | some x ↦ get x.channels id ])
        (modify_absent p p (drop_clan_channel id) c.clan_heap there)
  clan_channel-dropped p (some clan) id c there =
      ap (λ o. elim o [ none ↦ none | some x ↦ get x.channels id ])
        (modify_self p (drop_clan_channel id) c.clan_heap there)
      ∙ get-deleted clan.channels id

  evict_from_clan-GoneFrom :
      (o : Option Address) (id : Bytes) (c : Client S) → GoneFrom o id (evict_from_clan o id c)
  evict_from_clan-GoneFrom none id c = tt
  evict_from_clan-GoneFrom (some p) id c = clan_channel-dropped p (lookup p c.clan_heap) id c refl

  -- The state of the shared store, if there is one, once it is asked to delete the key.
  abbrev pub deleted : Option (SharedStore S) → Bytes → S → S
  deleted none key l2 = l2
  deleted (some store) key l2 = (store.delete l2 key).0

  l2_delete-deleted :
      (env : Setting S) (o : Option (SharedStore S)) (key : Bytes) (c : Client S)
      → env.store ≡ o
      → l2_delete env key c ≡ with_l2 (deleted o key c.l2) c
  unfolding l2_delete
  l2_delete-deleted env none key c h =
      ap (λ o. elim o [ none ↦ c | some x ↦ with_l2 (x.delete c.l2 key).0 c ]) h
  l2_delete-deleted env (some store) key c h =
      ap (λ o. elim o [ none ↦ c | some x ↦ with_l2 (x.delete c.l2 key).0 c ]) h

  -- After the server's notice that a channel was deleted or changed, whatever the shared store is
  -- and does: the channel is not in the client's cache; it is not in the cache of its clan, if that
  -- is known; and the shared store, if there is one, has been asked to delete it.
  pub on_channel_gone-evicts :
      (env : Setting S) (clan_id channel_id : ℤ) (c : Client S)
      → let id = itoa_id channel_id in
        let r = on_channel_gone env clan_id channel_id c in
        (get r.channels id ≡ none)
        × GoneFrom (get c.clans (itoa_id clan_id)) id r
        × (r.l2 ≡ deleted env.store (l2_channel_prefix ++ id) c.l2)
        × (r.session ≡ c.session)
  unfolding on_channel_gone
  on_channel_gone-evicts env clan_id channel_id c =
      let id = itoa_id channel_id in
      let key = l2_channel_prefix ++ id in
      let first : Client S = record c { channels = (delete_key c.channels id).0 } in
      let next = with_l2 (deleted env.store key c.l2) first in
      let o = get c.clans (itoa_id clan_id) in
      let e : on_channel_gone env clan_id channel_id c ≡ evict_from_clan o id next =
        ap (λ after. evict_from_clan (get after.clans (itoa_id clan_id)) id after)
          (l2_delete-deleted env env.store key first refl) in
      let kept = evict_from_clan-keeps o id next in
      (
        ap (λ r. get r.channels id) e
            ∙ ap (λ cache. get cache id) kept.0
            ∙ get-deleted c.channels id,
        subst (GoneFrom o id) (sym e) (evict_from_clan-GoneFrom o id next),
        ap (λ r. r.l2) e ∙ kept.1,
        ap (λ r. r.session) e ∙ kept.2,
      )

  -- A store, if there is one, that is lawful and deletes the key without an error.
  abbrev pub Deletes : Option (SharedStore S) → Bytes → S → Type 0
  Deletes none key l2 = Unit
  Deletes (some store) key l2 = IsLawful store × ((store.delete l2 key).1 ≡ none)
