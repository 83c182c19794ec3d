-- ===== src/Client/Connect/Joins.antt =====
-- client.go: the start of a connection keeps the heap wired.
use mezon_sdk_go.Prelude.{
  ℕ, zero, suc, pos, ◌≡◌, refl, inl, inr, List, [], ◌∷◌, Option, none, some, Bytes, codes, nat_eq,
  bytes_eq, same_bytes, lookup, Bool-cases,
}
use mezon_sdk_go.Errors.{Error, Result, ok, err}
use mezon_sdk_go.Cache.{get, new_cache_manager}
use mezon_sdk_go.Rest.{Target}
use mezon_sdk_go.Rest.Call.{Net}
use mezon_sdk_go.Rest.Endpoints.{list_clan_descs}
use mezon_sdk_go.Socket.Write.{Exchange, join_clan_chat}
use mezon_sdk_go.Entities.{Address, or_string}
use mezon_sdk_go.Entities.Channels.{new_clan, update_clan_from_desc}
use mezon_sdk_go.Client.{Client, Setting}
use mezon_sdk_go.Client.Shared.{init_dm_channel_cache}
use mezon_sdk_go.Client.Wiring.{IsWired, add_clan-IsWired}
use mezon_sdk_go.Client.Fetched.{with_api-IsWired, cache_dm_channels-IsWired}
use mezon_sdk_go.Client.Clans.{with_api, reload_channels}
use mezon_sdk_go.Client.Messages.{on_socket}
use mezon_sdk_go.Client.Dm.{use_socket, init_all_dm_channels}
use mezon_sdk_go.Client.Connect.{
  ClanDesc, ClanInfo, Visit, clan_list, ensure_found, ensure_clans, join_clan, join_reloaded,
  init_found, init_clan, init_round, retry_rounds, join_listed, connect_socket, init_dms,
  post_connect_init,
}
use mezon_sdk_go.Client.Dm.Noted.{init_all_dm_channels-IsWired}
use mezon_sdk_go.Client.Merged.{modify_clan-IsWired, reload_channels-IsWired}

new_clan-bare :
    (id name welcome clan_name client_id token j : Bytes)
    → get (new_clan id name welcome clan_name client_id token).channels j ≡ none
unfolding new_clan get new_cache_manager lookup
new_clan-bare id name welcome clan_name client_id token j = refl

module _ {S : Type 0} where
  ensure_found-IsWired :
      (cl : ClanInfo) (token : Bytes) (o : Option Address) (c : Client S)
      → IsWired c
      → IsWired (ensure_found cl token o c)
  unfolding ensure_found update_clan_from_desc
  ensure_found-IsWired cl token (some p) c w =
      modify_clan-IsWired p (update_clan_from_desc cl.name cl.welcome token) c (λ clan id q h. h) w
  ensure_found-IsWired cl token none c w =
      add_clan-IsWired cl.id
        (new_clan cl.id (or_string cl.name (codes "unknown")) cl.welcome cl.name c.client_id token)
        c
        (new_clan-bare cl.id (or_string cl.name (codes "unknown")) cl.welcome cl.name c.client_id
          token)
        w

  ensure_clans-IsWired :
      (list : List ClanInfo) (token : Bytes) (c : Client S)
      → IsWired c
      → IsWired (ensure_clans list token c)
  unfolding ensure_clans
  ensure_clans-IsWired [] token c w = w
  ensure_clans-IsWired (cl ∷ list) token c w =
      ensure_clans-IsWired list token (ensure_found cl token (get c.clans cl.id) c)
        (ensure_found-IsWired cl token (get c.clans cl.id) c w)

  join_clan-IsWired :
      (x : Exchange) (id : Bytes) (c : Client S) → IsWired c → IsWired (join_clan x id c).0
  unfolding join_clan on_socket with_api
  join_clan-IsWired x id c w = with_api-IsWired (use_socket (join_clan_chat x id) c.api).0 c w

  join_reloaded-IsWired :
      (x : Exchange) (id : Bytes) (r : Client S × Option Error)
      → IsWired r.0
      → IsWired (join_reloaded x id r).0
  unfolding join_reloaded
  join_reloaded-IsWired x id (c, some e) w = w
  join_reloaded-IsWired x id (c, none) w = join_clan-IsWired x id c w

  init_found-IsWired :
      (env : Setting S) (v : Visit) (id : Bytes) (o : Option Address) (c : Client S)
      → IsWired c
      → IsWired (init_found env v id o c).0
  unfolding init_found
  init_found-IsWired env v id none c w = w
  init_found-IsWired env v id (some p) c w =
      join_reloaded-IsWired v.joining id (reload_channels env v.net p c)
        (reload_channels-IsWired env v.net p c w)

  init_clan-IsWired :
      (env : Setting S) (v : Visit) (id : Bytes) (c : Client S)
      → IsWired c
      → IsWired (init_clan env v id c).0
  unfolding init_clan
  init_clan-IsWired env v id c w = elim (Bool-cases (same_bytes id (codes "0"))) [
    | inl pseudo ↦ rw pseudo (join_clan-IsWired v.joining id c w)
    | inr real ↦ rw real (init_found-IsWired env v id (get c.clans id) c w)
  ]

  init_round-IsWired :
      (env : Setting S) (visit : Bytes → Visit) (list : List ClanInfo) (c : Client S)
      → IsWired c
      → IsWired (init_round env visit list c).0
  unfolding init_round
  init_round-IsWired env visit [] c w = w
  init_round-IsWired env visit (cl ∷ list) c w =
      init_round-IsWired env visit list (init_clan env (visit cl.id) cl.id c).0
        (init_clan-IsWired env (visit cl.id) cl.id c w)

  retry_rounds-IsWired :
      (env : Setting S) (visit : ℕ → Bytes → Visit) (left attempt : ℕ)
      (r : Client S × List ClanInfo)
      → IsWired r.0
      → IsWired (retry_rounds env visit left attempt r).0
  unfolding retry_rounds
  retry_rounds-IsWired env visit zero attempt (c, failed) w = w
  retry_rounds-IsWired env visit (suc left) attempt (c, []) w = w
  retry_rounds-IsWired env visit (suc left) attempt (c, cl ∷ failed) w =
      retry_rounds-IsWired env visit left (suc attempt)
        (init_round env (visit attempt) (cl ∷ failed) c)
        (init_round-IsWired env (visit attempt) (cl ∷ failed) c w)

  join_listed-IsWired :
      (env : Setting S) (visit : ℕ → Bytes → Visit) (token : Bytes) (r : Result (List ClanDesc))
      (c : Client S)
      → IsWired c
      → IsWired (join_listed env visit token r c).0
  unfolding join_listed
  join_listed-IsWired env visit token (err e) c w = w
  join_listed-IsWired env visit token (ok clans) c w =
      let list = clan_list clans in
      let start = ensure_clans list token c in
      retry_rounds-IsWired env visit 5 1 (init_round env (visit 0) list start)
        (init_round-IsWired env (visit 0) list start (ensure_clans-IsWired list token c w))

  init_dms-IsWired :
      (env : Setting S) (net : Net) (token : Bytes) (r : Client S × Option Error)
      → IsWired r.0
      → IsWired (init_dms env net token r).0
  unfolding init_dms init_dm_channel_cache
  init_dms-IsWired env net token (c, some e) w = w
  init_dms-IsWired env net token (c, none) w =
      let after = (init_all_dm_channels env net token c).0 in
      cache_dm_channels-IsWired after.dm_descs after
        (init_all_dm_channels-IsWired env net token c w)

  -- The work after a connection or a reconnection keeps the heap wired, whatever the server
  -- answers, whichever clans fail and however often they are tried: listing the clans, refreshing
  -- or making their objects, loading their channels, joining them, and caching the direct channels.
  pub post_connect_init-IsWired :
      (env : Setting S) (target : Target (List ClanDesc)) (net : Net) (visit : ℕ → Bytes → Visit)
      (dm_net : Net) (token : Bytes) (c : Client S)
      → IsWired c
      → IsWired (post_connect_init env target net visit dm_net token c).0
  unfolding post_connect_init connect_socket with_api
  post_connect_init-IsWired env target net visit dm_net token c w =
      let r = list_clan_descs net env.marshal target token (pos 0) (pos 0) [] c.api in
      init_dms-IsWired env dm_net token (join_listed env visit token r.1 (record c { api = r.0 })) (
        join_listed-IsWired env visit token r.1 (record c { api = r.0 }) (with_api-IsWired r.0 c w))
