-- ===== src/Client/Connect.antt =====
-- client.go: connectSocket and postConnectInit. A clan that cannot be joined is tried again, in at
-- most five more rounds; `visit attempt id` is what an attempt meets.
pub mod Joins
use mezon_sdk_go.Prelude.{
  ℕ, zero, suc, ◌+◌, ℤ, pos, List, [], ◌∷◌, ◌++◌, map, Option, none, some, Bool, true, false,
  if◌then◌else◌, Bytes, codes, lookup, nat_eq, bytes_eq, same_bytes,
}
use mezon_sdk_go.Errors.{Error, err_text, Result, ok, err}
use mezon_sdk_go.Types.{itoa_id}
use mezon_sdk_go.Cache.{get}
use mezon_sdk_go.Socket.{Ref}
use mezon_sdk_go.Socket.Write.{Exchange, join_clan_chat, error_text}
use mezon_sdk_go.Rest.{Target}
use mezon_sdk_go.Rest.Call.{Net}
use mezon_sdk_go.Rest.Endpoints.{list_clan_descs}
use mezon_sdk_go.Entities.{Address, Clan, or_string}
use mezon_sdk_go.Entities.Channels.{new_clan, update_clan_from_desc}
use mezon_sdk_go.Client.{Client, Setting, modify}
use mezon_sdk_go.Client.Shared.{add_clan, init_dm_channel_cache}
use mezon_sdk_go.Client.Clans.{with_api, reload_channels}
use mezon_sdk_go.Client.Dm.{init_all_dm_channels}
use mezon_sdk_go.Client.Messages.{on_socket}

-- api.ClanDesc
pub record ClanDesc : Type 0 where
  pub clan_id : ℤ
  pub clan_name : Bytes
  pub welcome_channel_id : ℤ

pub record ClanInfo : Type 0 where
  pub id : Bytes
  pub name : Bytes
  pub welcome : Bytes

unfoldable pub info_of : ClanDesc → ClanInfo
info_of cl = record {
  id = itoa_id cl.clan_id;
  name = cl.clan_name;
  welcome = itoa_id cl.welcome_channel_id;
}

-- The pseudo-clan "0" goes first.
unfoldable pub clan_list : List ClanDesc → List ClanInfo
clan_list clans = record { id = codes "0"; name = []; welcome = [] } ∷ map info_of clans

-- What listing a clan's channels and joining its chat meet.
pub record Visit : Type 0 where
  pub net : Net
  pub joining : Exchange

unfoldable pub succeeded : {A : Type 0} → Result A → Bool
succeeded (ok a) = true
succeeded (err e) = false

unfoldable pub note_failed : ClanInfo → Bool → List ClanInfo → List ClanInfo
note_failed cl true failed = failed
note_failed cl false failed = cl ∷ failed

unfoldable pub list_error : Error → Error
list_error e = err_text (codes "listClanDescs failed: " ++ error_text e)

module _ {S : Type 0} where
  unfoldable pub ensure_found : ClanInfo → Bytes → Option Address → Client S → Client S
  ensure_found cl token (some p) c = record c {
    clan_heap = modify p (update_clan_from_desc cl.name cl.welcome token) c.clan_heap;
  }
  ensure_found cl token none c =
      add_clan cl.id
        (new_clan cl.id (or_string cl.name (codes "unknown")) cl.welcome cl.name c.client_id token)
        c

  -- The clan objects, refreshed in place or made.
  unfoldable pub ensure_clans : List ClanInfo → Bytes → Client S → Client S
  ensure_clans [] token c = c
  ensure_clans (cl ∷ list) token c =
      ensure_clans list token (ensure_found cl token (get c.clans cl.id) c)

  unfoldable pub join_clan : Exchange → Bytes → Client S → Client S × Bool
  join_clan x id c = let r = on_socket (join_clan_chat x id) c in (r.0, succeeded r.1)

  unfoldable pub join_reloaded : Exchange → Bytes → Client S × Option Error → Client S × Bool
  join_reloaded x id (c, some e) = (c, false)
  join_reloaded x id (c, none) = join_clan x id c

  unfoldable pub init_found :
      Setting S → Visit → Bytes → Option Address → Client S → Client S × Bool
  init_found env v id none c = (c, false)
  init_found env v id (some p) c = join_reloaded v.joining id (reload_channels env v.net p c)

  -- initClan
  unfoldable pub init_clan : Setting S → Visit → Bytes → Client S → Client S × Bool
  init_clan env v id c =
      if same_bytes id (codes "0")
      then join_clan v.joining id c
      else init_found env v id (get c.clans id) c

  -- One round over the clans: those that fail, in their order.
  unfoldable pub init_round :
      Setting S → (Bytes → Visit) → List ClanInfo → Client S → Client S × List ClanInfo
  init_round env visit [] c = (c, [])
  init_round env visit (cl ∷ list) c =
      let r = init_clan env (visit cl.id) cl.id c in
      let rest = init_round env visit list r.0 in (rest.0, note_failed cl r.1 rest.1)

  -- `left` more rounds, from the attempt number `attempt` on, while clans have failed.
  unfoldable pub retry_rounds :
      Setting S → (ℕ → Bytes → Visit) → ℕ → ℕ → Client S × List ClanInfo → Client S × List ClanInfo
  retry_rounds env visit zero attempt (c, failed) = (c, failed)
  retry_rounds env visit (suc left) attempt (c, []) = (c, [])
  retry_rounds env visit (suc left) attempt (c, cl ∷ failed) =
      retry_rounds env visit left (suc attempt) (init_round env (visit attempt) (cl ∷ failed) c)

  unfoldable pub join_listed :
      Setting S
      → (ℕ → Bytes → Visit)
      → Bytes
      → Result (List ClanDesc)
      → Client S
      → Client S × Option Error
  join_listed env visit token (err e) c = (c, some (list_error e))
  join_listed env visit token (ok clans) c =
      let list = clan_list clans in
      let first = init_round env (visit 0) list (ensure_clans list token c) in
      ((retry_rounds env visit 5 1 first).0, none)

  unfoldable pub connect_socket :
      Setting S
      → Target (List ClanDesc)
      → Net
      → (ℕ → Bytes → Visit)
      → Bytes
      → Client S
      → Client S × Option Error
  connect_socket env target net visit token c =
      let r = list_clan_descs net env.marshal target token (pos 0) (pos 0) [] c.api in
      join_listed env visit token r.1 (with_api r.0 c)

  unfoldable pub init_dms :
      Setting S → Net → Bytes → Client S × Option Error → Client S × Option Error
  init_dms env dm_net token (c, some e) = (c, some e)
  init_dms env dm_net token (c, none) =
      (init_dm_channel_cache (init_all_dm_channels env dm_net token c).0, none)

  unfoldable pub post_connect_init :
      Setting S
      → Target (List ClanDesc)
      → Net
      → (ℕ → Bytes → Visit)
      → Net
      → Bytes
      → Client S
      → Client S × Option Error
  post_connect_init env target net visit dm_net token c =
      init_dms env dm_net token (connect_socket env target net visit token c)
