-- ===== src/Client/Dm/Noted.antt =====
-- channelmanager.go: discovering direct channels keeps the heap wired.
use mezon_sdk_go.Prelude.{
  ◌||◌, not, insert, ◌++◌, ℤ, pos, inl, inr, List, [], ◌∷◌, false, Bytes, nat_eq, bytes_eq,
  Bool-cases,
}
use mezon_sdk_go.Errors.{Result, ok, err}
use mezon_sdk_go.Types.{itoa_id}
use mezon_sdk_go.Rest.Call.{Net}
use mezon_sdk_go.Rest.Endpoints.{list_channel_descs}
use mezon_sdk_go.Entities.{ChannelDescription, is_zero}
use mezon_sdk_go.Client.{Client, Setting}
use mezon_sdk_go.Client.Wiring.{IsWired}
use mezon_sdk_go.Client.Fetched.{with_api-IsWired}
use mezon_sdk_go.Client.Clans.{with_api}
use mezon_sdk_go.Client.Dm.{init_all_dm_channels, take_dms, note_dms, note_dm_as, is_dm_type}

module _ {S : Type 0} where
  with_dms-IsWired :
      (by_user : List (Bytes × Bytes)) (descs : List ChannelDescription) (c : Client S)
      → IsWired c
      → IsWired (record c { dm_by_user = by_user; dm_descs = descs })
  with_dms-IsWired by_user descs c w = record {
    clans = w.clans;
    channels = w.channels;
    clan_channels = w.clan_channels;
    homes = w.homes;
    fresh = w.fresh;
  }

  note_dm_as-IsWired :
      (ch : ChannelDescription) (users : List ℤ) (c : Client S)
      → IsWired c
      → IsWired (note_dm_as ch users c)
  unfolding note_dm_as
  note_dm_as-IsWired ch [] c w = w
  note_dm_as-IsWired ch (user ∷ users) c w =
      elim (Bool-cases (is_zero ch.channel_id || not (is_dm_type ch.type))) [
        | inl skip ↦ rw skip w
        | inr noted ↦ rw noted (
            with_dms-IsWired (insert (itoa_id user) (itoa_id ch.channel_id) c.dm_by_user)
              (c.dm_descs ++ (ch ∷ [])) c w)
      ]

  note_dms-IsWired :
      (chs : List ChannelDescription) (c : Client S) → IsWired c → IsWired (note_dms chs c)
  unfolding note_dms
  note_dms-IsWired [] c w = w
  note_dms-IsWired (ch ∷ chs) c w =
      note_dms-IsWired chs (note_dm_as ch ch.user_ids c) (note_dm_as-IsWired ch ch.user_ids c w)

  take_dms-IsWired :
      (r : Result (List ChannelDescription)) (c : Client S) → IsWired c → IsWired (take_dms r c).0
  unfolding take_dms
  take_dms-IsWired (err e) c w = w
  take_dms-IsWired (ok chs) c w =
      note_dms-IsWired chs (record c { dm_by_user = []; dm_descs = [] })
        (with_dms-IsWired [] [] c w)

  pub init_all_dm_channels-IsWired :
      (env : Setting S) (net : Net) (token : Bytes) (c : Client S)
      → IsWired c
      → IsWired (init_all_dm_channels env net token c).0
  unfolding init_all_dm_channels with_api
  init_all_dm_channels-IsWired env net [] c w = w
  init_all_dm_channels-IsWired env net (t ∷ token) c w =
      let r =
        list_channel_descs net env.marshal env.desc_list_target (t ∷ token) (pos 3) [] (pos 0)
          (pos 0) [] false c.api in
      take_dms-IsWired r.1 (record c { api = r.0 }) (with_api-IsWired r.0 c w)
