-- ===== src/Client/Users/Opened.antt =====
-- user.go, SendDM: where the message to a user without a direct channel goes.
use mezon_sdk_go.Prelude.{◌≡◌, List, some, false, Bytes, lookup, nat_eq, bytes_eq}
use mezon_sdk_go.Errors.{ok}
use mezon_sdk_go.Types.{itoa_id}
use mezon_sdk_go.Cache.{get}
use mezon_sdk_go.Entities.{Address, User, ChannelDescription, is_zero}
use mezon_sdk_go.Client.{Client, modify}
use mezon_sdk_go.Client.Wiring.{ChannelAt, IsWired}
use mezon_sdk_go.Client.Shared.{cache_dm_channel}
use mezon_sdk_go.Client.Users.{set_dm, note_opened}
use mezon_sdk_go.Client.Users.Created.{build_channel-cached}

module _ {S : Type 0} where
  -- The user has the channel with this id, which the client has cached.
  abbrev pub Opened : Address → User → Bytes → Client S → Type 0
  Opened u user id c =
      (lookup u c.user_heap ≡ some (set_dm id user))
      × ((q : Address) × (get c.channels id ≡ some q) × ChannelAt c q id)

  with_users-IsWired :
      (users : List (Address × User)) (c : Client S)
      → IsWired c
      → IsWired (record c { user_heap = users })
  with_users-IsWired users c w = record {
    clans = w.clans;
    channels = w.channels;
    clan_channels = w.clan_channels;
    homes = w.homes;
    fresh = w.fresh;
  }

  -- The socket is as CreateDMChannel leaves it.
  pub note_opened-api :
      (u : Address) (ch : ChannelDescription) (c : Client S)
      → is_zero ch.channel_id ≡ false
      → IsWired c
      → (note_opened u (c, ok ch)).api ≡ c.api
  unfolding note_opened cache_dm_channel
  note_opened-api u ch c valid w =
      let users = modify u (set_dm (itoa_id ch.channel_id)) c.user_heap in
      rw (valid, note_opened, cache_dm_channel)
        (build_channel-cached ch (record c { user_heap = users }) (with_users-IsWired users c w)).2
