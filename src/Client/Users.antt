-- ===== src/Client/Users.antt =====
-- user.go, with the lookup of a sender in message.go: c.Users.Fetch, User.SendDM and Message.Reply.
-- The requests of one operation meet different networks, which are given apart.
pub mod Created
pub mod Opened
use mezon_sdk_go.Prelude.{
  ℤ, pos, List, [], ◌∷◌, ◌++◌, Option, none, some, false, Bytes, codes, lookup, nat_eq, bytes_eq,
}
use mezon_sdk_go.Errors.{Error, err_not_found, err_text, Result, ok, err}
use mezon_sdk_go.Types.{Attachment, itoa_id}
use mezon_sdk_go.Helper.{channel_type_dm, stream_mode_dm}
use mezon_sdk_go.Cache.{get, set}
use mezon_sdk_go.Socket.{Ref}
use mezon_sdk_go.Socket.Data.{ReplyMessageData}
use mezon_sdk_go.Socket.Write.{Exchange, Exchanges}
use mezon_sdk_go.Socket.Messages.{write_chat_message}
use mezon_sdk_go.Rest.Call.{Net}
use mezon_sdk_go.Entities.{Address, Message, TextChannel, User, ChannelDescription}
use mezon_sdk_go.Entities.Channels.{SendOptions}
use mezon_sdk_go.Client.{Client, Setting, modify}
use mezon_sdk_go.Client.Shared.{cache_dm_channel, channels_fetch}
use mezon_sdk_go.Client.Dm.{create_dm_channel, fetch_user}
use mezon_sdk_go.Client.Messages.{Contents, acked, on_socket, create_message_from_ack, reply}

unfoldable pub set_dm : Bytes → User → User
set_dm id u = record u { dm_channel_id = id }

unfoldable pub id_of : Option User → Bytes
id_of none = []
id_of (some u) = u.id

unfoldable pub dm_id_of : Option User → Bytes
dm_id_of none = []
dm_id_of (some u) = u.dm_channel_id

unfoldable pub no_dm : Bytes → Error
no_dm id = err_text (codes "can not get dmChannelId for user " ++ id)

unfoldable pub dm_data : Bytes → Option Ref → ℤ → List Attachment → ReplyMessageData
dm_data dm_id content code attachments = record {
  clan_id = codes "0";
  channel_id = dm_id;
  channel_type = pos channel_type_dm;
  mode = pos stream_mode_dm;
  is_public = false;
  content = content;
  mentions = [];
  attachments = attachments;
  references = [];
  anonymous_message = false;
  mention_everyone = false;
  avatar = [];
  code = code;
  topic_id = [];
}

module _ {S : Type 0} where
  -- c.Users.Fetch: a miss calls fetchUser, and caches what it gives.
  unfoldable pub user_fetched : Bytes → Client S × Result Address → Client S × Result Address
  user_fetched id (c, err e) = (c, err e)
  user_fetched id (c, ok u) = (record c { users = set c.users id u }, ok u)

  unfoldable pub users_fetch :
      Setting S → Net → Exchange → Bytes → Client S → Client S × Result Address
  users_fetch env net x id c = elim (get c.users id) [
    | some u ↦ (c, ok u)
    | none ↦ user_fetched id (fetch_user env net x id c)
  ]

  unfoldable pub user_of : Result Address → Client S → Option User
  user_of (err e) c = none
  user_of (ok u) c = lookup u c.user_heap

  -- Message.Reply: the sender is looked up first, and left out where that fails.
  unfoldable pub reply_message :
      Setting S
      → Net
      → Exchange
      → Contents
      → Exchanges
      → Message
      → TextChannel
      → Option Ref
      → Option SendOptions
      → Client S
      → Client S × Result Address
  reply_message env net x contents xs m ch content opts c =
      let r = users_fetch env net x m.sender_id c in
      reply contents xs m ch (user_of r.1 r.0) content opts r.0

  -- The user at the address `u` gets the channel, which is cached.
  unfoldable pub note_opened : Address → Client S × Result ChannelDescription → Client S
  note_opened u (c, err e) = c
  note_opened u (c, ok ch) =
      (cache_dm_channel ch
        (record c { user_heap = modify u (set_dm (itoa_id ch.channel_id)) c.user_heap })).0

  -- `if u.DmChannelID == ""`
  unfoldable pub open_dm :
      Setting S → Net → Exchange → Address → Bytes → Bytes → Client S → Client S
  open_dm env net x u id [] c = note_opened u (create_dm_channel env net x id c)
  open_dm env net x u id (b ∷ dm_id) c = c

  unfoldable pub dm_message :
      Contents
      → Option Ref
      → ReplyMessageData
      → Client S × Result Address
      → Client S × Result Address
  dm_message contents ref d (c, err e) = (c, err e)
  dm_message contents ref d (c, ok q) = elim (lookup q c.channel_heap) [
    -- No object is freed, so that this is not met.
    | none ↦ (c, err err_not_found)
    | some ch ↦
        let r = create_message_from_ack contents q ch (acked contents ref) d c in (r.0, ok r.1)
  ]

  unfoldable pub dm_sent :
      Setting S
      → Net
      → Contents
      → ReplyMessageData
      → Client S × Result (Option Ref)
      → Client S × Result Address
  dm_sent env net contents d (c, err e) = (c, err e)
  dm_sent env net contents d (c, ok ref) =
      dm_message contents ref d (channels_fetch env net d.channel_id c)

  unfoldable pub send_to_dm :
      Setting S
      → Net
      → Contents
      → Exchanges
      → Bytes
      → Bytes
      → Option Ref
      → ℤ
      → List Attachment
      → Client S
      → Client S × Result Address
  send_to_dm env net contents xs id [] content code attachments c = (c, err (no_dm id))
  send_to_dm env net contents xs id (b ∷ dm_id) content code attachments c =
      let d = dm_data (b ∷ dm_id) content code attachments in
      dm_sent env net contents d (on_socket (write_chat_message contents.marshal xs d) c)

  -- SendDM of the user at the address `u`: `net` is met by the opening of the channel, `later` by
  -- its lookup.
  unfoldable pub send_dm :
      Setting S
      → Net
      → Net
      → Exchange
      → Contents
      → Exchanges
      → Address
      → Option Ref
      → ℤ
      → List Attachment
      → Client S
      → Client S × Result Address
  send_dm env net later x contents xs u content code attachments c =
      let id = id_of (lookup u c.user_heap) in
      let c' = open_dm env net x u id (dm_id_of (lookup u c.user_heap)) c in
      send_to_dm env later contents xs id (dm_id_of (lookup u c'.user_heap)) content code
        attachments c'
