-- ===== src/Client/Messages.antt =====
-- channel.go, message.go and user.go: messages sent, answered, changed and removed through the
-- socket, and the cache of a channel. A method is the task that it hands to the queue, when it
-- runs. `marshal` is marshalContent, `raw` the same text as bytes, `ack_at` the acknowledgement's
-- fields.
use mezon_sdk_go.Prelude.{
  suc, ℤ, List, [], ◌∷◌, Option, none, some, Bytes, lookup, insert, nat_eq, bytes_eq,
}
use mezon_sdk_go.Errors.{Result, ok, err}
use mezon_sdk_go.Types.{Mention, Attachment}
use mezon_sdk_go.Utf16.{Runes}
use mezon_sdk_go.Cache.{set}
use mezon_sdk_go.Socket.{Ref}
use mezon_sdk_go.Socket.Sending.{Sender}
use mezon_sdk_go.Socket.Data.{ReplyMessageData}
use mezon_sdk_go.Socket.Write.{Exchange, Exchanges}
use mezon_sdk_go.Socket.Messages.{
  ChannelMessageAck, write_chat_message, write_ephemeral_message, update_channel_message,
  write_message_reaction, delete_channel_message,
}
use mezon_sdk_go.Types.{ChannelMessageUpdate, ChannelMessageRemove}
use mezon_sdk_go.Entities.{Address, Message, TextChannel, Clan, User}
use mezon_sdk_go.Entities.Channels.{SendOptions, options_or, send_data, ephemeral_data}
use mezon_sdk_go.Entities.Messages.{
  Ack, ReactPayload, message_from_ack, reply_data, update_data, updated_message, react_data,
  remove_data,
}
use mezon_sdk_go.Client.{Client, modify}
use mezon_sdk_go.Client.Clans.{with_api}
use mezon_sdk_go.Client.Dm.{use_socket}

pub record Contents : Type 0 where
  pub marshal : Option Ref → Result Runes
  pub raw : Option Ref → Result Bytes
  pub ack_at : Ref → Ack

unfoldable pub acked : Contents → Option Ref → Option Ack
acked contents none = none
acked contents (some ref) = some (contents.ack_at ref)

-- channel.Messages.Set(id, msg)
unfoldable pub set_message : Bytes → Address → TextChannel → TextChannel
set_message id m ch = record ch { messages = set ch.messages id m }

unfoldable pub clan_id_of : Option Clan → Bytes
clan_id_of none = []
clan_id_of (some clan) = clan.id

unfoldable pub bot_id_of : Option Clan → Bytes
bot_id_of none = []
bot_id_of (some clan) = clan.client_id

module _ {S : Type 0} where
  -- The task's work on the socket.
  unfoldable pub on_socket :
      {A : Type 0} → (Sender → Sender × Result A) → Client S → Client S × Result A
  on_socket run c = let r = use_socket run c.api in (with_api r.0 c, r.1)

  unfoldable pub clan_of : TextChannel → Client S → Option Clan
  clan_of ch c = lookup ch.clan c.clan_heap

  unfoldable pub allocate_message : Message → Client S → Client S
  allocate_message m c = record c {
    message_heap = insert c.fresh m c.message_heap;
    fresh = suc c.fresh;
  }

  -- `if msg.ID != ""`
  unfoldable pub cache_identified : Address → Bytes → Address → Client S → Client S
  cache_identified q [] m c = c
  cache_identified q (b ∷ id) m c = record c {
    channel_heap = modify q (set_message (b ∷ id) m) c.channel_heap;
  }

  -- createMessageFromAck, of the channel `ch` at the address `q`.
  unfoldable pub create_message_from_ack :
      Contents
      → Address
      → TextChannel
      → Option Ack
      → ReplyMessageData
      → Client S
      → Client S × Address
  create_message_from_ack contents q ch ack d c =
      let m = message_from_ack ack d (contents.raw d.content) (bot_id_of (clan_of ch c)) q in
      (cache_identified q m.id c.fresh (allocate_message m c), c.fresh)

  unfoldable pub sent :
      Contents
      → Address
      → TextChannel
      → ReplyMessageData
      → Client S × Result (Option Ref)
      → Client S × Result Address
  sent contents q ch d (c, err e) = (c, err e)
  sent contents q ch d (c, ok ref) =
      let r = create_message_from_ack contents q ch (acked contents ref) d c in (r.0, ok r.1)

  unfoldable pub send_message :
      Contents
      → Exchanges
      → Address
      → TextChannel
      → ReplyMessageData
      → Client S
      → Client S × Result Address
  send_message contents xs q ch d c =
      sent contents q ch d (on_socket (write_chat_message contents.marshal xs d) c)

  -- TextChannel.Send
  unfoldable pub send :
      Contents
      → Exchanges
      → Address
      → TextChannel
      → Option Ref
      → Option SendOptions
      → Client S
      → Client S × Result Address
  send contents xs q ch content opts c =
      send_message contents xs q ch
        (send_data (clan_id_of (clan_of ch c)) ch content (options_or opts)) c

  unfoldable pub send_ephemeral :
      Contents
      → Exchanges
      → List Bytes
      → TextChannel
      → Option Ref
      → Option SendOptions
      → Client S
      → Client S × Result (Option Ref)
  send_ephemeral contents xs receiver_ids ch content opts c =
      on_socket
        (write_ephemeral_message contents.marshal xs
          (ephemeral_data receiver_ids (clan_id_of (clan_of ch c)) ch content (options_or opts)))
        c

  -- Message.Reply, once its sender has been looked up.
  unfoldable pub reply :
      Contents
      → Exchanges
      → Message
      → TextChannel
      → Option User
      → Option Ref
      → Option SendOptions
      → Client S
      → Client S × Result Address
  reply contents xs m ch user content opts c =
      send_message contents xs m.channel ch
        (reply_data m user (clan_id_of (clan_of ch c)) ch content (options_or opts)) c

  unfoldable pub react :
      Exchange → Message → TextChannel → ReactPayload → Client S → Client S × Result (Option Ref)
  react x m ch p c =
      on_socket (write_message_reaction x (react_data m (clan_id_of (clan_of ch c)) ch p)) c

  unfoldable pub remove :
      (ChannelMessageRemove → Result Bytes)
      → (Bytes → Result (ℤ × ℤ))
      → Exchange
      → Message
      → TextChannel
      → Client S
      → Client S × Result ChannelMessageAck
  remove encode unmarshal x m ch c =
      on_socket
        (delete_channel_message encode unmarshal x (remove_data m (clan_id_of (clan_of ch c)) ch)) c

  -- What Update does to the message at the address `a`, and to the cache of its channel.
  unfoldable pub refresh_message :
      Contents
      → Address
      → Message
      → Option Ref
      → Option (List Mention)
      → Option (List Attachment)
      → Client S
      → Client S
  refresh_message contents a m content mentions attachments c = record c {
    message_heap =
        modify a (updated_message (contents.raw content) mentions attachments) c.message_heap;
    channel_heap = modify m.channel (set_message m.id a) c.channel_heap;
  }

  unfoldable pub updated :
      Contents
      → Address
      → Message
      → Option Ref
      → Option (List Mention)
      → Option (List Attachment)
      → Client S × Result ChannelMessageAck
      → Client S × Result Address
  updated contents a m content mentions attachments (c, err e) = (c, err e)
  updated contents a m content mentions attachments (c, ok ack) =
      (refresh_message contents a m content mentions attachments c, ok a)

  unfoldable pub update :
      Contents
      → (ChannelMessageUpdate → Result Bytes)
      → (Bytes → Result (ℤ × ℤ))
      → Exchange
      → Address
      → Message
      → TextChannel
      → Option Ref
      → Option (List Mention)
      → Option (List Attachment)
      → Client S
      → Client S × Result Address
  update contents encode unmarshal x a m ch content mentions attachments c =
      updated contents a m content mentions attachments (
        on_socket
          (update_channel_message contents.marshal encode unmarshal x
            (update_data m (clan_id_of (clan_of ch c)) ch content mentions attachments))
          c)
