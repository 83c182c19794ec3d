-- ===== src/Socket/Messages.antt =====
-- socket_write.go: what the socket writes for a message, its update, its removal and a reaction.
use mezon_sdk_go.Prelude.{
  ℤ, pos, negsuc, map, Option, none, some, false, ◌==◌, if◌then◌else◌, Bytes, codes, int32_of,
}
use mezon_sdk_go.Errors.{Result, ok, err}
use mezon_sdk_go.Types.{
  atoi_id, mentions_to_proto, attachments_to_proto, refs_to_proto, ChannelMessageSend,
  ChannelMessageUpdate, ChannelMessageRemove,
}
use mezon_sdk_go.Socket.{
  Ref, channel_message, message_reaction_event, reply_channel_message_ack, channel_message_send,
  ephemeral_message_send, channel_message_update, channel_message_remove, message_reaction,
}
use mezon_sdk_go.Socket.Data.{
  ReplyMessageData, EphemeralMessageData, UpdateMessageData, ReactMessageData, RemoveMessageData,
}
use mezon_sdk_go.Utf16.{Runes}
use mezon_sdk_go.Content.{validate_content_length}
use mezon_sdk_go.ApiName.{api_index_from_name}
use mezon_sdk_go.Socket.Sending.{Sender, send_api_request}
use mezon_sdk_go.Socket.Write.{
  Exchange, Exchanges, send_request, reply_field, event_field, write_with_retry,
}

-- The marshalled and validated content goes to `go_on`.
unfoldable pub check_length :
    {A : Type 0} → Runes → (Runes → Sender → Sender × Result A) → Sender → Sender × Result A
check_length text go_on s = elim (validate_content_length text) [
  | some e ↦ (s, err e)
  | none ↦ go_on text s
]

unfoldable pub with_content :
    {A : Type 0} → Result Runes → (Runes → Sender → Sender × Result A) → Sender → Sender × Result A
with_content (err e) go_on s = (s, err e)
with_content (ok text) go_on s = check_length text go_on s

-- The message that a send carries; an ordinary one leaves `id` unset.
unfoldable pub message_of : ReplyMessageData → ℤ → Runes → ChannelMessageSend
message_of d id text = record {
  clan_id = atoi_id d.clan_id;
  channel_id = atoi_id d.channel_id;
  mode = int32_of d.mode;
  is_public = d.is_public;
  content = text;
  mentions = mentions_to_proto d.mentions;
  attachments = attachments_to_proto d.attachments;
  references = refs_to_proto d.references;
  anonymous_message = d.anonymous_message;
  mention_everyone = d.mention_everyone;
  avatar = d.avatar;
  code = int32_of d.code;
  topic_id = atoi_id d.topic_id;
  id = id;
}

-- `marshal` is marshalContent.
unfoldable pub write_chat_message :
    (Option Ref → Result Runes)
    → Exchanges
    → ReplyMessageData
    → Sender
    → Sender × Result (Option Ref)
write_chat_message marshal xs d s =
    with_content (marshal d.content)
      (λ text.
        write_with_retry xs d (channel_message_send (message_of d (pos 0) text))
          (reply_field reply_channel_message_ack))
      s

unfoldable pub write_ephemeral_message :
    (Option Ref → Result Runes)
    → Exchanges
    → EphemeralMessageData
    → Sender
    → Sender × Result (Option Ref)
write_ephemeral_message marshal xs d s =
    with_content (marshal d.reply.content)
      (λ text.
        write_with_retry xs d.reply
          (ephemeral_message_send (map atoi_id d.receiver_ids)
            (message_of d.reply (atoi_id d.message_id) text))
          (event_field channel_message))
      s

unfoldable pub update_of : UpdateMessageData → Runes → ChannelMessageUpdate
update_of d text = record {
  clan_id = atoi_id d.clan_id;
  channel_id = atoi_id d.channel_id;
  message_id = atoi_id d.message_id;
  content = text;
  mentions = mentions_to_proto d.mentions;
  attachments = attachments_to_proto d.attachments;
  mode = int32_of d.mode;
  is_public = d.is_public;
  hide_editted = d.hide_editted;
  topic_id = atoi_id d.topic_id;
  is_update_msg_topic = d.is_update_msg_topic;
  create_time_seconds = d.create_time_seconds;
}

unfoldable pub update_chat_message :
    (Option Ref → Result Runes)
    → Exchange
    → UpdateMessageData
    → Sender
    → Sender × Result (Option Ref)
update_chat_message marshal x d s =
    with_content (marshal d.content)
      (λ text.
        send_request x (channel_message_update (update_of d text))
          (reply_field reply_channel_message_ack))
      s

unfoldable pub write_message_reaction :
    Exchange → ReactMessageData → Sender → Sender × Result (Option Ref)
write_message_reaction x d s =
    send_request x
      (message_reaction (record {
        id = atoi_id d.id;
        clan_id = atoi_id d.clan_id;
        channel_id = atoi_id d.channel_id;
        mode = int32_of d.mode;
        is_public = d.is_public;
        message_id = atoi_id d.message_id;
        emoji_id = atoi_id d.emoji_id;
        emoji = d.emoji;
        count = int32_of d.count;
        message_sender_id = atoi_id d.message_sender_id;
        action = d.action_delete;
      }))
      (event_field message_reaction_event) s

unfoldable pub remove_chat_message :
    Exchange → RemoveMessageData → Sender → Sender × Result (Option Ref)
remove_chat_message x d s =
    send_request x
      (channel_message_remove (record {
        clan_id = atoi_id d.clan_id;
        channel_id = atoi_id d.channel_id;
        message_id = atoi_id d.message_id;
        mode = int32_of d.mode;
        is_public = d.is_public;
        has_attachment = false;
        topic_id = atoi_id d.topic_id;
      }))
      (reply_field reply_channel_message_ack) s

pub record ChannelMessageAck : Type 0 where
  pub channel_id : ℤ
  pub message_id : ℤ
  pub code : ℤ

-- `id`, or what the server gives where it is zero.
unfoldable pub id_or : ℤ → ℤ → ℤ
id_or (pos n) given = if n == 0 then given else pos n
id_or (negsuc n) given = negsuc n

-- The acknowledgement, from the channel and message ids of the decoded response.
unfoldable pub ack_of : Bytes → Bytes → ℤ → Result (ℤ × ℤ) → Result ChannelMessageAck
ack_of channel_id message_id code (err e) = err e
ack_of channel_id message_id code (ok (channel, message)) = ok (record {
  channel_id = id_or (atoi_id channel_id) channel;
  message_id = id_or (atoi_id message_id) message;
  code = code;
})

unfoldable pub decode_ack :
    (Bytes → Result (ℤ × ℤ)) → Bytes → Bytes → ℤ → Result Bytes → Result ChannelMessageAck
decode_ack unmarshal channel_id message_id code (err e) = err e
decode_ack unmarshal channel_id message_id code (ok body) =
    ack_of channel_id message_id code (unmarshal body)

unfoldable pub call_api :
    (Bytes → Result (ℤ × ℤ))
    → Exchange
    → Bytes
    → Bytes
    → Bytes
    → ℤ
    → Result Bytes
    → Sender
    → Sender × Result ChannelMessageAck
call_api unmarshal x api_name channel_id message_id code (err e) s = (s, err e)
call_api unmarshal x api_name channel_id message_id code (ok body) s =
    let r = send_api_request x.0 api_index_from_name x.1 api_name body s in
    (r.0, decode_ack unmarshal channel_id message_id code r.1)

-- proto.Marshal and proto.Unmarshal of the update are the parameters `encode` and `unmarshal`,
-- which gives the ids that are read of it.
unfoldable pub update_channel_message :
    (Option Ref → Result Runes)
    → (ChannelMessageUpdate → Result Bytes)
    → (Bytes → Result (ℤ × ℤ))
    → Exchange
    → UpdateMessageData
    → Sender
    → Sender × Result ChannelMessageAck
update_channel_message marshal encode unmarshal x d s =
    with_content (marshal d.content)
      (λ text.
        call_api unmarshal x (codes "UpdateChannelMessage") d.channel_id d.message_id (pos 1)
          (encode (update_of d text)))
      s

unfoldable pub removal_of : RemoveMessageData → ChannelMessageRemove
removal_of d = record {
  clan_id = atoi_id d.clan_id;
  channel_id = atoi_id d.channel_id;
  message_id = atoi_id d.message_id;
  mode = int32_of d.mode;
  is_public = d.is_public;
  has_attachment = d.has_attachment;
  topic_id = atoi_id d.topic_id;
}

unfoldable pub delete_channel_message :
    (ChannelMessageRemove → Result Bytes)
    → (Bytes → Result (ℤ × ℤ))
    → Exchange
    → RemoveMessageData
    → Sender
    → Sender × Result ChannelMessageAck
delete_channel_message encode unmarshal x d s =
    call_api unmarshal x (codes "DeleteChannelMessage") d.channel_id d.message_id (pos 2)
      (encode (removal_of d)) s
