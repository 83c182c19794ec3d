-- ===== src/Socket/Data.antt =====
-- socket.go: the data of the messages that the socket writes.
use mezon_sdk_go.Prelude.{ℕ, ℤ, List, Option, Bool, Bytes}
use mezon_sdk_go.Types.{Mention, Attachment, MessageRef}
use mezon_sdk_go.Socket.{Ref}

pub record ReplyMessageData : Type 0 where
  pub clan_id : Bytes
  pub channel_id : Bytes
  pub channel_type : ℤ
  pub mode : ℤ
  pub is_public : Bool
  pub content : Option Ref
  pub mentions : List Mention
  pub attachments : List Attachment
  pub references : List MessageRef
  pub anonymous_message : Bool
  pub mention_everyone : Bool
  pub avatar : Bytes
  pub code : ℤ
  pub topic_id : Bytes

-- What EphemeralMessageData has besides.
pub record EphemeralMessageData : Type 0 where
  pub receiver_ids : List Bytes
  pub reply : ReplyMessageData
  pub message_id : Bytes

pub record UpdateMessageData : Type 0 where
  pub clan_id : Bytes
  pub channel_id : Bytes
  pub channel_type : ℤ
  pub mode : ℤ
  pub is_public : Bool
  pub message_id : Bytes
  pub content : Option Ref
  pub mentions : List Mention
  pub attachments : List Attachment
  pub create_time_seconds : ℕ
  pub hide_editted : Bool
  pub topic_id : Bytes
  pub is_update_msg_topic : Bool

pub record ReactMessageData : Type 0 where
  pub id : Bytes
  pub clan_id : Bytes
  pub channel_id : Bytes
  pub channel_type : ℤ
  pub mode : ℤ
  pub is_public : Bool
  pub message_id : Bytes
  pub emoji_id : Bytes
  pub emoji : Bytes
  pub count : ℤ
  pub message_sender_id : Bytes
  pub action_delete : Bool

pub record RemoveMessageData : Type 0 where
  pub clan_id : Bytes
  pub channel_id : Bytes
  pub channel_type : ℤ
  pub mode : ℤ
  pub is_public : Bool
  pub message_id : Bytes
  pub topic_id : Bytes
  pub has_attachment : Bool
