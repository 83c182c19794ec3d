-- ===== src/Socket.antt =====
-- socket.go: the realtime socket. Of an envelope, the fields that the socket sets or reads; the
-- event and reply messages in it are pointers that it passes on.
pub mod Cids
pub mod Routing
pub mod Streams
pub mod Reassembly
pub mod ReadLoop
pub mod Delivery
pub mod Events
pub mod Sending
pub mod Pending
pub mod Lifecycle
pub mod Interleaved
pub mod Disconnect
pub mod Stale
pub mod Whole
pub mod Data
pub mod Write
pub mod Messages
pub mod Guard
pub mod Retry
pub mod Dispatch
use mezon_sdk_go.Types.{
  ChannelMessageSend, ChannelMessageUpdate, ChannelMessageRemove, MessageReaction, ChannelJoin,
}
use mezon_sdk_go.Prelude.{List, ℕ, ℤ, Bool, false, Bytes, Option, none, some}

-- A pointer to a decoded protobuf message.
abbrev pub Ref : Type 0
Ref = ℕ

pub record EnvelopeError : Type 0 where
  pub code : ℤ
  pub message : Bytes

-- The fields of rtapi.Envelope that `dispatch` looks at.
pub data EventField : Type 0 where
  channel_message message_reaction_event channel_created_event channel_deleted_event : EventField
  channel_updated_event channel_archive_event user_channel_added_event : EventField
  user_channel_removed_event user_clan_removed_event add_clan_user_event role_event : EventField
  role_assign_event give_coffee_event token_sent_event clan_event_created : EventField
  message_button_clicked streaming_joined_event streaming_leaved_event : EventField
  dropdown_box_selected webrtc_signaling_fwd voice_started_event voice_ended_event : EventField
  voice_joined_event voice_leaved_event notifications quick_menu_event : EventField
  aiagent_enabled_event clan_updated_event clan_profile_updated_event : EventField
  user_profile_updated_event clan_deleted_event : EventField

pub record ApiRequestEvent : Type 0 where
  pub api_index : ℕ
  pub api_name : Bytes
  pub body : Bytes

-- What an envelope of the client carries, by the field that it sets.
pub data Request : Type 0 where
  api_request_event : ApiRequestEvent → Request
  channel_message_send : ChannelMessageSend → Request
  ephemeral_message_send : List ℤ → ChannelMessageSend → Request
  channel_message_update : ChannelMessageUpdate → Request
  channel_message_remove : ChannelMessageRemove → Request
  message_reaction : MessageReaction → Request
  clan_join : ℤ → Request
  channel_join channel_leave : ChannelJoin → Request

-- The reply fields that are no event fields.
pub data ReplyField : Type 0 where
  reply_channel_message_ack reply_clan_join reply_channel : ReplyField

-- `cid` is the bit pattern of the int32.
pub record Envelope : Type 0 where
  pub cid : ℕ
  pub error : Option EnvelopeError
  pub ping : Bool
  pub pong : Bool
  pub event : EventField → Option Ref
  pub request : Option Request
  pub reply : ReplyField → Option Ref

-- &rtapi.Envelope{}
abbrev pub empty_envelope : Envelope
empty_envelope = record {
  cid = 0;
  error = none;
  ping = false;
  pong = false;
  event = λ field. none;
  request = none;
  reply = λ field. none;
}

-- What a wait for a cid receives.
pub record SocketResponse : Type 0 where
  pub env : Option Envelope
  pub api_response : Bool
  pub code : ℕ
  pub body : Bytes

-- The channel that one sender waits on.
abbrev pub Chan : Type 0
Chan = ℕ
