-- ===== src/Inbound/Fields.antt =====
-- channelmessage.go: ChannelMessage, channelMessageFromProto and ContentText. A raw JSON message
-- that is not set is no bytes.
use mezon_sdk_go.Prelude.{ℕ, ℤ, pos, List, [], ◌∷◌, Option, none, some, Bool, false, Bytes}
use mezon_sdk_go.Types.{Mention, Attachment, MessageRef, itoa_id}
use mezon_sdk_go.Inbound.{
  Reaction, Codecs, decode_mentions, decode_attachments, decode_refs, decode_reactions,
}

pub record ChannelMessage : Type 0 where
  pub id : Bytes
  pub channel_id : Bytes
  pub clan_id : Bytes
  pub code : ℤ
  pub sender_id : Bytes
  pub username : Bytes
  pub avatar : Bytes
  pub content : Bytes
  pub reactions : List Reaction
  pub mentions : List Mention
  pub attachments : List Attachment
  pub references : List MessageRef
  pub referenced_message : Bytes
  pub message_id : Bytes
  pub channel_label : Bytes
  pub clan_logo : Bytes
  pub category_name : Bytes
  pub display_name : Bytes
  pub clan_nick : Bytes
  pub clan_avatar : Bytes
  pub mode : ℤ
  pub hide_editted : Bool
  pub is_public : Bool
  pub topic_id : Bytes
  pub create_time_seconds : ℕ
  pub update_time_seconds : ℕ

-- api.ChannelMessage
pub record ProtoChannelMessage : Type 0 where
  pub clan_id : ℤ
  pub channel_id : ℤ
  pub message_id : ℤ
  pub code : ℤ
  pub sender_id : ℤ
  pub username : Bytes
  pub avatar : Bytes
  pub content : Bytes
  pub channel_label : Bytes
  pub clan_logo : Bytes
  pub category_name : Bytes
  pub display_name : Bytes
  pub clan_nick : Bytes
  pub clan_avatar : Bytes
  pub reactions : Bytes
  pub mentions : Bytes
  pub attachments : Bytes
  pub references : Bytes
  pub referenced_message : Bytes
  pub create_time_seconds : ℕ
  pub update_time_seconds : ℕ
  pub mode : ℤ
  pub hide_editted : Bool
  pub is_public : Bool
  pub topic_id : ℤ

unfoldable pub empty_channel_message : ChannelMessage
empty_channel_message = record {
  id = [];
  channel_id = [];
  clan_id = [];
  code = pos 0;
  sender_id = [];
  username = [];
  avatar = [];
  content = [];
  reactions = [];
  mentions = [];
  attachments = [];
  references = [];
  referenced_message = [];
  message_id = [];
  channel_label = [];
  clan_logo = [];
  category_name = [];
  display_name = [];
  clan_nick = [];
  clan_avatar = [];
  mode = pos 0;
  hide_editted = false;
  is_public = false;
  topic_id = [];
  create_time_seconds = 0;
  update_time_seconds = 0;
}

unfoldable pub fields_from_proto : Codecs → ProtoChannelMessage → ChannelMessage
fields_from_proto codecs cm = record {
  id = itoa_id cm.message_id;
  channel_id = itoa_id cm.channel_id;
  clan_id = itoa_id cm.clan_id;
  code = cm.code;
  sender_id = itoa_id cm.sender_id;
  username = cm.username;
  avatar = cm.avatar;
  content = cm.content;
  reactions = decode_reactions codecs cm.reactions;
  mentions = decode_mentions codecs cm.mentions;
  attachments = decode_attachments codecs cm.attachments;
  references = decode_refs codecs cm.references;
  referenced_message = cm.referenced_message;
  message_id = itoa_id cm.message_id;
  channel_label = cm.channel_label;
  clan_logo = cm.clan_logo;
  category_name = cm.category_name;
  display_name = cm.display_name;
  clan_nick = cm.clan_nick;
  clan_avatar = cm.clan_avatar;
  mode = cm.mode;
  hide_editted = cm.hide_editted;
  is_public = cm.is_public;
  topic_id = itoa_id cm.topic_id;
  create_time_seconds = cm.create_time_seconds;
  update_time_seconds = cm.update_time_seconds;
}

unfoldable pub channel_message_from_proto : Codecs → Option ProtoChannelMessage → ChannelMessage
channel_message_from_proto codecs none = empty_channel_message
channel_message_from_proto codecs (some cm) = fields_from_proto codecs cm

-- The "t" field of a JSON object, which `text_of` reads.
unfoldable pub text_in : Codecs → Bytes → Bytes
text_in codecs [] = []
text_in codecs (b ∷ bs) = codecs.text_of (b ∷ bs)

unfoldable pub content_text : Codecs → ChannelMessage → Bytes
content_text codecs m = text_in codecs m.content
