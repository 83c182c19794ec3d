-- ===== src/Entities/Messages.antt =====
-- message.go and channel.go: messages out of inbound ones and of acknowledgements, and the data of
-- their replies, updates, reactions and removals.
use mezon_sdk_go.Prelude.{
  ℕ, zero, suc, ℤ, pos, negsuc, List, [], ◌∷◌, Option, none, some, Bool, true, false, not, Bytes,
  codes,
}
use mezon_sdk_go.Errors.{Result, ok, err}
use mezon_sdk_go.Types.{Mention, Attachment, MessageRef, itoa_id}
use mezon_sdk_go.Inbound.Fields.{ChannelMessage}
use mezon_sdk_go.Socket.{Ref}
use mezon_sdk_go.Socket.Data.{
  ReplyMessageData, UpdateMessageData, ReactMessageData, RemoveMessageData,
}
use mezon_sdk_go.Entities.{Address, Message, TextChannel, User, or_string, first_non_empty}
use mezon_sdk_go.Entities.Channels.{SendOptions, mode_of}

unfoldable pub new_message_from_channel_message : ChannelMessage → Address → Message
new_message_from_channel_message cm channel = record {
  id = cm.message_id;
  clan_id = cm.clan_id;
  channel_id = cm.channel_id;
  sender_id = cm.sender_id;
  content = cm.content;
  mentions = cm.mentions;
  attachments = cm.attachments;
  references = cm.references;
  reactions = cm.reactions;
  topic_id = cm.topic_id;
  create_time_seconds = cm.create_time_seconds;
  update_time_seconds = cm.update_time_seconds;
  code = cm.code;
  username = cm.username;
  persistent = false;
  mode = cm.mode;
  channel = channel;
}

-- rtapi.ChannelMessageAck; `persistent` is a wrapped Boolean.
pub record Ack : Type 0 where
  pub channel_id : ℤ
  pub message_id : ℤ
  pub code : ℤ
  pub username : Bytes
  pub create_time_seconds : ℕ
  pub update_time_seconds : ℕ
  pub persistent : Option Bool

-- The message before the acknowledgement is read.
unfoldable pub message_of_data : ReplyMessageData → Bytes → Bytes → Address → Message
message_of_data d channel_id sender_id channel = record {
  id = [];
  clan_id = d.clan_id;
  channel_id = channel_id;
  sender_id = sender_id;
  content = [];
  mentions = d.mentions;
  attachments = d.attachments;
  references = d.references;
  reactions = [];
  topic_id = d.topic_id;
  create_time_seconds = 0;
  update_time_seconds = 0;
  code = pos 0;
  username = [];
  persistent = false;
  mode = d.mode;
  channel = channel;
}

-- An id that is zero leaves `old`.
unfoldable pub id_unless_zero : ℤ → Bytes → Bytes
id_unless_zero (pos zero) old = old
id_unless_zero (pos (suc n)) old = itoa_id (pos (suc n))
id_unless_zero (negsuc n) old = itoa_id (negsuc n)

unfoldable pub value_or : Option Bool → Bool → Bool
value_or none old = old
value_or (some value) old = value

unfoldable pub acked_channel : Option Ack → Bytes → Bytes
acked_channel none channel_id = channel_id
acked_channel (some ack) channel_id = id_unless_zero ack.channel_id channel_id

unfoldable pub with_ack : Option Ack → Message → Message
with_ack none m = m
with_ack (some ack) m = record m {
  id = id_unless_zero ack.message_id m.id;
  create_time_seconds = ack.create_time_seconds;
  update_time_seconds = ack.update_time_seconds;
  code = ack.code;
  username = ack.username;
  persistent = value_or ack.persistent m.persistent;
}

unfoldable pub with_marshalled : Result Bytes → Message → Message
with_marshalled (err e) m = m
with_marshalled (ok raw) m = record m { content = raw }

-- The message of createMessageFromAck: `marshalled` is marshalContent of the data's content, and
-- `sender_id` the clan's client id.
unfoldable pub message_from_ack :
    Option Ack → ReplyMessageData → Result Bytes → Bytes → Address → Message
message_from_ack ack d marshalled sender_id channel =
    with_marshalled marshalled
      (with_ack ack (message_of_data d (acked_channel ack d.channel_id) sender_id channel))

-- The names of a reply's sender, as the cached user has them.
unfoldable pub sender_username : Option User → Bytes
sender_username none = []
sender_username (some user) =
    first_non_empty (user.clan_nick ∷ user.display_name ∷ user.username ∷ [])

unfoldable pub sender_avatar : Option User → Bytes
sender_avatar none = []
sender_avatar (some user) = first_non_empty (user.clan_avatar ∷ user.avatar ∷ [])

unfoldable pub reply_reference : Message → Option User → MessageRef
reply_reference m user = record {
  message_id = [];
  message_ref_id = m.id;
  content = m.content;
  has_attachment = false;
  ref_type = pos 0;
  message_sender_id = m.sender_id;
  message_sender_username = sender_username user;
  message_sender_avatar = sender_avatar user;
  message_sender_clan_nick = [];
  message_sender_display_name = [];
}

-- The data of Message.Reply, in the channel `c` of the clan `clan_id`.
unfoldable pub reply_data :
    Message → Option User → Bytes → TextChannel → Option Ref → SendOptions → ReplyMessageData
reply_data m user clan_id c content opts = record {
  clan_id = clan_id;
  channel_id = c.id;
  channel_type = c.channel_type;
  mode = mode_of c;
  is_public = not c.is_private;
  content = content;
  mentions = opts.mentions;
  attachments = opts.attachments;
  references = reply_reference m user ∷ [];
  anonymous_message = opts.anonymous;
  mention_everyone = opts.mention_everyone;
  avatar = [];
  code = opts.code;
  topic_id = or_string opts.topic_id m.topic_id;
}

unfoldable pub is_set : Bytes → Bool
is_set [] = false
is_set (c ∷ s) = true

unfoldable pub list_or {ℓ} : {A : Type ℓ} → Option (List A) → List A → List A
list_or none old = old
list_or (some l) old = l

-- Of Message.Update; nil lists are written as empty ones.
unfoldable pub update_data :
    Message
    → Bytes
    → TextChannel
    → Option Ref
    → Option (List Mention)
    → Option (List Attachment)
    → UpdateMessageData
update_data m clan_id c content mentions attachments = record {
  clan_id = clan_id;
  channel_id = c.id;
  channel_type = c.channel_type;
  mode = mode_of c;
  is_public = not c.is_private;
  message_id = m.id;
  content = content;
  mentions = list_or mentions [];
  attachments = list_or attachments [];
  create_time_seconds = m.create_time_seconds;
  hide_editted = false;
  topic_id = or_string m.topic_id (codes "0");
  is_update_msg_topic = is_set m.topic_id;
}

-- What a successful update makes of the message: nil lists keep the old ones.
unfoldable pub updated_message :
    Result Bytes → Option (List Mention) → Option (List Attachment) → Message → Message
updated_message marshalled mentions attachments m = record (with_marshalled marshalled m) {
  mentions = list_or mentions m.mentions;
  attachments = list_or attachments m.attachments;
}

pub record ReactPayload : Type 0 where
  pub id : Bytes
  pub emoji_id : Bytes
  pub emoji : Bytes
  pub count : ℤ
  pub action_delete : Bool

unfoldable pub react_data : Message → Bytes → TextChannel → ReactPayload → ReactMessageData
react_data m clan_id c p = record {
  id = or_string p.id (codes "0");
  clan_id = clan_id;
  channel_id = c.id;
  channel_type = c.channel_type;
  mode = mode_of c;
  is_public = not c.is_private;
  message_id = m.id;
  emoji_id = or_string p.emoji_id (codes "0");
  emoji = p.emoji;
  count = p.count;
  message_sender_id = m.sender_id;
  action_delete = p.action_delete;
}

unfoldable pub remove_data : Message → Bytes → TextChannel → RemoveMessageData
remove_data m clan_id c = record {
  clan_id = clan_id;
  channel_id = c.id;
  channel_type = c.channel_type;
  mode = mode_of c;
  is_public = not c.is_private;
  message_id = m.id;
  topic_id = or_string m.topic_id (codes "0");
  has_attachment = false;
}
