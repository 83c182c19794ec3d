-- ===== src/Types.antt =====
-- types.go: the messages' parts, their conversions to the protobuf messages, and ids as text. An
-- int and an int32 are integers; a conversion to int32 wraps.
pub mod Ids
use mezon_sdk_go.Prelude.{
  ℕ, zero, suc, ◌+◌, ◌-◌, ◌*◌, ◌^◌, ℤ, pos, negsuc, negate, int32_of, List, [], ◌∷◌, map, Option,
  none, some, Bool, true, false, ltb, leb, ◌==◌, ◌&&◌, if◌then◌else◌, Bytes, itoa,
}

pub record Mention : Type 0 where
  pub user_id : Bytes
  pub role_id : Bytes
  pub username : Bytes
  pub rolename : Bytes
  pub s : ℤ
  pub e : ℤ
  pub create_time_seconds : ℕ

pub record Attachment : Type 0 where
  pub filename : Bytes
  pub size : ℤ
  pub url : Bytes
  pub filetype : Bytes
  pub width : ℤ
  pub height : ℤ
  pub thumbnail : Bytes
  pub duration : ℤ

pub record MessageRef : Type 0 where
  pub message_id : Bytes
  pub message_ref_id : Bytes
  pub content : Bytes
  pub has_attachment : Bool
  pub ref_type : ℤ
  pub message_sender_id : Bytes
  pub message_sender_username : Bytes
  pub message_sender_avatar : Bytes
  pub message_sender_clan_nick : Bytes
  pub message_sender_display_name : Bytes

-- The protobuf messages that they become.
pub record MessageMention : Type 0 where
  pub user_id : ℤ
  pub role_id : ℤ
  pub username : Bytes
  pub rolename : Bytes
  pub s : ℤ
  pub e : ℤ
  pub create_time_seconds : ℕ

pub record ProtoMessageRef : Type 0 where
  pub message_id : ℤ
  pub message_ref_id : ℤ
  pub content : Bytes
  pub has_attachment : Bool
  pub ref_type : ℤ
  pub message_sender_id : ℤ
  pub message_sender_username : Bytes
  pub message_sender_avatar : Bytes
  pub message_sender_clan_nick : Bytes
  pub message_sender_display_name : Bytes

-- The value of a decimal digit.
unfoldable pub digit_of : ℕ → Option ℕ
digit_of c = if leb 48 c && leb c 57 then some (c - 48) else none

-- strconv.ParseUint to base 10 and 64 bits, from the digits read so far: `none` is a syntax error,
-- and past the range the largest value is given at once.
unfoldable pub parse_uint : ℕ → Bytes → Option ℕ
parse_uint n [] = some n
parse_uint n (c ∷ cs) = elim (digit_of c) [
  | none ↦ none
  | some d ↦
      let rest = parse_uint (n * 10 + d) cs in
      if ltb (2 ^ 64 - 1) (n * 10 + d) then some (2 ^ 64 - 1) else rest
]

unfoldable pub parse_digits : Bytes → Option ℕ
parse_digits [] = none
parse_digits (c ∷ cs) = parse_uint 0 (c ∷ cs)

-- The value that strconv.ParseInt gives with or without an error: 0 for a syntax error, and the
-- nearest int64 for what is out of range.
unfoldable pub clamp : Bool → Option ℕ → ℤ
clamp negative none = pos 0
clamp false (some n) = if leb (2 ^ 63) n then pos (2 ^ 63 - 1) else pos n
clamp true (some n) = if ltb (2 ^ 63) n then negate (2 ^ 63) else negate n

unfoldable pub parse_int : Bytes → ℤ
parse_int [] = pos 0
parse_int (c ∷ cs) =
    if c == 43
    then clamp false (parse_digits cs)
    else (if c == 45 then clamp true (parse_digits cs) else clamp false (parse_digits (c ∷ cs)))

unfoldable pub atoi_id : Bytes → ℤ
atoi_id s = parse_int s

unfoldable pub itoa_id : ℤ → Bytes
itoa_id (pos zero) = 48 ∷ []
itoa_id v = itoa v

unfoldable pub mention_to_proto : Mention → MessageMention
mention_to_proto m = record {
  user_id = atoi_id m.user_id;
  role_id = atoi_id m.role_id;
  username = m.username;
  rolename = m.rolename;
  s = int32_of m.s;
  e = int32_of m.e;
  create_time_seconds = m.create_time_seconds;
}

unfoldable pub mentions_to_proto : List Mention → List MessageMention
mentions_to_proto ms = map mention_to_proto ms

-- api.MessageAttachment has the fields of an attachment, the sizes as int32.
unfoldable pub attachment_to_proto : Attachment → Attachment
attachment_to_proto a = record a {
  size = int32_of a.size;
  width = int32_of a.width;
  height = int32_of a.height;
  duration = int32_of a.duration;
}

unfoldable pub attachments_to_proto : List Attachment → List Attachment
attachments_to_proto attachments = map attachment_to_proto attachments

unfoldable pub ref_to_proto : MessageRef → ProtoMessageRef
ref_to_proto r = record {
  message_id = atoi_id r.message_id;
  message_ref_id = atoi_id r.message_ref_id;
  content = r.content;
  has_attachment = r.has_attachment;
  ref_type = int32_of r.ref_type;
  message_sender_id = atoi_id r.message_sender_id;
  message_sender_username = r.message_sender_username;
  message_sender_avatar = r.message_sender_avatar;
  message_sender_clan_nick = r.message_sender_clan_nick;
  message_sender_display_name = r.message_sender_display_name;
}

unfoldable pub refs_to_proto : List MessageRef → List ProtoMessageRef
refs_to_proto rs = map ref_to_proto rs

-- The messages that the socket writes.
pub record ChannelMessageSend : Type 0 where
  pub clan_id : ℤ
  pub channel_id : ℤ
  pub mode : ℤ
  pub is_public : Bool
  pub content : List ℕ
  pub mentions : List MessageMention
  pub attachments : List Attachment
  pub references : List ProtoMessageRef
  pub anonymous_message : Bool
  pub mention_everyone : Bool
  pub avatar : Bytes
  pub code : ℤ
  pub topic_id : ℤ
  pub id : ℤ

pub record ChannelMessageUpdate : Type 0 where
  pub clan_id : ℤ
  pub channel_id : ℤ
  pub message_id : ℤ
  pub content : List ℕ
  pub mentions : List MessageMention
  pub attachments : List Attachment
  pub mode : ℤ
  pub is_public : Bool
  pub hide_editted : Bool
  pub topic_id : ℤ
  pub is_update_msg_topic : Bool
  pub create_time_seconds : ℕ

pub record ChannelMessageRemove : Type 0 where
  pub clan_id : ℤ
  pub channel_id : ℤ
  pub message_id : ℤ
  pub mode : ℤ
  pub is_public : Bool
  pub has_attachment : Bool
  pub topic_id : ℤ

pub record MessageReaction : Type 0 where
  pub id : ℤ
  pub clan_id : ℤ
  pub channel_id : ℤ
  pub mode : ℤ
  pub is_public : Bool
  pub message_id : ℤ
  pub emoji_id : ℤ
  pub emoji : Bytes
  pub count : ℤ
  pub message_sender_id : ℤ
  pub action : Bool

pub record ChannelJoin : Type 0 where
  pub clan_id : ℤ
  pub channel_id : ℤ
  pub channel_type : ℤ
  pub is_public : Bool
