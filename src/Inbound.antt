-- ===== src/Inbound.antt =====
-- channelmessage.go: an inbound chat message out of its protobuf message. The lists of mentions,
-- attachments, references and reactions arrive as blobs, of JSON or of protobuf; what encoding/json
-- and proto.Unmarshal read from a blob are parameters. A nil slice is the empty list.
pub mod RoundTrip
pub mod Fields
use mezon_sdk_go.Prelude.{
  ℕ, ℤ, List, [], ◌∷◌, map, Option, none, some, Bool, true, false, ◌==◌, ◌||◌, Bytes,
}
use mezon_sdk_go.Errors.{Result, ok, err}
use mezon_sdk_go.Types.{Mention, Attachment, MessageRef, MessageMention, ProtoMessageRef, itoa_id}

pub record Reaction : Type 0 where
  pub id : Bytes
  pub emoji_id : Bytes
  pub emoji : Bytes
  pub sender_id : Bytes
  pub sender_name : Bytes
  pub action : Bool
  pub count : ℤ
  pub message_sender_id : Bytes

-- The fields of api.MessageReaction that are read.
pub record ProtoReaction : Type 0 where
  pub id : ℤ
  pub emoji_id : ℤ
  pub emoji : Bytes
  pub sender_id : ℤ
  pub sender_name : Bytes
  pub action : Bool
  pub count : ℤ
  pub message_sender_id : ℤ

-- What encoding/json leaves in the slice that it reads into, with or without an error, and what
-- proto.Unmarshal gives.
pub record Codec (A B : Type 0) : Type 0 where
  pub from_json : Bytes → List A
  pub from_proto : Bytes → Result (List B)

pub record Codecs : Type 0 where
  pub mentions : Codec Mention MessageMention
  pub attachments : Codec Attachment Attachment
  pub refs : Codec MessageRef ProtoMessageRef
  pub reactions : Codec Reaction ProtoReaction
  pub text_of : Bytes → Bytes

-- The first byte is `[` or `{`.
unfoldable pub looks_like_json : Bytes → Bool
looks_like_json [] = false
looks_like_json (b ∷ bs) = b == 91 || b == 123

module _ {A B : Type 0} where
  unfoldable pub converted : (B → A) → Result (List B) → List A
  converted convert (err e) = []
  converted convert (ok list) = map convert list

  -- The choice that the four decoders make.
  unfoldable pub decode_blob : Codec A B → (B → A) → Bytes → List A
  decode_blob codec convert [] = []
  decode_blob codec convert (b ∷ bs) = elim (looks_like_json (b ∷ bs)) [
    | true ↦ codec.from_json (b ∷ bs)
    | false ↦ converted convert (codec.from_proto (b ∷ bs))
  ]

unfoldable pub mention_from_proto : MessageMention → Mention
mention_from_proto m = record {
  user_id = itoa_id m.user_id;
  role_id = itoa_id m.role_id;
  username = m.username;
  rolename = m.rolename;
  s = m.s;
  e = m.e;
  create_time_seconds = m.create_time_seconds;
}

unfoldable pub decode_mentions : Codecs → Bytes → List Mention
decode_mentions codecs b = decode_blob codecs.mentions mention_from_proto b

-- Field by field; an int32 is the same int.
unfoldable pub attachment_from_proto : Attachment → Attachment
attachment_from_proto a = record {
  filename = a.filename;
  size = a.size;
  url = a.url;
  filetype = a.filetype;
  width = a.width;
  height = a.height;
  thumbnail = a.thumbnail;
  duration = a.duration;
}

unfoldable pub decode_attachments : Codecs → Bytes → List Attachment
decode_attachments codecs b = decode_blob codecs.attachments attachment_from_proto b

unfoldable pub ref_from_proto : ProtoMessageRef → MessageRef
ref_from_proto r = record {
  message_id = itoa_id r.message_id;
  message_ref_id = itoa_id r.message_ref_id;
  content = r.content;
  has_attachment = r.has_attachment;
  ref_type = r.ref_type;
  message_sender_id = itoa_id r.message_sender_id;
  message_sender_username = r.message_sender_username;
  message_sender_avatar = r.message_sender_avatar;
  message_sender_clan_nick = r.message_sender_clan_nick;
  message_sender_display_name = r.message_sender_display_name;
}

unfoldable pub decode_refs : Codecs → Bytes → List MessageRef
decode_refs codecs b = decode_blob codecs.refs ref_from_proto b

unfoldable pub reaction_from_proto : ProtoReaction → Reaction
reaction_from_proto r = record {
  id = itoa_id r.id;
  emoji_id = itoa_id r.emoji_id;
  emoji = r.emoji;
  sender_id = itoa_id r.sender_id;
  sender_name = r.sender_name;
  action = r.action;
  count = r.count;
  message_sender_id = itoa_id r.message_sender_id;
}

unfoldable pub decode_reactions : Codecs → Bytes → List Reaction
decode_reactions codecs b = decode_blob codecs.reactions reaction_from_proto b
