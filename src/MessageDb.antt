-- ===== src/MessageDb.antt =====
-- messagedb/messagedb.go: SaveMessage and GetMessageByID. The SQL database is a parameter: its
-- INSERT OR REPLACE, and its SELECT by the primary key. encoding/json is another.
pub mod Saved
use mezon_sdk_go.Prelude.{
  ℕ, ℤ, pos, negsuc, ◌%◌, ◌^◌, List, [], ◌∷◌, ◌++◌, Option, none, some, Bytes, codes,
}
use mezon_sdk_go.Errors.{Error, err_text, Result, ok, err}
use mezon_sdk_go.Types.{Mention, Attachment, MessageRef}
use mezon_sdk_go.Inbound.{Reaction}
use mezon_sdk_go.Inbound.Fields.{ChannelMessage, empty_channel_message}
use mezon_sdk_go.Entities.{or_string}
use mezon_sdk_go.Socket.Write.{error_text}
use mezon_sdk_go.Client.Events.{MessageStore}

-- A row of messages_v2; the time is NULL or an integer.
pub record Row : Type 0 where
  pub id : Bytes
  pub channel_id : Bytes
  pub clan_id : Bytes
  pub sender_id : Bytes
  pub content : Bytes
  pub mentions : Bytes
  pub attachments : Bytes
  pub reactions : Bytes
  pub msg_references : Bytes
  pub topic_id : Bytes
  pub create_time_seconds : Option ℕ

pub record Sql (D : Type 0) : Type 0 where
  pub insert_or_replace : D → Row → D × Option Error
  pub select : D → Bytes → Bytes → Bytes → Result (Option Row)

-- What encoding/json writes for a list, and what it leaves in the slice that it reads into.
pub record Json (A : Type 0) : Type 0 where
  pub to_json : List A → Result Bytes
  pub from_json : Bytes → List A

pub record Encodings : Type 0 where
  pub mentions : Json Mention
  pub attachments : Json Attachment
  pub reactions : Json Reaction
  pub references : Json MessageRef

unfoldable pub marshal_json : Result Bytes → Bytes → Bytes
marshal_json (ok b) fallback = b
marshal_json (err e) fallback = fallback

unfoldable pub row_of : Encodings → ChannelMessage → Row
row_of json msg = record {
  id = or_string msg.message_id msg.id;
  channel_id = msg.channel_id;
  clan_id = msg.clan_id;
  sender_id = msg.sender_id;
  content = or_string msg.content (codes "{}");
  mentions = marshal_json (json.mentions.to_json msg.mentions) (codes "[]");
  attachments = marshal_json (json.attachments.to_json msg.attachments) (codes "[]");
  reactions = marshal_json (json.reactions.to_json msg.reactions) (codes "[]");
  msg_references = marshal_json (json.references.to_json msg.references) (codes "[]");
  topic_id = msg.topic_id;
  create_time_seconds = some msg.create_time_seconds;
}

-- "messagedb: save %s: %w"
unfoldable pub save_error : Bytes → Error → Error
save_error id e = err_text (codes "messagedb: save " ++ (id ++ (codes ": " ++ error_text e)))

unfoldable pub get_error : Bytes → Error → Error
get_error id e = err_text (codes "messagedb: get " ++ (id ++ (codes ": " ++ error_text e)))

unfoldable pub saved : {D : Type 0} → Bytes → D × Option Error → D × Option Error
saved id (d, none) = (d, none)
saved id (d, some e) = (d, some (save_error id e))

unfoldable pub save_message :
    {D : Type 0} → Sql D → Encodings → D → ChannelMessage → D × Option Error
save_message sql json d msg = saved (row_of json msg).id (sql.insert_or_replace d (row_of json msg))

-- sql.NullInt64 is zero for NULL; the conversion to uint32 wraps.
unfoldable pub seconds_of : Option ℕ → ℕ
seconds_of none = 0
seconds_of (some n) = n % 2 ^ 32

unfoldable pub message_of_row : Encodings → Row → ChannelMessage
message_of_row json row = record empty_channel_message {
  id = row.id;
  message_id = row.id;
  channel_id = row.channel_id;
  clan_id = row.clan_id;
  sender_id = row.sender_id;
  topic_id = row.topic_id;
  create_time_seconds = seconds_of row.create_time_seconds;
  content = row.content;
  mentions = json.mentions.from_json row.mentions;
  attachments = json.attachments.from_json row.attachments;
  reactions = json.reactions.from_json row.reactions;
  references = json.references.from_json row.msg_references;
}

unfoldable pub read_row : Encodings → Bytes → Result (Option Row) → Result (Option ChannelMessage)
read_row json message_id (err e) = err (get_error message_id e)
read_row json message_id (ok none) = ok none
read_row json message_id (ok (some row)) = ok (some (message_of_row json row))

unfoldable pub get_message_by_id :
    {D : Type 0} → Sql D → Encodings → D → Bytes → Bytes → Bytes → Result (Option ChannelMessage)
get_message_by_id sql json d message_id channel_id clan_id =
    read_row json message_id (sql.select d message_id channel_id clan_id)

-- MessageDatabase satisfies the interface.
unfoldable pub message_database : {D : Type 0} → Sql D → Encodings → MessageStore D
unfolding save_message get_message_by_id
message_database sql json = record {
  save_message = save_message sql json;
  get_message_by_id = get_message_by_id sql json;
}
