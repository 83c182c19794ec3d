-- ===== src/MessageDb/Saved.antt =====
-- messagedb/messagedb.go with message.go: what comes back of a message that was saved.
use mezon_sdk_go.Prelude.{
  ℕ, pos, ◌^◌, ◌<◌, ◌≡◌, refl, sym, ap, ◌∙◌, List, [], ◌∷◌, Option, none, some, Bytes, codes, arith,
}
use mezon_sdk_go.Errors.{Error, ok}
use mezon_sdk_go.Inbound.Fields.{ChannelMessage, empty_channel_message}
use mezon_sdk_go.Entities.{Address, TextChannel, Clan, Message, or_string}
use mezon_sdk_go.Entities.Messages.{new_message_from_channel_message}
use mezon_sdk_go.Client.Events.{load_message_from_store, loaded_message}
use mezon_sdk_go.MessageDb.{
  Row, Sql, Json, Encodings, marshal_json, row_of, saved, save_message, seconds_of, message_of_row,
  read_row, get_message_by_id, message_database,
}

-- A primary key of three columns: a row that was written without an error is read by its key.
pub record KeepsRows {D : Type 0} (sql : Sql D) : Type 0 where
  pub select_inserted :
      (d : D) (row : Row)
      → (sql.insert_or_replace d row).1 ≡ none
      → sql.select (sql.insert_or_replace d row).0 row.id row.channel_id row.clan_id ≡ ok (some row)

-- JSON reads back the list that it writes.
abbrev pub ReadsBack : {A : Type 0} → Json A → List A → Type 0
ReadsBack json xs = (b : Bytes) × (json.to_json xs ≡ ok b) × (json.from_json b ≡ xs)

read_back :
    {A : Type 0} (json : Json A) (xs : List A)
    → ReadsBack json xs
    → json.from_json (marshal_json (json.to_json xs) (codes "[]")) ≡ xs
unfolding marshal_json
read_back json xs (b, written, read) =
    ap (λ r. json.from_json (marshal_json r (codes "[]"))) written ∙ read

saved-state : {D : Type 0} (id : Bytes) (r : D × Option Error) → (saved id r).0 ≡ r.0
unfolding saved
saved-state id (d, none) = refl
saved-state id (d, some e) = refl

or_string_set : (c : ℕ) (s fallback : Bytes) → or_string (c ∷ s) fallback ≡ c ∷ s
unfolding or_string
or_string_set c s fallback = refl

seconds_of-fits : (n : ℕ) → n < 2 ^ 32 → seconds_of (some n) ≡ n
unfolding seconds_of
seconds_of-fits n h = omega arith

row_id :
    (json : Encodings) (msg : ChannelMessage) (c : ℕ) (id : Bytes)
    → msg.message_id ≡ c ∷ id
    → (row_of json msg).id ≡ msg.message_id
unfolding row_of
row_id json msg c id named =
    ap (λ m. or_string m msg.id) named ∙ or_string_set c id msg.id ∙ sym named

row_channel :
    (json : Encodings) (msg : ChannelMessage) → msg.channel_id ≡ (row_of json msg).channel_id
unfolding row_of
row_channel json msg = refl

row_clan : (json : Encodings) (msg : ChannelMessage) → msg.clan_id ≡ (row_of json msg).clan_id
unfolding row_of
row_clan json msg = refl

-- What is left of a message that goes through the table.
abbrev pub stored : ChannelMessage → Address → Message
stored msg q = record (new_message_from_channel_message msg q) {
  content = or_string msg.content (codes "{}");
  code = pos 0;
  mode = pos 0;
  username = [];
  update_time_seconds = 0;
}

row_message :
    (json : Encodings) (msg : ChannelMessage) (q : Address)
    → (row_of json msg).id ≡ msg.message_id
    → ReadsBack json.mentions msg.mentions
    → ReadsBack json.attachments msg.attachments
    → ReadsBack json.reactions msg.reactions
    → ReadsBack json.references msg.references
    → msg.create_time_seconds < 2 ^ 32
    → new_message_from_channel_message (message_of_row json (row_of json msg)) q ≡ stored msg q
unfolding new_message_from_channel_message message_of_row row_of empty_channel_message
row_message json msg q key rm ra rr rf fits = ground (
  arith,
  key,
  read_back json.mentions msg.mentions rm,
  read_back json.attachments msg.attachments ra,
  read_back json.reactions msg.reactions rr,
  read_back json.references msg.references rf,
  seconds_of-fits msg.create_time_seconds fits,
)

-- A message that was saved in the database comes back from the cache of its channel as a message
-- with its id, channel, clan, sender, content, mentions, attachments, references, reactions, topic
-- and time of creation, an empty content as "{}". What the table has no column for is lost: its
-- code, mode, sender's name and time of update are the zero values.
pub load_message_from_store-save :
    {D : Type 0} (sql : Sql D) (json : Encodings) (d : D) (msg : ChannelMessage) (q : Address)
    (ch : TextChannel) (clan : Clan) (c : ℕ) (id : Bytes)
    → KeepsRows sql
    → (sql.insert_or_replace d (row_of json msg)).1 ≡ none
    → msg.message_id ≡ c ∷ id
    → ch.id ≡ msg.channel_id
    → clan.id ≡ msg.clan_id
    → ReadsBack json.mentions msg.mentions
    → ReadsBack json.attachments msg.attachments
    → ReadsBack json.reactions msg.reactions
    → ReadsBack json.references msg.references
    → msg.create_time_seconds < 2 ^ 32
    → load_message_from_store
        (some (message_database sql json))
        (save_message sql json d msg).0
        q
        ch
        clan
        msg.message_id
      ≡ ok (stored msg q)
unfolding load_message_from_store message_database get_message_by_id save_message read_row
    loaded_message
load_message_from_store-save sql json d msg q ch clan c id keeps accepted named here home rm ra rr
      rf fits =
    let row = row_of json msg in
    let key = row_id json msg c id named in
    let back = keeps.select_inserted d row accepted in
    let found =
      ap (λ t. sql.select t msg.message_id ch.id clan.id)
        (saved-state row.id (sql.insert_or_replace d row))
      ∙ ap (λ k. sql.select (sql.insert_or_replace d row).0 msg.message_id k clan.id)
          (here ∙ row_channel json msg)
      ∙ ap (λ k. sql.select (sql.insert_or_replace d row).0 msg.message_id row.channel_id k)
          (home ∙ row_clan json msg)
      ∙ ap (λ k. sql.select (sql.insert_or_replace d row).0 k row.channel_id row.clan_id) (sym key)
      ∙ back in
    ap (λ r. loaded_message q (read_row json msg.message_id r)) found
    ∙ ap ok (row_message json msg q key rm ra rr rf fits)
