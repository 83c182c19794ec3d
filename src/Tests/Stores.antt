-- ===== src/Tests/Stores.antt =====
-- The stores, the handlers and the messages of a client on small inputs.
use mezon_sdk_go.Prelude.{
  ℕ, pos, negsuc, ◌≡◌, refl, ap, ◌∙◌, List, [], ◌∷◌, ◌++◌, Option, none, some, Bool, true, false,
  Bytes, codes, arith, lookup, insert, delete, lookup-insert, lookup-delete, bytes_eq, nat_eq,
  same_bytes, same_bytes_refl, beq_refl, itoa, decimal, digits_onto, if◌then◌else◌,
}
use mezon_sdk_go.Errors.{ok}
use mezon_sdk_go.Types.{itoa_id}
use mezon_sdk_go.Cache.{get, new_cache_manager}
use mezon_sdk_go.Socket.Data.{ReplyMessageData}
use mezon_sdk_go.Inbound.Fields.{ChannelMessage, empty_channel_message}
use mezon_sdk_go.Rest.{Target}
use mezon_sdk_go.Entities.{Message}
use mezon_sdk_go.Entities.Channels.{new_text_channel, update_from_desc, blank_channel, new_clan}
use mezon_sdk_go.Client.Wiring.{IsWired}
use mezon_sdk_go.Client.Lookup.{IsLawful}
use mezon_sdk_go.Client.Connect.{ClanDesc, Visit, post_connect_init}
use mezon_sdk_go.Client.Connect.Joins.{post_connect_init-IsWired}
use mezon_sdk_go.Client.Events.{on_channel_gone, load_message_from_store}
use mezon_sdk_go.Client.Events.Deleted.{GoneFrom, deleted, on_channel_gone-evicts}
use mezon_sdk_go.Client.{l2_channel_prefix}
use mezon_sdk_go.Client.Messages.{Contents, create_message_from_ack}
use mezon_sdk_go.Client.Sent.{Cached, identity, create_message_from_ack_lem}
use mezon_sdk_go.RedisStore.{Reply, nil_reply, bytes_reply, UniversalClient, shared_store}
use mezon_sdk_go.RedisStore.Lawful.{KeepsKeys, shared_store-IsLawful}
use mezon_sdk_go.MessageDb.{Row, Sql, Json, Encodings, message_database, save_message}
use mezon_sdk_go.MessageDb.Saved.{KeepsRows, stored, load_message_from_store-save}
use mezon_sdk_go.Tests.Clients.{
  Memory, setting, answering, empty_client, small_client, a_clan, a_channel, small_channel,
}

-- Nothing is cached in a new client.
empty_client-IsWired : IsWired empty_client
unfolding get lookup new_cache_manager
empty_client-IsWired = record {
  clans = λ id p h. absurd (cc);
  channels = λ id q h. absurd (cc);
  clan_channels = λ p clan id q there h. absurd (cc);
  homes = λ q ch h. absurd (cc);
  fresh = λ p h. (refl, refl);
}

abbrev pub clan_target : Target (List ClanDesc)
clan_target = record {
  zero_value = [];
  unmarshal = some (λ b.
      ok (record { clan_id = pos 3; clan_name = codes "c"; welcome_channel_id = pos 0 } ∷ []));
}

abbrev pub a_visit : ℕ → Bytes → Visit
a_visit attempt id = record { net = answering; joining = (answering.world, 50) }

post_connect_init-IsWired_example :
    IsWired
      (post_connect_init setting clan_target answering a_visit answering (codes "t") empty_client).0
post_connect_init-IsWired_example =
    post_connect_init-IsWired setting clan_target answering a_visit answering (codes "t")
      empty_client empty_client-IsWired

on_channel_gone-evicts_example :
    let r = on_channel_gone setting (pos 3) (pos 8) small_client in
    (get r.channels (itoa_id (pos 8)) ≡ none)
    × GoneFrom (get small_client.clans (itoa_id (pos 3))) (itoa_id (pos 8)) r
    × (r.l2 ≡ deleted setting.store (l2_channel_prefix ++ itoa_id (pos 8)) [])
    × (r.session ≡ some (codes "t"))
on_channel_gone-evicts_example = on_channel_gone-evicts setting (pos 3) (pos 8) small_client

abbrev plain_contents : Contents
plain_contents = record {
  marshal = λ content. ok (codes "{}");
  raw = λ content. ok (codes "{}");
  ack_at = λ ref. record {
    channel_id = pos 8;
    message_id = pos 77;
    code = pos 0;
    username = [];
    create_time_seconds = 1;
    update_time_seconds = 1;
    persistent = none;
  };
}

abbrev small_data : ReplyMessageData
small_data = record {
  clan_id = codes "3";
  channel_id = codes "8";
  channel_type = pos 1;
  mode = pos 2;
  is_public = true;
  content = none;
  mentions = [];
  attachments = [];
  references = [];
  anonymous_message = false;
  mention_everyone = false;
  avatar = [];
  code = pos 0;
  topic_id = [];
}

create_message_from_ack_lem_example :
    let ack = some (plain_contents.ack_at 0) in
    let r = create_message_from_ack plain_contents 1 a_channel ack small_data small_client in
    ((m : Message) × (lookup {K = ℕ} r.1 r.0.message_heap ≡ some m) × (m.id ≡ identity ack))
    × Cached 1 a_channel (identity ack) r.1 small_client r.0
create_message_from_ack_lem_example =
    create_message_from_ack_lem plain_contents 1 a_channel (some (plain_contents.ack_at 0))
      small_data small_client small_channel

abbrev reply_of : Option Bytes → Reply
reply_of none = nil_reply
reply_of (some b) = bytes_reply b

-- A negative expiry stores nothing.
abbrev memory_redis : UniversalClient Memory
memory_redis = record {
  get = λ s key. reply_of (lookup key s);
  set = λ s key value ttl. elim ttl [ pos n ↦ (insert key value s, none) | negsuc n ↦ (s, none) ];
  del = λ s key. (delete key s, none);
}

lookup-insert_self : (key value : Bytes) (s : Memory) → lookup key (insert key value s) ≡ some value
lookup-insert_self key value s = lookup-insert key key value s ∙ rw (beq_refl key) refl

lookup-delete_self : (key : Bytes) (s : Memory) → lookup key (delete key s) ≡ none
lookup-delete_self key s = lookup-delete key key s ∙ rw (beq_refl key) refl

memory_redis-KeepsKeys : KeepsKeys memory_redis
memory_redis-KeepsKeys = record {
  get-set = λ s key value ttl h. ap reply_of (lookup-insert_self key value s);
  get-set_other = λ s key j value ttl different.
      ap reply_of (ground (arith, lookup-insert key j value s, bytes_eq.beq_iff key j));
  get-del = λ s key h. ap reply_of (lookup-delete_self key s);
}

shared_store-IsLawful_example :
    IsLawful (shared_store (record { client = memory_redis; prefix = codes "bot:" }))
shared_store-IsLawful_example =
    shared_store-IsLawful (record { client = memory_redis; prefix = codes "bot:" })
      memory_redis-KeepsKeys

abbrev same_key : Row → Bytes → Bytes → Bytes → Bool
same_key row id channel_id clan_id =
    if same_bytes row.id id
    then (if same_bytes row.channel_id channel_id then same_bytes row.clan_id clan_id else false)
    else false

abbrev one_row : Sql (Option Row)
one_row = record {
  insert_or_replace = λ d row. (some row, none);
  select = λ d id channel_id clan_id. elim d [
    | none ↦ ok none
    | some row ↦ if same_key row id channel_id clan_id then ok (some row) else ok none
  ];
}

one_row-KeepsRows : KeepsRows one_row
one_row-KeepsRows = record {
  select_inserted = λ d row h.
      rw (same_bytes_refl row.id, same_bytes_refl row.channel_id, same_bytes_refl row.clan_id) refl;
}

a_channel_id : a_channel.id ≡ codes "8"
unfolding new_text_channel update_from_desc blank_channel itoa_id itoa decimal digits_onto
a_channel_id = refl

a_clan_id : a_clan.id ≡ codes "3"
unfolding new_clan
a_clan_id = refl

abbrev no_json : {A : Type 0} → Json A
no_json = record { to_json = λ xs. ok (codes "[]"); from_json = λ b. [] }

abbrev no_encodings : Encodings
no_encodings = record {
  mentions = no_json;
  attachments = no_json;
  reactions = no_json;
  references = no_json;
}

abbrev an_inbound : ChannelMessage
an_inbound = record empty_channel_message {
  id = codes "77";
  message_id = codes "77";
  channel_id = codes "8";
  clan_id = codes "3";
  sender_id = codes "9";
  username = codes "bo";
  create_time_seconds = 5;
}

load_message_from_store-save_example :
    load_message_from_store
      (some (message_database one_row no_encodings))
      (save_message one_row no_encodings none an_inbound).0
      1
      a_channel
      a_clan
      (codes "77")
    ≡ ok (stored an_inbound 1)
unfolding empty_channel_message
load_message_from_store-save_example =
    load_message_from_store-save one_row no_encodings none an_inbound 1 a_channel a_clan 55
      (55 ∷ []) one_row-KeepsRows refl refl a_channel_id a_clan_id (codes "[]", refl, refl)
      (codes "[]", refl, refl) (codes "[]", refl, refl) (codes "[]", refl, refl) (omega arith)
