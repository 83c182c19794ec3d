-- ===== src/Tests/Clients.antt =====
-- The client's caches, the shared store and the message store on small inputs.
use mezon_sdk_go.Prelude.{
  ℕ, pos, ◌≡◌, refl, ap, inl, ◌∙◌, List, [], ◌∷◌, none, some, Bytes, codes, arith, lookup, insert,
  delete, lookup-insert, lookup-delete, bytes_eq, nat_eq, beq_refl, itoa, decimal, digits_onto,
}
use mezon_sdk_go.Errors.{err_send_timeout, ok, err}
use mezon_sdk_go.Types.{itoa_id}
use mezon_sdk_go.Cache.{get, new_cache_manager}
use mezon_sdk_go.Socket.Sending.{timed_out}
use mezon_sdk_go.Rest.{MezonApi}
use mezon_sdk_go.Rest.Call.{Net}
use mezon_sdk_go.Entities.{TextChannel, Clan, ChannelDescription, is_zero}
use mezon_sdk_go.Entities.Channels.{new_clan, new_text_channel}
use mezon_sdk_go.Client.{Client, Setting, SharedStore}
use mezon_sdk_go.Client.Shared.{
  clan_channel, cached_channel, upsert_channel, build_channel, built, fetch_channel, shared_channel,
}
use mezon_sdk_go.Client.Identity.{Registered, upsert_channel-keeps}
use mezon_sdk_go.Client.Lookup.{IsLawful, with_l2}
use mezon_sdk_go.Client.{l2_get, hit_of}
use mezon_sdk_go.Rest.{
  post, perform, read_exchange, read_response, read_body, fill, fill_from, do_http,
}
use mezon_sdk_go.Rest.Call.{do_proto, do_marshalled, do_proto_socket, or_http, body_of}
use mezon_sdk_go.Rest.Endpoints.{list_channel_detail, invoke}
use mezon_sdk_go.Client.Layers.{fetch_channel-shared, fetch_channel-store_failure}

abbrev pub Memory : Type 0
Memory = List (Bytes × Bytes)

abbrev pub memory_store : SharedStore Memory
memory_store = record {
  get = λ s key. ok (lookup key s);
  set = λ s key value ttl. (insert key value s, none);
  delete = λ s key. (delete key s, none);
}

pub memory_store-IsLawful : IsLawful memory_store
memory_store-IsLawful = record {
  get-set = λ s key value ttl h. ap ok (lookup-insert key key value s ∙ rw (beq_refl key) refl);
  get-set_other = λ s key j value ttl different.
      ap ok (ground (arith, lookup-insert key j value s, bytes_eq.beq_iff key j));
  get-delete = λ s key h. ap ok (lookup-delete key key s ∙ rw (beq_refl key) refl);
}

abbrev pub a_desc : ChannelDescription
a_desc = record {
  clan_id = pos 3;
  parent_id = pos 0;
  channel_id = pos 8;
  category_id = pos 0;
  category_name = [];
  type = pos 1;
  channel_label = codes "general";
  channel_private = pos 0;
  user_ids = [];
  meeting_code = [];
}

abbrev pub setting : Setting Memory
setting = record {
  store = some memory_store;
  cache_ttl = pos 300;
  encode_desc = λ d. ok (codes "8");
  decode_desc = λ b. ok a_desc;
  encode_user = λ u. ok (codes "u");
  decode_user = λ b. err err_send_timeout;
  marshal = λ r. ok [];
  desc_target = record { zero_value = a_desc; unmarshal = some (λ b. ok a_desc) };
  desc_list_target = record { zero_value = []; unmarshal = some (λ b. ok (a_desc ∷ [])) };
}

abbrev pub answering : Net
answering = record {
  world = record {
    marshal = λ env. ok [];
    write = λ wire. none;
    meanwhile = λ cids. cids;
    outcome = timed_out;
  };
  ch = 50;
  http = record {
    refuses = λ url. none;
    exchange = λ r. ok (record { status_code = 200; body = codes "d"; read_error = none });
  };
}

abbrev pub an_api : MezonApi
an_api = record {
  api_key = [];
  base_path = codes "https://gw";
  timeout = pos 7000;
  socket = none;
  sent = [];
}

abbrev pub empty_client : Client Memory
empty_client = record {
  client_id = codes "1";
  api = an_api;
  session = some (codes "t");
  clans = new_cache_manager (pos 0);
  channels = new_cache_manager (pos 5000);
  users = new_cache_manager (pos 5000);
  clan_heap = [];
  channel_heap = [];
  user_heap = [];
  message_heap = [];
  fresh = 0;
  dm_by_user = [];
  dm_descs = [];
  l2 = [];
}

abbrev pub a_clan : Clan
a_clan = new_clan (codes "3") (codes "c") [] (codes "c") (codes "1") (codes "t")

abbrev pub a_channel : TextChannel
a_channel = new_text_channel a_desc 0

-- A client with one clan at 0 and one channel at 1.
abbrev pub small_client : Client Memory
small_client = record empty_client {
  clan_heap = (0, a_clan) ∷ [];
  clans = record { items = (codes "3", 0) ∷ []; order = codes "3" ∷ []; max_size = pos 0 };
  channel_heap = (1, a_channel) ∷ [];
  channels = record { items = (codes "8", 1) ∷ []; order = codes "8" ∷ []; max_size = pos 5000 };
  fresh = 2;
}

pub small_clan : lookup {K = ℕ} 0 small_client.clan_heap ≡ some a_clan
unfolding lookup
small_clan = refl

pub small_channel : lookup {K = ℕ} 1 small_client.channel_heap ≡ some a_channel
unfolding lookup
small_channel = refl

small_cached : cached_channel 0 (itoa_id (pos 8)) small_client ≡ some 1
unfolding cached_channel clan_channel lookup itoa_id itoa decimal digits_onto get new_clan
    new_cache_manager
small_cached = refl

upsert_channel-keeps_example :
    let r = upsert_channel 0 a_desc small_client in
    (r.1 ≡ 1)
    × Registered 0 (itoa_id (pos 8)) 1 r.0
    × ((ch : TextChannel) × (lookup {K = ℕ} 1 r.0.channel_heap ≡ some ch)
        × (ch.messages ≡ a_channel.messages)
        × (ch.id ≡ a_channel.id)
        × (ch.name ≡ codes "general"))
upsert_channel-keeps_example =
    upsert_channel-keeps 0 1 a_desc a_channel small_client (a_clan, small_clan) small_cached
      small_channel

missed : shared_channel setting (codes "8") empty_client ≡ none
unfolding shared_channel l2_get hit_of lookup
missed = refl

answered_desc :
    (list_channel_detail answering setting.marshal setting.desc_target
      (codes "t")
      (codes "8")
      an_api).1
    ≡ ok a_desc
unfolding list_channel_detail invoke do_proto do_marshalled do_proto_socket or_http do_http post
    perform read_exchange read_response read_body fill fill_from body_of
answered_desc = refl

abbrev other_client : Client Memory
other_client = with_l2 (fetch_channel setting answering (codes "8") empty_client).0.l2 small_client

fetch_channel-shared_example :
    fetch_channel setting answering (codes "8") other_client
    ≡ built (build_channel a_desc other_client)
unfolding is_zero
fetch_channel-shared_example =
    fetch_channel-shared setting memory_store refl answering answering (codes "8") (codes "t")
      (codes "t") (codes "8") a_desc empty_client other_client memory_store-IsLawful refl refl
      missed answered_desc refl refl refl refl refl

abbrev broken_store : SharedStore Memory
broken_store = record memory_store { get = λ s key. err err_send_timeout }

fetch_channel-store_failure_example :
    let env : Setting Memory = record setting { store = some broken_store } in
    let r = fetch_channel env answering (codes "8") empty_client in
    let plain = fetch_channel (record env { store = none }) answering (codes "8") empty_client in
    r ≡ (with_l2 r.0.l2 plain.0, plain.1)
fetch_channel-store_failure_example =
    fetch_channel-store_failure (record setting { store = some broken_store }) broken_store refl
      answering (codes "8") (codes "t") empty_client refl (inl (err_send_timeout, refl))
