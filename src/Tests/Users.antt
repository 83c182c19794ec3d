-- ===== src/Tests/Users.antt =====
-- user.go on a small input.
use mezon_sdk_go.Prelude.{
  pos, Bytes, ◌≡◌, refl, ap, sym, subst, ◌∙◌, Bool, [], ◌∷◌, Option, none, some, true, false, codes,
  lookup, insert, nat_eq, bytes_eq, itoa, decimal, digits_onto,
}
use mezon_sdk_go.Content.{validate_content_length}
use mezon_sdk_go.Utf16.{utf16_len, utf16_len_from}
use mezon_sdk_go.Errors.{Result, ok}
use mezon_sdk_go.ApiName.{api_index_from_name, api_name_index, index_names, api_names}
use mezon_sdk_go.Helper.{is_valid_user_id, all_digits}
use mezon_sdk_go.Socket.Sending.{
  send_api_request, send_response, send_marshalled, write_and_wait, await, accept, error_of, enter,
  reply_of, send, envelope_reply, socket_error, with_cids,
}
use mezon_sdk_go.Rest.{
  post, perform, read_exchange, read_response, read_body, fill, fill_from, do_http,
}
use mezon_sdk_go.Rest.Call.{
  do_proto, do_marshalled, do_proto_socket, do_proto_open, send_over, handle_reply,
  is_transport_error, or_http, body_of, known_name, trim_prefix, after_prefix, api_prefix,
}
use mezon_sdk_go.Rest.Endpoints.{create_channel_desc, invoke, path_of, endpoint_name}
use mezon_sdk_go.Client.Clans.{with_api}
use mezon_sdk_go.Client.Dm.{create_dm_as, join_dm, dm_request, use_socket}
use mezon_sdk_go.Types.{itoa_id}
use mezon_sdk_go.Cache.{get, new_cache_manager}
use mezon_sdk_go.Socket.{Ref, Envelope, empty_envelope}
use mezon_sdk_go.Socket.Sending.{Sender, answered}
use mezon_sdk_go.Socket.Write.{
  Exchange, Exchanges, join_chat, send_request, reply_field, reply_with, write_with_retry,
  retry_after_join,
}
use mezon_sdk_go.Socket.Messages.{write_chat_message, with_content, message_of, check_length}
use mezon_sdk_go.Socket.ReadLoop.{envelope_answer}
use mezon_sdk_go.Entities.{User, is_zero}
use mezon_sdk_go.Client.{Client}
use mezon_sdk_go.Client.Wiring.{IsWired}
use mezon_sdk_go.Client.Dm.{create_dm_channel}
use mezon_sdk_go.Client.Messages.{Contents, on_socket}
use mezon_sdk_go.Client.Users.{dm_data, note_opened, open_dm}
use mezon_sdk_go.Client.Users.Created.{create_dm_channel-api}
use mezon_sdk_go.Client.Fetched.{with_api-IsWired}
use mezon_sdk_go.Rest.{MezonApi}
use mezon_sdk_go.Client.Users.Opened.{note_opened-api}
use mezon_sdk_go.Tests.Clients.{Memory, setting, answering, an_api, a_desc, empty_client}

abbrev bo : User
bo = record {
  id = codes "1775732550744936448";
  username = codes "bo";
  clan_nick = [];
  clan_avatar = [];
  display_name = [];
  avatar = [];
  dm_channel_id = [];
}

abbrev a_sender : Sender
a_sender = record { connected = true; next_cid = 1; cids = []; native_ping = true; written = [] }

abbrev acknowledged : Envelope
acknowledged = record empty_envelope { reply = λ field. some 77 }

abbrev accepting : Exchange
accepting = (
  record {
    marshal = λ e. ok (codes "bytes");
    write = λ wire. none;
    meanwhile = λ cids. [];
    outcome = answered (envelope_answer acknowledged);
  },
  60,
)

abbrev all_accepting : Exchanges
all_accepting = record { first = accepting; joining = accepting; second = accepting }

abbrev dm_contents : Contents
dm_contents = record {
  marshal = λ content. ok (codes "{}");
  raw = λ content. ok (codes "{}");
  ack_at = λ ref. record {
    channel_id = pos 8;
    message_id = pos 77;
    code = pos 0;
    username = [];
    create_time_seconds = 1;
    update_time_seconds = 1;
    persistent = none;
  };
}

-- A connected client that knows one user, at the address 5.
abbrev dm_client : Client Memory
dm_client = record empty_client {
  api = record an_api { socket = some a_sender };
  user_heap = (5, bo) ∷ [];
  fresh = 6;
}

dm_client-IsWired : IsWired dm_client
unfolding get lookup new_cache_manager
dm_client-IsWired = record {
  clans = λ id p h. absurd (cc);
  channels = λ id q h. absurd (cc);
  clan_channels = λ p clan id q there h. absurd (cc);
  homes = λ q ch h. absurd (cc);
  fresh = λ p h. (refl, refl);
}

desc_valid : is_zero a_desc.channel_id ≡ false
unfolding is_zero
desc_valid = refl

created : (create_dm_channel setting answering accepting bo.id dm_client).1 ≡ ok a_desc
unfolding create_dm_channel create_dm_as join_dm with_api is_valid_user_id all_digits
    create_channel_desc invoke do_proto do_marshalled do_proto_socket do_proto_open send_over
    handle_reply is_transport_error or_http do_http post perform read_exchange read_response
    read_body fill fill_from body_of known_name send_api_request send_response send_marshalled
    write_and_wait await accept error_of enter trim_prefix after_prefix api_index_from_name
    api_name_index index_names api_names lookup insert reply_of dm_request itoa_id itoa decimal
    digits_onto use_socket api_prefix path_of endpoint_name
created = refl

abbrev dm_id : Bytes
dm_id = itoa_id a_desc.channel_id

abbrev opened : Client Memory
opened = open_dm setting answering accepting 5 bo.id [] dm_client

abbrev write : Sender → Sender × Result (Option Ref)
write = write_chat_message dm_contents.marshal all_accepting (dm_data dm_id (some 3) (pos 0) [])

abbrev is_up : Option Sender → Bool
is_up none = false
is_up (some s) = s.connected

-- A connected socket takes the message.
write_accepted : (s : Sender) → s.connected ≡ true → (write s).1 ≡ ok (some 77)
unfolding write_chat_message dm_data with_content message_of check_length write_with_retry
    send_request reply_field reply_with retry_after_join send send_response send_marshalled
    write_and_wait await accept error_of envelope_reply socket_error envelope_answer enter
    validate_content_length utf16_len utf16_len_from
write_accepted s up =
    subst (λ b. (write (record s { connected = b })).1 ≡ ok (some 77)) (sym up) refl

still_up : is_up (create_dm_channel setting answering accepting bo.id dm_client).0.api.socket ≡ true
unfolding create_dm_channel create_dm_as join_dm with_api is_valid_user_id all_digits
    create_channel_desc invoke do_proto do_marshalled do_proto_socket do_proto_open send_over
    handle_reply is_transport_error or_http do_http post perform read_exchange read_response
    read_body fill fill_from body_of known_name send_api_request send_response send_marshalled
    write_and_wait await accept error_of enter trim_prefix after_prefix api_index_from_name
    api_name_index index_names api_names lookup insert reply_of dm_request itoa_id itoa decimal
    digits_onto use_socket api_prefix path_of endpoint_name join_chat send_request send with_cids
still_up = refl

abbrev created_in : Client Memory
created_in = (create_dm_channel setting answering accepting bo.id dm_client).0

created_in-IsWired : IsWired created_in
unfolding with_api
created_in-IsWired =
    let kept = create_dm_channel-api setting answering accepting bo.id dm_client in
    subst IsWired (sym kept.1) (with_api-IsWired kept.0 dm_client dm_client-IsWired)

opened_up : is_up opened.api.socket ≡ true
unfolding open_dm
opened_up =
    ap (λ r. is_up (note_opened 5 (created_in, r)).api.socket) created
    ∙ ap (λ (a : MezonApi). is_up a.socket)
        (note_opened-api 5 a_desc created_in desc_valid created_in-IsWired)
    ∙ still_up

abbrev after : Client Memory
after = (on_socket write opened).0

taken :
    (o : Option Sender) (a : MezonApi)
    → is_up o ≡ true
    → (use_socket write (record a { socket = o })).1 ≡ ok (some 77)
unfolding use_socket
taken none a h = absurd (cc)
taken (some s) a h = write_accepted s h

written : on_socket write opened ≡ (after, ok (some 77))
unfolding on_socket
written = ap (λ r. (after, r)) (taken opened.api.socket opened.api opened_up)
