-- ===== src/Tests/Rests.antt =====
-- channelmessage.go, restapi.go, session.go and the stores on small inputs.
use mezon_sdk_go.Prelude.{
  ℕ, pos, ◌≡◌, refl, ◌⊎◌, ◌↔◌, ◌<◌, ◌++◌, [], ◌∷◌, none, some, true, false, Bytes, codes, arith,
  get_elem?, Option, bytes_eq, decimal, digits_onto, itoa,
}
use mezon_sdk_go.Errors.{Error, Result, ok, err}
use mezon_sdk_go.Types.{
  Mention, Attachment, MessageRef, itoa_id, mention_to_proto, mentions_to_proto,
  attachment_to_proto, attachments_to_proto, ref_to_proto, refs_to_proto,
}
use mezon_sdk_go.Inbound.{Codecs, decode_mentions, decode_attachments, decode_refs}
use mezon_sdk_go.Inbound.RoundTrip.{IsMention, IsAttachment, IsRef, decode-to_proto}
use mezon_sdk_go.ApiName.{api_names}
use mezon_sdk_go.Socket.Streams.{api_answer}
use mezon_sdk_go.Socket.Sending.{
  Sender, Outcome, answered, timed_out, wire_of, api_request_envelope, send_response,
  send_marshalled, write_and_wait, await, accept, error_of,
}
use mezon_sdk_go.Socket.Pending.{labelled}
use mezon_sdk_go.Rest.{Http, MezonApi, Target}
use mezon_sdk_go.Rest.Call.{Net, api_prefix, call, do_proto, do_proto_socket, send_over}
use mezon_sdk_go.Rest.Fallback.{ByHttp, Refused}
use mezon_sdk_go.Rest.Ends.{HasBody, Sent, do_proto-ends}
use mezon_sdk_go.Rest.Final.{api_failure, call-api_failure, call-timed_out}
use mezon_sdk_go.Rest.Endpoints.{list_roles_endpoint, endpoint_name, path_of}
use mezon_sdk_go.Rest.Names.{do_proto_socket-path_of}
use mezon_sdk_go.Session
use mezon_sdk_go.Session.{Session, Claims, Decoders, is_expired, is_refresh_expired}
use mezon_sdk_go.Session.Expiry.{is_expired_lem, update-all, Updated}

abbrev a_mention : Mention
a_mention = record {
  user_id = codes "7";
  role_id = codes "0";
  username = codes "bo";
  rolename = [];
  s = pos 0;
  e = pos 3;
  create_time_seconds = 5;
}

abbrev an_attachment : Attachment
an_attachment = record {
  filename = codes "a.png";
  size = pos 10;
  url = codes "u";
  filetype = codes "image/png";
  width = pos 4;
  height = pos 4;
  thumbnail = [];
  duration = pos 0;
}

abbrev a_ref : MessageRef
a_ref = record {
  message_id = codes "0";
  message_ref_id = codes "9";
  content = codes "{}";
  has_attachment = false;
  ref_type = pos 0;
  message_sender_id = codes "7";
  message_sender_username = codes "bo";
  message_sender_avatar = [];
  message_sender_clan_nick = [];
  message_sender_display_name = [];
}

abbrev fixed_codecs : Codecs
fixed_codecs = record {
  mentions = record { from_json = λ b. []; from_proto = λ b. ok (mention_to_proto a_mention ∷ []) };
  attachments = record {
    from_json = λ b. [];
    from_proto = λ b. ok (attachment_to_proto an_attachment ∷ []);
  };
  refs = record { from_json = λ b. []; from_proto = λ b. ok (ref_to_proto a_ref ∷ []) };
  reactions = record { from_json = λ b. []; from_proto = λ b. ok [] };
  text_of = λ b. b;
}

a_mention_lem : IsMention a_mention
unfolding itoa_id itoa decimal digits_onto
a_mention_lem = record {
  user_id = (pos 7, omega arith, refl);
  role_id = (pos 0, omega arith, refl);
  s = omega arith;
  e = omega arith;
}

an_attachment_lem : IsAttachment an_attachment
an_attachment_lem = record {
  size = omega arith;
  width = omega arith;
  height = omega arith;
  duration = omega arith;
}

a_ref_lem : IsRef a_ref
unfolding itoa_id itoa decimal digits_onto
a_ref_lem = record {
  message_id = (pos 0, omega arith, refl);
  message_ref_id = (pos 9, omega arith, refl);
  ref_type = omega arith;
  message_sender_id = (pos 7, omega arith, refl);
}

decode-to_proto_example :
    (decode_mentions fixed_codecs (10 ∷ 2 ∷ []) ≡ a_mention ∷ [])
    × (decode_attachments fixed_codecs (10 ∷ 3 ∷ []) ≡ an_attachment ∷ [])
    × (decode_refs fixed_codecs (10 ∷ 4 ∷ []) ≡ a_ref ∷ [])
unfolding mentions_to_proto attachments_to_proto refs_to_proto
decode-to_proto_example =
    decode-to_proto fixed_codecs (a_mention ∷ []) (an_attachment ∷ []) (a_ref ∷ []) (10 ∷ 2 ∷ [])
      (10 ∷ 3 ∷ []) (10 ∷ 4 ∷ []) ((2 ∷ [], refl), refl) ((3 ∷ [], refl), refl)
      ((4 ∷ [], refl), refl) (a_mention_lem, tt) (an_attachment_lem, tt) (a_ref_lem, tt)

abbrev open_sender : Sender
open_sender = record { connected = true; next_cid = 1; cids = []; native_ping = true; written = [] }

abbrev web : Http
web = record {
  refuses = λ url. none;
  exchange = λ request. ok (record { status_code = 200; body = codes "roles"; read_error = none });
}

abbrev net_with : Outcome → Net
net_with outcome = record {
  world = record {
    marshal = λ env. ok (codes "bytes");
    write = λ wire. none;
    meanwhile = λ cids. cids;
    outcome = outcome;
  };
  ch = 50;
  http = web;
}

abbrev raw_bytes : Target Bytes
raw_bytes = record { zero_value = []; unmarshal = some (λ b. ok b) }

abbrev on_line : MezonApi
on_line = record {
  api_key = codes "key";
  base_path = codes "https://gw";
  timeout = pos 7000;
  socket = some open_sender;
  sent = [];
}

abbrev off_line : MezonApi
off_line = record on_line { socket = none }

abbrev no_request : Option (Result Bytes)
no_request = none

do_proto-ends_example :
    let path = codes "/mezon.api.Mezon/ListRoles" in
    let net = net_with (answered (api_answer 7 [])) in
    let r = do_proto net (codes "t") path no_request raw_bytes on_line in
    ((e : Error) × (no_request ≡ some (err e)) × (r ≡ (on_line, err e)))
    ⊎ ((body : Bytes) × HasBody no_request body
        × Sent net body raw_bytes on_line (codes "t") path r)
do_proto-ends_example =
    do_proto-ends (net_with (answered (api_answer 7 []))) (codes "t")
      (codes "/mezon.api.Mezon/ListRoles") no_request raw_bytes on_line

roles_known : get_elem? api_names 4 ≡ some (codes "ListRoles")
unfolding api_names
roles_known = refl

refused_reply :
    (send_response
      (net_with (answered (api_answer 7 []))).world
      50
      (api_request_envelope 4 (codes "ListRoles") [])
      open_sender).1
    ≡ ok (api_answer 7 [])
unfolding send_response send_marshalled write_and_wait await accept error_of api_answer
refused_reply = refl

call-api_failure_example :
    let r =
      call
        (net_with (answered (api_answer 7 [])))
        (codes "t")
        (codes "ListRoles")
        (some (ok []))
        raw_bytes
        on_line in
    (r.1 ≡ err (api_failure (codes "ListRoles") 7)) × (r.0.sent ≡ [])
unfolding api_answer
call-api_failure_example =
    call-api_failure (net_with (answered (api_answer 7 []))) (codes "t") (codes "ListRoles") [] 4
      raw_bytes on_line open_sender refl refl roles_known (api_answer 7 []) refused_reply refl
      (λ e. absurd (omega (arith, e)))

call-timed_out_example :
    let net = net_with timed_out in
    let env = api_request_envelope 4 (codes "ListRoles") [] in
    let r = call net (codes "t") (codes "ListRoles") (some (ok [])) raw_bytes on_line in
    ((s : Sender) × (r.0.socket ≡ some s)
      × (s.written ≡ wire_of (labelled env open_sender) true (codes "bytes") ∷ []))
    × (ByHttp net [] raw_bytes on_line (codes "t") (api_prefix ++ codes "ListRoles") r
        ⊎ Refused net [] raw_bytes on_line (api_prefix ++ codes "ListRoles") r)
call-timed_out_example =
    call-timed_out (net_with timed_out) (codes "t") (codes "ListRoles") [] 4 raw_bytes on_line
      open_sender refl refl roles_known (codes "bytes") refl refl refl

do_proto_socket-path_of_example :
    let net = net_with timed_out in
    ((index : ℕ) × (get_elem? api_names index ≡ some (endpoint_name list_roles_endpoint)))
    × (do_proto_socket net (path_of list_roles_endpoint) [] raw_bytes on_line
        ≡ send_over net (endpoint_name list_roles_endpoint) [] raw_bytes open_sender on_line)
do_proto_socket-path_of_example =
    do_proto_socket-path_of list_roles_endpoint (net_with timed_out) [] raw_bytes on_line
      open_sender refl refl

-- The claims' variables are left out.
abbrev a_session : Session (Unit {0})
a_session = record {
  token = codes "old";
  refresh_token = codes "r";
  created_at = pos 0;
  expires_at = pos 1000;
  refresh_expires_at = pos 2000;
  user_id = codes "7";
  vars = tt;
  api_url = [];
  id_token = [];
  ws_url = [];
  tcp_url = [];
}

is_expired_lem_example :
    ((is_expired a_session (pos 1500) ≡ true) ↔ (1000 < 1500))
    × ((is_refresh_expired a_session (pos 1500) ≡ true) ↔ (2000 < 1500))
is_expired_lem_example =
    is_expired_lem a_session 1000 2000 1500 refl refl (omega arith) (omega arith) (omega arith)

abbrev plain_decoders : Decoders (Unit {0})
plain_decoders = record {
  raw_url = λ part. ok part;
  std = λ part. ok part;
  claims = λ payload. ok (record { exp = payload; vrs = tt });
  no_vars = tt;
}

update-all_example :
    let u = Session.update plain_decoders (codes "a.3000.b") [] a_session in
    ((e : Error) × (u ≡ (a_session, some e)))
    ⊎ ((u.1 ≡ none) × Updated plain_decoders (codes "a.3000.b") [] a_session u.0)
update-all_example = update-all plain_decoders (codes "a.3000.b") [] a_session
