-- ===== src/Tests/Requests.antt =====
-- Sending, API names, ids, the throttle and the emitter on small inputs.
use mezon_sdk_go.Prelude.{
  ℕ, ◌%◌, ◌^◌, ◌≡◌, refl, Bytes, true, List, [], ◌∷◌, none, some, arith, lookup, insert, nat_eq,
  bytes_eq, codes, inr,
}
use mezon_sdk_go.Errors.{err_socket_closed, ok, err}
use mezon_sdk_go.Socket.{empty_envelope}
use mezon_sdk_go.Socket.Cids.{take_raw_cid, generate_cid}
use mezon_sdk_go.Socket.Routing.{InWindow}
use mezon_sdk_go.Socket.Streams.{api_answer}
use mezon_sdk_go.Socket.Sending.{
  Sender, World, Outcome, answered, timed_out, torn_down, enter, send_response, send_api_request,
  send_marshalled, write_and_wait, await, accept, error_of, api_reply, reply_of,
}
use mezon_sdk_go.Socket.Pending.{cid_of, send_response-cleared, send_response-torn_down}
use mezon_sdk_go.Helper.{Snowflake, snowflake_bits, next_seq}
use mezon_sdk_go.Helper.Snowflakes.{Increasing, ids, ids-Increasing}

abbrev fresh_sender : Sender
fresh_sender = record {
  connected = true;
  next_cid = 1;
  cids = [];
  native_ping = true;
  written = [];
}

abbrev world_with : Outcome → World
world_with outcome = record {
  marshal = λ env. ok (codes "bytes");
  write = λ wire. none;
  meanwhile = λ cids. cids;
  outcome = outcome;
}

send_response-cleared_example :
    lookup
      (cid_of fresh_sender)
      (send_response (world_with timed_out) 50 empty_envelope fresh_sender).0.cids
    ≡ none
send_response-cleared_example =
    send_response-cleared (world_with timed_out) 50 empty_envelope fresh_sender refl
      (inr (inr (codes "bytes", refl, refl, refl)))

entered : lookup (cid_of fresh_sender) (enter 50 fresh_sender).cids ≡ some 50
unfolding enter insert lookup generate_cid
entered = refl

entered_window : InWindow 0 (enter 50 fresh_sender).cids
unfolding enter insert generate_cid
entered_window = (omega arith, omega arith, tt)

send_response-torn_down_example :
    let r = send_response (world_with torn_down) 50 empty_envelope fresh_sender in
    (r.1 ≡ err err_socket_closed)
    × (lookup (cid_of fresh_sender) r.0.cids ≡ some 50)
    × ((take_raw_cid (cid_of fresh_sender % 2 ^ 16) r.0.cids).0 ≡ some 50)
send_response-torn_down_example =
    send_response-torn_down (world_with torn_down) 50 empty_envelope fresh_sender (codes "bytes") 0
      refl refl refl refl entered entered_window

abbrev api_world : World
api_world = world_with (answered (api_answer 0 (codes "body")))

api_called :
    (send_api_request api_world (λ name. some 3) 50 (codes "ListClanUsers") [] fresh_sender).1
    ≡ ok (codes "body")
unfolding send_api_request send_response send_marshalled write_and_wait await accept error_of
    reply_of api_reply api_answer
api_called = refl

abbrev started_at : Snowflake
started_at = record { seq = 0; last = 1700000000000 }

ids-Increasing_example :
    Increasing
      (snowflake_bits 1700000000000 0)
      (ids (1700000000000 ∷ 1700000000005 ∷ []) started_at)
unfolding next_seq
ids-Increasing_example =
    ids-Increasing (1700000000000 ∷ 1700000000005 ∷ []) started_at (omega arith) (omega arith)
      ((omega arith, omega arith, omega arith, (omega arith, omega arith, omega arith, tt)))
      (λ t. ground arith)

abbrev registrations : List (Bytes × ℕ)
registrations = (codes "ready", 1) ∷ (codes "role_event", 2) ∷ (codes "ready", 3) ∷ []
