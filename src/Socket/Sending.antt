-- ===== src/Socket/Sending.antt =====
-- socket.go: sendResponse, send and sendApiRequest. Of what runs outside it, a send sees: whether
-- proto.Marshal gives bytes, whether the connection's write fails, what the other goroutines do to
-- the table while it waits, and which of the three channels it waits on is ready first.
use mezon_sdk_go.Prelude.{
  signed32, ℕ, Bool, List, ◌∷◌, ◌++◌, Option, none, some, ◌==◌, not, ◌&&◌, if◌then◌else◌, insert,
  nat_eq, Bytes, codes, itoa, decimal,
}
use mezon_sdk_go.Errors.{Error, err_socket_closed, err_send_timeout, err_text, Result, ok, err}
use mezon_sdk_go.Socket.{
  api_request_event, Chan, Envelope, EnvelopeError, SocketResponse, empty_envelope,
}
use mezon_sdk_go.Socket.Cids.{Cids, generate_cid, clear_cid}

-- `written` is what has gone to the connection, the last first.
pub data Wire : Type 0 where
  wire_ping : ℕ → Wire
  wire_envelope : Bytes → Wire

pub record Sender : Type 0 where
  pub connected : Bool
  pub next_cid : ℕ
  pub cids : Cids
  pub native_ping : Bool
  pub written : List Wire

pub data Outcome : Type 0 where
  answered : SocketResponse → Outcome
  timed_out torn_down : Outcome

pub record World : Type 0 where
  pub marshal : Envelope → Result Bytes
  pub write : Wire → Option Error
  pub meanwhile : Cids → Cids
  pub outcome : Outcome

-- "mezon socket error %d: %s"
unfoldable pub socket_error : EnvelopeError → Error
socket_error e =
    err_text (codes "mezon socket error " ++ (itoa e.code ++ (codes ": " ++ e.message)))

unfoldable pub error_of : SocketResponse → Option EnvelopeError
error_of resp = elim resp.env [ none ↦ none | some env ↦ env.error ]

unfoldable pub accept : SocketResponse → Result SocketResponse
accept resp = elim (error_of resp) [ none ↦ ok resp | some e ↦ err (socket_error e) ]

unfoldable pub with_cids : Cids → Sender → Sender
with_cids cids s = record s { cids = cids }

unfoldable pub await : ℕ → Outcome → Sender → Sender × Result SocketResponse
await cid (answered resp) s = (s, accept resp)
await cid timed_out s = (with_cids (clear_cid cid s.cids) s, err err_send_timeout)
await cid torn_down s = (s, err err_socket_closed)

unfoldable pub wire_of : Envelope → Bool → Bytes → Wire
wire_of env native_ping payload =
    if env.ping && native_ping then wire_ping env.cid else wire_envelope payload

unfoldable pub write_and_wait : World → ℕ → Wire → Sender → Sender × Result SocketResponse
write_and_wait world cid wire s = elim (world.write wire) [
  | some e ↦ (with_cids (clear_cid cid s.cids) s, err e)
  | none ↦
      await cid world.outcome
        (record s { cids = world.meanwhile s.cids; written = wire ∷ s.written })
]

unfoldable pub send_marshalled :
    World → Envelope → Result Bytes → Sender → Sender × Result SocketResponse
send_marshalled world sent (err e) s = (with_cids (clear_cid sent.cid s.cids) s, err e)
send_marshalled world sent (ok payload) s =
    write_and_wait world sent.cid (wire_of sent s.native_ping payload) s

-- The state once the cid is taken and its channel `ch` is entered.
unfoldable pub enter : Chan → Sender → Sender
enter ch s =
    let generated = generate_cid s.next_cid in
    record s { next_cid = generated.0; cids = insert generated.1 ch s.cids }

unfoldable pub send_response : World → Chan → Envelope → Sender → Sender × Result SocketResponse
send_response world ch env s =
    let sent : Envelope = record env { cid = (generate_cid s.next_cid).1 } in
    if not s.connected
    then (s, err err_socket_closed)
    else send_marshalled world sent (world.marshal sent) (enter ch s)

unfoldable pub envelope_reply : ℕ → SocketResponse → Result (Option Envelope)
envelope_reply cid resp =
    if resp.api_response
    then err (err_text (codes "mezon: unexpected raw API response for cid " ++ itoa (signed32 cid)))
    else ok resp.env

-- After sendResponse, env.Cid is the cid that it took, if it took one.
unfoldable pub send : World → Chan → Envelope → Sender → Sender × Result (Option Envelope)
send world ch env s =
    let r = send_response world ch env s in
    (r.0, elim r.1 [ err e ↦ err e | ok resp ↦ envelope_reply (generate_cid s.next_cid).1 resp ])

unfoldable pub api_reply : Bytes → SocketResponse → Result Bytes
api_reply api_name resp =
    if not resp.api_response
    then err (
        err_text
          (codes "mezon: expected raw API response for " ++ (api_name ++ codes ", got envelope")))
    else (if resp.code == 0
        then ok resp.body
        else err (
            err_text (
              codes "mezon: API "
              ++ (api_name ++ (codes " failed with code " ++ decimal resp.code)))))

unfoldable pub reply_of : Bytes → Result SocketResponse → Result Bytes
reply_of api_name (err e) = err e
reply_of api_name (ok resp) = api_reply api_name resp

unfoldable pub api_request_envelope : ℕ → Bytes → Bytes → Envelope
api_request_envelope index api_name body = record empty_envelope {
  request =
      some (api_request_event (record { api_index = index; api_name = api_name; body = body }));
}

-- `index_of` is apiIndexFromName.
unfoldable pub send_api_request :
    World → (Bytes → Option ℕ) → Chan → Bytes → Bytes → Sender → Sender × Result Bytes
send_api_request world index_of ch api_name body s = elim (index_of api_name) [
  | none ↦ (s, err (err_text (codes "mezon: unknown API " ++ api_name)))
  | some index ↦
      let r = send_response world ch (api_request_envelope index api_name body) s in
      (r.0, reply_of api_name r.1)
]
