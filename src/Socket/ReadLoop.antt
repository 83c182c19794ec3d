-- ===== src/Socket/ReadLoop.antt =====
-- socket.go: readLoop and unmarshalEnvelope, with the steps of the senders that run between two
-- frames. proto.Unmarshal is the parameter `unmarshal`. An error of readFrame ends the loop, so a
-- run is the list of the frames read until then.
use mezon_sdk_go.Prelude.{
  ℕ, zero, suc, ◌-◌, take, length, Bool, true, false, not, ◌&&◌, List, [], ◌∷◌, Option, none, some,
  ◌==◌, if◌then◌else◌, insert, nat_eq, Bytes,
}
use mezon_sdk_go.Transport.{WireFrame, FrameKind, frame_envelope, frame_api_chunk, frame_pong}
use mezon_sdk_go.Transport.Encode.{last_is_zero}
use mezon_sdk_go.Socket.{Chan, Envelope, SocketResponse, empty_envelope}
use mezon_sdk_go.Socket.Cids.{Cids, take_cid, take_raw_cid, clear_cid}
use mezon_sdk_go.Socket.Streams.{Streams, Delivery, answer, deliver_api_chunk}

-- The retry, after a failed parse: at most three trailing zero bytes are taken off.
unfoldable pub retry_unmarshal : (Bytes → Option Envelope) → ℕ → Bytes → Option Envelope
retry_unmarshal unmarshal zero payload = none
retry_unmarshal unmarshal (suc i) payload =
    if last_is_zero payload
    then (let shorter = take (length payload - 1) payload in
        elim (unmarshal shorter) [
          | some env ↦ some env
          | none ↦ retry_unmarshal unmarshal i shorter
        ])
    else none

unfoldable pub unmarshal_envelope : (Bytes → Option Envelope) → WireFrame → Option Envelope
unmarshal_envelope unmarshal f = elim (unmarshal f.payload) [
  | some env ↦ some env
  | none ↦ if f.padded then retry_unmarshal unmarshal 3 f.payload else none
]

-- What one turn of the loop does besides changing the tables.
pub data Effect : Type 0 where
  deliver : Chan → SocketResponse → Effect
  queue_event : Envelope → Effect
  nothing end_loop : Effect

unfoldable pub effect_of : Delivery → Effect
effect_of none = nothing
effect_of (some (ch, resp)) = deliver ch resp

pub record Tables : Type 0 where
  pub streams : Streams
  pub cids : Cids

unfoldable pub pong_answer : ℕ → SocketResponse
pong_answer cid = record {
  env = some (record empty_envelope { cid = cid; pong = true });
  api_response = false;
  code = 0;
  body = [];
}

unfoldable pub envelope_answer : Envelope → SocketResponse
envelope_answer env = record { env = some env; api_response = false; code = 0; body = [] }

-- `stops`: whether the select of an event takes `done`, which then is closed, and not the queue.
unfoldable pub receive_envelope : Bool → Option Envelope → Tables → Tables × Effect
receive_envelope stops none t = (t, nothing)
receive_envelope stops (some env) t =
    if env.cid == 0
    then (t, if stops then end_loop else queue_event env)
    else (let taken = take_cid env.cid t.cids in
        (
          record { streams = t.streams; cids = taken.1 },
          effect_of (answer (envelope_answer env) taken.0),
        ))

unfoldable pub receive_pong : ℕ → Tables → Tables × Effect
receive_pong cid t =
    let taken = take_raw_cid cid t.cids in
    (record { streams = t.streams; cids = taken.1 }, effect_of (answer (pong_answer cid) taken.0))

unfoldable pub receive_chunk : WireFrame → Tables → Tables × Effect
receive_chunk f t =
    let r = deliver_api_chunk f t.streams t.cids in
    (record { streams = r.0; cids = r.1 }, effect_of r.2)

unfoldable pub receive_as :
    FrameKind → Bool → (Bytes → Option Envelope) → WireFrame → Tables → Tables × Effect
receive_as frame_api_chunk stops unmarshal f t = receive_chunk f t
receive_as frame_pong stops unmarshal f t = receive_pong f.cid t
receive_as frame_envelope stops unmarshal f t =
    receive_envelope stops (unmarshal_envelope unmarshal f) t

-- One turn of the loop, for the frame that readFrame returned.
unfoldable pub receive : Bool → (Bytes → Option Envelope) → WireFrame → Tables → Tables × Effect
receive stops unmarshal f t = receive_as f.kind stops unmarshal f t

-- One step on the tables: the read loop takes a frame, or a sender enters or gives up its cid. With
-- `stopping_frame` the select, if the frame leads to it, takes `done`.
pub data Step : Type 0 where
  frame stopping_frame : WireFrame → Step
  register : ℕ → Chan → Step
  give_up : ℕ → Step

unfoldable pub step : (Bytes → Option Envelope) → Step → Tables → Tables × Effect
step unmarshal (frame f) t = receive false unmarshal f t
step unmarshal (stopping_frame f) t = receive true unmarshal f t
step unmarshal (register cid ch) t =
    (record { streams = t.streams; cids = insert cid ch t.cids }, nothing)
step unmarshal (give_up cid) t =
    (record { streams = t.streams; cids = clear_cid cid t.cids }, nothing)

unfoldable pub ends : Effect → Bool
ends end_loop = true
ends nothing = false
ends (queue_event env) = false
ends (deliver ch resp) = false

-- A step while the loop runs, or after its end, when no frame is read.
unfoldable pub step_while : Bool → (Bytes → Option Envelope) → Step → Tables → Tables × Effect
step_while true unmarshal s t = step unmarshal s t
step_while false unmarshal (frame f) t = (t, nothing)
step_while false unmarshal (stopping_frame f) t = (t, nothing)
step_while false unmarshal (register cid ch) t = step unmarshal (register cid ch) t
step_while false unmarshal (give_up cid) t = step unmarshal (give_up cid) t

unfoldable pub run_while :
    Bool → (Bytes → Option Envelope) → List Step → Tables → Tables × List Effect
run_while runs unmarshal [] t = (t, [])
run_while runs unmarshal (s ∷ steps) t =
    let one = step_while runs unmarshal s t in
    let rest = run_while (runs && not (ends one.1)) unmarshal steps one.0 in
    (rest.0, one.1 ∷ rest.1)

-- From a loop that runs.
unfoldable pub run : (Bytes → Option Envelope) → List Step → Tables → Tables × List Effect
run unmarshal steps t = run_while true unmarshal steps t
