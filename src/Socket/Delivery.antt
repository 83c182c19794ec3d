-- ===== src/Socket/Delivery.antt =====
-- socket.go, over any run of the read loop and the senders: how often a channel is sent to, and
-- which envelopes are queued as events.
use mezon_sdk_go.Prelude.{
  ℕ, Bool, true, false, not, ◌&&◌, ◌+◌, ◌≤◌, ◌≡◌, refl, sym, subst, List, [], ◌∷◌, Option, none,
  some, inl, inr, Bool-cases, Option-cases, arith, ◌==◌, if◌then◌else◌, lookup, insert, delete,
  nat_eq, Bytes,
}
use mezon_sdk_go.Transport.{WireFrame, FrameKind, frame_envelope, frame_api_chunk, frame_pong}
use mezon_sdk_go.Socket.{Chan, Envelope, SocketResponse}
use mezon_sdk_go.Socket.Cids.{
  Cids, take_cid, take_raw_cid, take_truncated, find_truncated, clear_cid,
}
use mezon_sdk_go.Socket.Routing.{take_raw_cid_hit}
use mezon_sdk_go.Socket.Streams.{buffered, concat, with_last, api_answer, deliver_api_chunk, answer}
use mezon_sdk_go.Socket.ReadLoop.{
  ends, step_while, run_while, stopping_frame, end_loop, Effect, deliver, queue_event, nothing,
  effect_of, Tables, Step, frame, register, give_up, receive, receive_as, receive_chunk,
  receive_pong, receive_envelope, envelope_answer, pong_answer, unmarshal_envelope, step, run,
}

-- The entries that a channel has in the table.
abbrev pub pending : Chan → Cids → ℕ
pending ch [] = 0
pending ch ((k, x) ∷ cids) = (if x == ch then 1 else 0) + pending ch cids

-- The times it is sent to.
abbrev pub sent : Chan → Effect → ℕ
sent ch (deliver x resp) = if x == ch then 1 else 0
sent ch (queue_event env) = 0
sent ch nothing = 0
sent ch end_loop = 0

abbrev pub sent_in : Chan → List Effect → ℕ
sent_in ch [] = 0
sent_in ch (e ∷ effects) = sent ch e + sent_in ch effects

-- The times a sender enters it.
abbrev pub registered : Chan → List Step → ℕ
registered ch [] = 0
registered ch (frame f ∷ steps) = registered ch steps
registered ch (stopping_frame f ∷ steps) = registered ch steps
registered ch (register k x ∷ steps) = (if x == ch then 1 else 0) + registered ch steps
registered ch (give_up k ∷ steps) = registered ch steps

pending-insert :
    (ch x k : ℕ) (cids : Cids)
    → pending ch (insert k x cids) ≤ (if x == ch then 1 else 0) + pending ch cids
unfolding insert
pending-insert ch x k [] = omega arith
pending-insert ch x k ((j, y) ∷ cids) = ground (arith, pending-insert ch x k cids)

pending-delete : (ch k : ℕ) (cids : Cids) → pending ch (delete k cids) ≤ pending ch cids
unfolding delete
pending-delete ch k [] = omega arith
pending-delete ch k ((j, y) ∷ cids) = ground (arith, pending-delete ch k cids)

pending-taken :
    (ch x k : ℕ) (cids : Cids)
    → lookup k cids ≡ some x
    → (if x == ch then 1 else 0) + pending ch (delete k cids) ≤ pending ch cids
unfolding lookup delete
pending-taken ch x k [] h = absurd (ground arith)
pending-taken ch x k ((j, y) ∷ cids) h =
    ground (arith, pending-taken ch x k cids, pending-delete ch k cids)

pending-found :
    (ch x k cid : ℕ) (cids : Cids)
    → find_truncated cid cids ≡ some (k, x)
    → (if x == ch then 1 else 0) + pending ch (delete k cids) ≤ pending ch cids
unfolding find_truncated delete
pending-found ch x k cid [] h = absurd (ground arith)
pending-found ch x k cid ((j, y) ∷ cids) h =
    ground (arith, pending-found ch x k cid cids, pending-delete ch k cids)

-- What a turn of the loop sends on `ch` it takes off the table.
abbrev Conserves : Chan → Tables → Tables × Effect → Type 0
Conserves ch t r = sent ch r.1 + pending ch r.0.cids ≤ pending ch t.cids

sent-answer :
    (ch : ℕ) (resp : SocketResponse) (o : Option Chan)
    → sent ch (effect_of (answer resp o))
      ≡ (elim o [ none ↦ 0 | some x ↦ if x == ch then 1 else 0 ])
unfolding effect_of answer
sent-answer ch resp none = refl
sent-answer ch resp (some x) = refl

-- A table after a look-up, and the channel that it found.
abbrev Taken : Chan → Cids → Option Chan × Cids → Type 0
Taken ch cids r =
    (elim r.0 [ none ↦ 0 | some x ↦ if x == ch then 1 else 0 ]) + pending ch r.1 ≤ pending ch cids

take_cid-Taken : (ch cid : ℕ) (cids : Cids) → Taken ch cids (take_cid cid cids)
unfolding take_cid
take_cid-Taken ch cid cids = elim (Option-cases (lookup cid cids)) [
  | inl absent ↦
      let miss : take_cid cid cids ≡ (none, cids) = rw (absent, take_cid) refl in
      subst (Taken ch cids) (sym miss) (omega arith)
  | inr (x, h) ↦
      let hit : take_cid cid cids ≡ (some x, delete cid cids) = rw (h, take_cid) refl in
      subst (Taken ch cids) (sym hit) (pending-taken ch x cid cids h)
]

take_truncated-Taken : (ch cid : ℕ) (cids : Cids) → Taken ch cids (take_truncated cid cids)
unfolding take_truncated
take_truncated-Taken ch cid cids = elim (Option-cases (find_truncated cid cids)) [
  | inl absent ↦
      let miss : take_truncated cid cids ≡ (none, cids) = rw (absent, take_truncated) refl in
      subst (Taken ch cids) (sym miss) (omega arith)
  | inr (found, h) ↦
      let hit : take_truncated cid cids ≡ (some found.1, delete found.0 cids) =
        rw (h, take_truncated) refl in
      subst (Taken ch cids) (sym hit) (pending-found ch found.1 found.0 cid cids h)
]

take_raw_cid-Taken : (ch cid : ℕ) (cids : Cids) → Taken ch cids (take_raw_cid cid cids)
unfolding take_raw_cid
take_raw_cid-Taken ch cid cids = elim (Option-cases (lookup cid cids)) [
  | inl absent ↦
      let miss : take_raw_cid cid cids ≡ take_truncated cid cids = rw (absent, take_raw_cid) refl in
      subst (Taken ch cids) (sym miss) (take_truncated-Taken ch cid cids)
  | inr (x, h) ↦
      subst (Taken ch cids) (sym (take_raw_cid_hit cid x cids h)) (pending-taken ch x cid cids h)
]

receive_envelope-Conserves :
    (ch : ℕ) (stops : Bool) (env : Option Envelope) (t : Tables)
    → Conserves ch t (receive_envelope stops env t)
unfolding receive_envelope
receive_envelope-Conserves ch stops none t = omega arith
receive_envelope-Conserves ch stops (some env) t = elim (Bool-cases (env.cid == 0)) [
  | inl h ↦ rw h (ground arith)
  | inr h ↦
      rw (h, sent-answer ch (envelope_answer env) (take_cid env.cid t.cids).0)
        (take_cid-Taken ch env.cid t.cids)
]

receive_pong-Conserves : (ch cid : ℕ) (t : Tables) → Conserves ch t (receive_pong cid t)
unfolding receive_pong
receive_pong-Conserves ch cid t =
    rw (sent-answer ch (pong_answer cid) (take_raw_cid cid t.cids).0)
      (take_raw_cid-Taken ch cid t.cids)

receive_chunk-Conserves : (ch : ℕ) (f : WireFrame) (t : Tables) → Conserves ch t (receive_chunk f t)
unfolding receive_chunk deliver_api_chunk effect_of
receive_chunk-Conserves ch f t = elim (Bool-cases f.fin) [
  | inl h ↦
      let body = concat (with_last f.payload (buffered f.cid t.streams)) in
      rw (h, sent-answer ch (api_answer f.code body) (take_raw_cid f.cid t.cids).0)
        (take_raw_cid-Taken ch f.cid t.cids)
  | inr h ↦ rw h (omega arith)
]

receive_as-Conserves :
    (kind : FrameKind) (stops : Bool) (unmarshal : Bytes → Option Envelope) (ch : Chan)
    (f : WireFrame) (t : Tables)
    → Conserves ch t (receive_as kind stops unmarshal f t)
unfolding receive_as
receive_as-Conserves frame_api_chunk stops unmarshal ch f t = receive_chunk-Conserves ch f t
receive_as-Conserves frame_pong stops unmarshal ch f t = receive_pong-Conserves ch f.cid t
receive_as-Conserves frame_envelope stops unmarshal ch f t =
    receive_envelope-Conserves ch stops (unmarshal_envelope unmarshal f) t

-- The times that one step enters the channel.
abbrev pub registers : Chan → Step → ℕ
registers ch (frame f) = 0
registers ch (stopping_frame f) = 0
registers ch (register k x) = if x == ch then 1 else 0
registers ch (give_up k) = 0

registered_cons :
    (ch : Chan) (s : Step) (steps : List Step)
    → registered ch (s ∷ steps) ≡ registers ch s + registered ch steps
registered_cons ch (frame f) steps = omega arith
registered_cons ch (stopping_frame f) steps = omega arith
registered_cons ch (register k x) steps = refl
registered_cons ch (give_up k) steps = omega arith

-- What a step sends it takes off the table, or enters.
abbrev Charges : Chan → Step → Tables → Tables × Effect → Type 0
Charges ch s t r = sent ch r.1 + pending ch r.0.cids ≤ registers ch s + pending ch t.cids

step-Charges :
    (unmarshal : Bytes → Option Envelope) (ch : Chan) (s : Step) (t : Tables)
    → Charges ch s t (step unmarshal s t)
unfolding step receive clear_cid
step-Charges unmarshal ch (frame f) t =
    omega (arith, receive_as-Conserves f.kind false unmarshal ch f t)
step-Charges unmarshal ch (stopping_frame f) t =
    omega (arith, receive_as-Conserves f.kind true unmarshal ch f t)
step-Charges unmarshal ch (register k x) t = omega (arith, pending-insert ch x k t.cids)
step-Charges unmarshal ch (give_up k) t = omega (arith, pending-delete ch k t.cids)

step_while-Charges :
    (runs : Bool) (unmarshal : Bytes → Option Envelope) (ch : Chan) (s : Step) (t : Tables)
    → Charges ch s t (step_while runs unmarshal s t)
unfolding step_while
step_while-Charges true unmarshal ch s t = step-Charges unmarshal ch s t
step_while-Charges false unmarshal ch (frame f) t = omega arith
step_while-Charges false unmarshal ch (stopping_frame f) t = omega arith
step_while-Charges false unmarshal ch (register k x) t = step-Charges unmarshal ch (register k x) t
step_while-Charges false unmarshal ch (give_up k) t = step-Charges unmarshal ch (give_up k) t

run_while-sent :
    (runs : Bool) (unmarshal : Bytes → Option Envelope) (ch : Chan) (steps : List Step) (t : Tables)
    → let r = run_while runs unmarshal steps t in
      sent_in ch r.1 + pending ch r.0.cids ≤ registered ch steps + pending ch t.cids
unfolding run_while
run_while-sent runs unmarshal ch [] t = omega arith
run_while-sent runs unmarshal ch (s ∷ steps) t =
    let one = step_while runs unmarshal s t in
    omega (
      arith,
      registered_cons ch s steps,
      step_while-Charges runs unmarshal ch s t,
      run_while-sent (runs && not (ends one.1)) unmarshal ch steps one.0,
    )

-- In any run of frames and of senders' steps, a channel is sent to at most as often as it stood in
-- the table at the start and was entered during the run, less the entries that it has at the end.
pub run-sent :
    (unmarshal : Bytes → Option Envelope) (ch : Chan) (steps : List Step) (t : Tables)
    → let r = run unmarshal steps t in
      sent_in ch r.1 + pending ch r.0.cids ≤ registered ch steps + pending ch t.cids
unfolding run
run-sent unmarshal ch steps t = run_while-sent true unmarshal ch steps t
