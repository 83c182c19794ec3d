-- ===== src/Socket/Events.antt =====
-- socket.go, readLoop: which envelopes go to the dispatch queue, and unmarshalEnvelope's retry.
use mezon_sdk_go.Prelude.{
  ℕ, zero, suc, ◌-◌, ◌≤◌, ◌<◌, ◌≡◌, refl, sym, ap, ◌∙◌, inl, inr, Bool, true, false, not, ◌&&◌,
  List, [], ◌∷◌, ◌++◌, Option, none, some, arith, ◌==◌, if◌then◌else◌, nat_eq, Bytes, take, length,
  replicate, Bool-cases, append-nil, append_assoc, take-append, length-append,
}
use mezon_sdk_go.Transport.{WireFrame, FrameKind, frame_envelope, frame_api_chunk, frame_pong}
use mezon_sdk_go.Transport.Encode.{last_is_zero}
use mezon_sdk_go.Socket.{Envelope}
use mezon_sdk_go.Socket.Cids.{take_cid, take_raw_cid}
use mezon_sdk_go.Socket.Streams.{deliver_api_chunk, answer, Delivery}
use mezon_sdk_go.Socket.ReadLoop.{
  ends, step_while, run_while, stopping_frame, end_loop, Effect, deliver, queue_event, nothing,
  effect_of, Tables, Step, frame, register, give_up, receive, receive_as, receive_chunk,
  receive_pong, receive_envelope, envelope_answer, pong_answer, retry_unmarshal, unmarshal_envelope,
  step, run,
}

abbrev pub events_in : List Effect → List Envelope
events_in [] = []
events_in (queue_event env ∷ effects) = env ∷ events_in effects
events_in (deliver ch resp ∷ effects) = events_in effects
events_in (nothing ∷ effects) = events_in effects
events_in (end_loop ∷ effects) = events_in effects

-- The envelope of a frame that decodes and carries no cid.
abbrev pub pushed : Option Envelope → List Envelope
pushed none = []
pushed (some env) = if env.cid == 0 then env ∷ [] else []

abbrev pub pushed_by : (Bytes → Option Envelope) → FrameKind → WireFrame → List Envelope
pushed_by unmarshal frame_envelope f = pushed (unmarshal_envelope unmarshal f)
pushed_by unmarshal frame_api_chunk f = []
pushed_by unmarshal frame_pong f = []

-- Without an event the frame does not come to the select, and the loop goes on.
abbrev pub before_stop : List Envelope → List Envelope → List Envelope
before_stop [] later = later
before_stop (env ∷ envs) later = []

-- Those of a run, up to the event whose select takes `done`, which is lost.
abbrev pub pushed_in : (Bytes → Option Envelope) → List Step → List Envelope
pushed_in unmarshal [] = []
pushed_in unmarshal (frame f ∷ steps) = pushed_by unmarshal f.kind f ++ pushed_in unmarshal steps
pushed_in unmarshal (stopping_frame f ∷ steps) =
    before_stop (pushed_by unmarshal f.kind f) (pushed_in unmarshal steps)
pushed_in unmarshal (register cid ch ∷ steps) = pushed_in unmarshal steps
pushed_in unmarshal (give_up cid ∷ steps) = pushed_in unmarshal steps

abbrev is_empty : List Envelope → Bool
is_empty [] = true
is_empty (env ∷ envs) = false

-- The effect queues the envelopes and does not end the loop, or it ends it instead of queueing the
-- first of them.
abbrev Queues : Bool → Effect → List Envelope → Type 0
Queues false effect envs = (events_in (effect ∷ []) ≡ envs) × (ends effect ≡ false)
Queues true effect envs =
    (events_in (effect ∷ []) ≡ []) × (ends effect ≡ (if is_empty envs then false else true))

Queues-delivery : (stops : Bool) (d : Delivery) → Queues stops (effect_of d) []
unfolding effect_of ends
Queues-delivery true none = (refl, refl)
Queues-delivery true (some d) = (refl, refl)
Queues-delivery false none = (refl, refl)
Queues-delivery false (some d) = (refl, refl)

Queues-envelope :
    (stops : Bool) (env : Option Envelope) (t : Tables)
    → Queues stops (receive_envelope stops env t).1 (pushed env)
unfolding receive_envelope ends
Queues-envelope true none t = (refl, refl)
Queues-envelope false none t = (refl, refl)
Queues-envelope true (some env) t = elim (Bool-cases (env.cid == 0)) [
  | inl h ↦ rw h (refl, refl)
  | inr h ↦ rw h (Queues-delivery true (answer (envelope_answer env) (take_cid env.cid t.cids).0))
]
Queues-envelope false (some env) t = elim (Bool-cases (env.cid == 0)) [
  | inl h ↦ rw h (refl, refl)
  | inr h ↦ rw h (Queues-delivery false (answer (envelope_answer env) (take_cid env.cid t.cids).0))
]

Queues-receive_as :
    (kind : FrameKind) (stops : Bool) (unmarshal : Bytes → Option Envelope) (f : WireFrame)
    (t : Tables)
    → Queues stops (receive_as kind stops unmarshal f t).1 (pushed_by unmarshal kind f)
unfolding receive_as receive_chunk receive_pong
Queues-receive_as frame_api_chunk stops unmarshal f t =
    Queues-delivery stops (deliver_api_chunk f t.streams t.cids).2
Queues-receive_as frame_pong stops unmarshal f t =
    Queues-delivery stops (answer (pong_answer f.cid) (take_raw_cid f.cid t.cids).0)
Queues-receive_as frame_envelope stops unmarshal f t =
    Queues-envelope stops (unmarshal_envelope unmarshal f) t

events-cons :
    (effect : Effect) (effects : List Effect)
    → events_in (effect ∷ effects) ≡ events_in (effect ∷ []) ++ events_in effects
events-cons (queue_event env) effects = refl
events-cons (deliver ch resp) effects = refl
events-cons nothing effects = refl
events-cons end_loop effects = refl

-- After the loop's end nothing is queued.
events-over :
    (unmarshal : Bytes → Option Envelope) (steps : List Step) (t : Tables)
    → events_in (run_while false unmarshal steps t).1 ≡ []
unfolding run_while step_while step ends
events-over unmarshal [] t = refl
events-over unmarshal (frame f ∷ steps) t = events-over unmarshal steps t
events-over unmarshal (stopping_frame f ∷ steps) t = events-over unmarshal steps t
events-over unmarshal (register cid ch ∷ steps) t =
    events-over unmarshal steps (step unmarshal (register cid ch) t).0
events-over unmarshal (give_up cid ∷ steps) t =
    events-over unmarshal steps (step unmarshal (give_up cid) t).0

events-stopped :
    (unmarshal : Bytes → Option Envelope) (envs : List Envelope) (steps : List Step) (t : Tables)
    → events_in
        (run_while (true && not (if is_empty envs then false else true)) unmarshal steps t).1
      ≡ before_stop envs (events_in (run_while true unmarshal steps t).1)
events-stopped unmarshal [] steps t = refl
events-stopped unmarshal (env ∷ envs) steps t = events-over unmarshal steps t

-- The events queued in a run of the loop are the decodable envelopes without a cid, in the order of
-- arrival, whatever requests, replies and chunks come between: all of them, or, when the select of
-- one of them takes `done`, all before that one, with which the loop ends.
pub events_in-run :
    (unmarshal : Bytes → Option Envelope) (steps : List Step) (t : Tables)
    → events_in (run unmarshal steps t).1 ≡ pushed_in unmarshal steps
unfolding run run_while step_while step receive ends
events_in-run unmarshal [] t = refl
events_in-run unmarshal (frame f ∷ steps) t =
    let one = receive_as f.kind false unmarshal f t in
    let q = Queues-receive_as f.kind false unmarshal f t in
    events-cons one.1 (run_while (true && not (ends one.1)) unmarshal steps one.0).1
    ∙ ap (λ l. l ++ events_in (run_while (true && not (ends one.1)) unmarshal steps one.0).1) q.0
    ∙ ap
        (λ b.
          pushed_by unmarshal f.kind f
          ++ events_in (run_while (true && not b) unmarshal steps one.0).1)
        q.1
    ∙ ap (λ l. pushed_by unmarshal f.kind f ++ l) (events_in-run unmarshal steps one.0)
events_in-run unmarshal (stopping_frame f ∷ steps) t =
    let one = receive_as f.kind true unmarshal f t in
    let envs = pushed_by unmarshal f.kind f in
    let q = Queues-receive_as f.kind true unmarshal f t in
    events-cons one.1 (run_while (true && not (ends one.1)) unmarshal steps one.0).1
    ∙ ap (λ l. l ++ events_in (run_while (true && not (ends one.1)) unmarshal steps one.0).1) q.0
    ∙ ap (λ b. events_in (run_while (true && not b) unmarshal steps one.0).1) q.1
    ∙ events-stopped unmarshal envs steps one.0
    ∙ ap (before_stop envs) (events_in-run unmarshal steps one.0)
events_in-run unmarshal (register cid ch ∷ steps) t =
    events_in-run unmarshal steps (step unmarshal (register cid ch) t).0
events_in-run unmarshal (give_up cid ∷ steps) t =
    events_in-run unmarshal steps (step unmarshal (give_up cid) t).0

last_is_zero-zeros : (xs : Bytes) (m : ℕ) → last_is_zero (xs ++ replicate (suc m) 0) ≡ true
unfolding last_is_zero
last_is_zero-zeros [] zero = refl
last_is_zero-zeros [] (suc m) = last_is_zero-zeros [] m
last_is_zero-zeros (x ∷ []) m = last_is_zero-zeros [] m
last_is_zero-zeros (x ∷ y ∷ xs) m = last_is_zero-zeros (y ∷ xs) m

replicate-last : (m : ℕ) → replicate {A = ℕ} (suc m) 0 ≡ replicate m 0 ++ (0 ∷ [])
replicate-last zero = refl
replicate-last (suc m) = ap (λ l. 0 ∷ l) (replicate-last m)

take-init : (xs : Bytes) (z : ℕ) → take (length (xs ++ (z ∷ [])) - 1) (xs ++ (z ∷ [])) ≡ xs
take-init xs z =
    let e : length (xs ++ (z ∷ [])) - 1 ≡ length xs = omega (arith, length-append xs (z ∷ [])) in
    ap (λ n. take n (xs ++ (z ∷ []))) e ∙ take-append xs (z ∷ [])

take-zeros :
    (xs : Bytes) (m : ℕ)
    → take (length (xs ++ replicate (suc m) 0) - 1) (xs ++ replicate (suc m) 0)
      ≡ xs ++ replicate m 0
take-zeros xs m =
    let e : xs ++ replicate (suc m) 0 ≡ (xs ++ replicate m 0) ++ (0 ∷ []) =
      ap (λ l. xs ++ l) (replicate-last m) ∙ sym (append_assoc xs (replicate m 0) (0 ∷ [])) in
    ap (λ b. take (length b - 1) b) e ∙ take-init (xs ++ replicate m 0) 0

retry_unmarshal-padding :
    (unmarshal : Bytes → Option Envelope) (payload : Bytes) (env : Envelope) (n rounds : ℕ)
    → unmarshal payload ≡ some env
    → ((k : ℕ) → 0 < k → k ≤ n → unmarshal (payload ++ replicate k 0) ≡ none)
    → suc n ≤ rounds
    → retry_unmarshal unmarshal rounds (payload ++ replicate (suc n) 0) ≡ some env
unfolding retry_unmarshal
retry_unmarshal-padding unmarshal payload env n zero parses rejects enough = absurd (omega arith)
retry_unmarshal-padding unmarshal payload env zero (suc i) parses rejects enough =
    let plain = ap unmarshal (append-nil payload) ∙ parses in
    rw (last_is_zero-zeros payload 0, take-zeros payload 0, plain) refl
retry_unmarshal-padding unmarshal payload env (suc n) (suc i) parses rejects enough =
    let still = rejects (suc n) (omega arith) (omega arith) in
    rw (last_is_zero-zeros payload (suc n), take-zeros payload (suc n), still)
      (ap (retry_unmarshal unmarshal i) (take-zeros payload (suc n))
        ∙ retry_unmarshal-padding unmarshal payload env n i parses
            (λ k pos low. rejects k pos (omega arith)) (omega arith))

-- What the padded frame of an envelope carries is recovered: when proto parses the content and
-- rejects it with one to three stray zero bytes after it, unmarshalEnvelope takes the padding off
-- the frame's payload, of any length up to three.
pub unmarshal_envelope-padding :
    (unmarshal : Bytes → Option Envelope) (content : Bytes) (env : Envelope) (n : ℕ) (f : WireFrame)
    → unmarshal content ≡ some env
    → ((k : ℕ) → 0 < k → k ≤ 3 → unmarshal (content ++ replicate k 0) ≡ none)
    → n ≤ 3
    → f.payload ≡ content ++ replicate n 0
    → f.padded ≡ true
    → unmarshal_envelope unmarshal f ≡ some env
unfolding unmarshal_envelope
unmarshal_envelope-padding unmarshal content env zero f parses rejects small is is_padded =
    let plain = ap unmarshal (is ∙ append-nil content) ∙ parses in
    rw (plain, unmarshal_envelope) refl
unmarshal_envelope-padding unmarshal content env (suc n) f parses rejects small is is_padded =
    let stray = ap unmarshal is ∙ rejects (suc n) (omega arith) small in
    let retried =
      retry_unmarshal-padding unmarshal content env n 3 parses
        (λ k pos low. rejects k pos (omega arith)) small in
    rw (stray, is_padded, unmarshal_envelope) (ap (retry_unmarshal unmarshal 3) is ∙ retried)
