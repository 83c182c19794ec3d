-- ===== src/Socket/Reassembly.antt =====
-- socket.go, deliverAPIChunk over a whole run of the read loop: the body that a fin frame delivers.
use mezon_sdk_go.Prelude.{
  ℕ, ◌≡◌, refl, sym, ap, ◌∙◌, Bool, true, false, not, ◌&&◌, List, [], ◌∷◌, ◌++◌, Option, none, some,
  arith, ◌==◌, ==_iff, if◌then◌else◌, lookup, insert, delete, lookup-insert, lookup-delete, nat_eq,
  Bytes, append_assoc, append-nil,
}
use mezon_sdk_go.Transport.{WireFrame, FrameKind, frame_envelope, frame_api_chunk, frame_pong}
use mezon_sdk_go.Socket.{Chan, Envelope}
use mezon_sdk_go.Socket.Cids.{clear_cid}
use mezon_sdk_go.Socket.Routing.{take_raw_cid_hit}
use mezon_sdk_go.Socket.Streams.{
  Streams, buffered, add_chunk, concat, with_last, api_answer, deliver_api_chunk, answer,
}
use mezon_sdk_go.Socket.ReadLoop.{
  ends, step_while, run_while, stopping_frame, deliver, effect_of, Tables, Step, frame, register,
  give_up, receive, receive_as, receive_chunk, receive_pong, receive_envelope, unmarshal_envelope,
  step, run,
}

-- The payloads that a run buffers for `cid`, in order.
abbrev pub payload_if : Bool → Bool → Bytes → List Bytes
payload_if true true payload = payload ∷ []
payload_if true false payload = []
payload_if false mine payload = []

abbrev pub chunk_of : ℕ → FrameKind → WireFrame → List Bytes
chunk_of cid frame_api_chunk f = payload_if (f.cid == cid) true f.payload
chunk_of cid frame_pong f = []
chunk_of cid frame_envelope f = []

abbrev pub chunks_of : ℕ → List Step → List Bytes
chunks_of cid [] = []
chunks_of cid (frame f ∷ steps) = chunk_of cid f.kind f ++ chunks_of cid steps
chunks_of cid (stopping_frame f ∷ steps) = chunks_of cid steps
chunks_of cid (register k ch ∷ steps) = chunks_of cid steps
chunks_of cid (give_up k ∷ steps) = chunks_of cid steps

-- No frame of the run is the last chunk for `cid`, and the loop does not stop.
abbrev pub Unfinished : ℕ → List Step → Type 0
Unfinished cid [] = Unit
Unfinished cid (frame f ∷ steps) =
    (f.kind ≡ frame_api_chunk → f.cid ≡ cid → f.fin ≡ false) × Unfinished cid steps
Unfinished cid (stopping_frame f ∷ steps) = ⊥
Unfinished cid (register k ch ∷ steps) = Unfinished cid steps
Unfinished cid (give_up k ∷ steps) = Unfinished cid steps

buffered-insert :
    (cid k : ℕ) (chunks : List Bytes) (streams : Streams)
    → buffered cid (insert k chunks streams) ≡ (if k == cid then chunks else buffered cid streams)
unfolding buffered
buffered-insert cid k chunks streams =
    rw (lookup-insert k cid chunks streams, buffered) (ground arith)

buffered-delete :
    (cid k : ℕ) (streams : Streams)
    → buffered cid (delete k streams) ≡ (if k == cid then [] else buffered cid streams)
unfolding buffered
buffered-delete cid k streams = rw (lookup-delete k cid streams, buffered) (ground arith)

buffered-chunk :
    (cid : ℕ) (f : WireFrame) (t : Tables)
    → (f.cid ≡ cid → f.fin ≡ false)
    → buffered cid (receive_chunk f t).0.streams
      ≡ buffered cid t.streams ++ payload_if (f.cid == cid) true f.payload
unfolding receive_chunk deliver_api_chunk add_chunk
buffered-chunk cid f t open_yet = ground (
  arith,
  ==_iff f.cid cid,
  append-nil (buffered cid t.streams),
  buffered-insert cid f.cid (buffered f.cid t.streams ++ (f.payload ∷ [])) t.streams,
  buffered-delete cid f.cid t.streams,
)

receive_envelope-streams :
    (stops : Bool) (env : Option Envelope) (t : Tables)
    → (receive_envelope stops env t).0.streams ≡ t.streams
unfolding receive_envelope
receive_envelope-streams stops none t = refl
receive_envelope-streams stops (some env) t = ground arith

buffered-receive :
    (unmarshal : Bytes → Option Envelope) (cid : ℕ) (f : WireFrame) (t : Tables) (kind : FrameKind)
    → f.kind ≡ kind
    → (f.kind ≡ frame_api_chunk → f.cid ≡ cid → f.fin ≡ false)
    → buffered cid (receive false unmarshal f t).0.streams
      ≡ buffered cid t.streams ++ chunk_of cid f.kind f
unfolding receive receive_as receive_pong unmarshal_envelope receive_chunk deliver_api_chunk
buffered-receive unmarshal cid f t frame_api_chunk e open_yet =
    rw e (buffered-chunk cid f t (open_yet e))
buffered-receive unmarshal cid f t frame_pong e open_yet =
    rw e (sym (append-nil (buffered cid t.streams)))
buffered-receive unmarshal cid f t frame_envelope e open_yet = rw e (
    ap (buffered cid) (receive_envelope-streams false (unmarshal_envelope unmarshal f) t)
    ∙ sym (append-nil (buffered cid t.streams)))

-- A frame that does not stop the loop.
runs_on :
    (unmarshal : Bytes → Option Envelope) (f : WireFrame) (t : Tables) (kind : FrameKind)
    → ends (receive_as kind false unmarshal f t).1 ≡ false
unfolding receive_as receive_envelope receive_pong receive_chunk deliver_api_chunk effect_of ends
    answer
runs_on unmarshal f t frame_api_chunk = ground arith
runs_on unmarshal f t frame_pong = ground arith
runs_on unmarshal f t frame_envelope = ground arith

run-frame :
    (unmarshal : Bytes → Option Envelope) (f : WireFrame) (steps : List Step) (t : Tables)
    → (run unmarshal (frame f ∷ steps) t).0
      ≡ (run unmarshal steps (receive false unmarshal f t).0).0
unfolding run run_while step_while step receive
run-frame unmarshal f steps t =
    ap
      (λ b. (run_while (true && not b) unmarshal steps (receive_as f.kind false unmarshal f t).0).0)
      (runs_on unmarshal f t f.kind)

buffered-run :
    (unmarshal : Bytes → Option Envelope) (cid : ℕ) (steps : List Step) (t : Tables)
    → Unfinished cid steps
    → buffered cid (run unmarshal steps t).0.streams ≡ buffered cid t.streams ++ chunks_of cid steps
unfolding run run_while step_while step ends
buffered-run unmarshal cid [] t u = sym (append-nil (buffered cid t.streams))
buffered-run unmarshal cid (frame f ∷ steps) t u =
    let first = buffered-receive unmarshal cid f t f.kind refl u.0 in
    ap (λ (r : Tables). buffered cid r.streams) (run-frame unmarshal f steps t)
    ∙ buffered-run unmarshal cid steps (receive false unmarshal f t).0 u.1
    ∙ ap (λ b. b ++ chunks_of cid steps) first
    ∙ append_assoc (buffered cid t.streams) (chunk_of cid f.kind f) (chunks_of cid steps)
buffered-run unmarshal cid (stopping_frame f ∷ steps) t u = absurd u
buffered-run unmarshal cid (register k ch ∷ steps) t u =
    buffered-run unmarshal cid steps (record { streams = t.streams; cids = insert k ch t.cids }) u
buffered-run unmarshal cid (give_up k ∷ steps) t u =
    buffered-run unmarshal cid steps (record { streams = t.streams; cids = clear_cid k t.cids }) u

concat-append : (xs ys : List Bytes) → concat (xs ++ ys) ≡ concat xs ++ concat ys
unfolding concat
concat-append [] ys = refl
concat-append (x ∷ xs) ys =
    ap (λ b. x ++ b) (concat-append xs ys) ∙ sym (append_assoc x (concat xs) (concat ys))

concat-with_last :
    (last : Bytes) (chunks : List Bytes) → concat (with_last last chunks) ≡ concat chunks ++ last
unfolding with_last concat
concat-with_last [] chunks = sym (append-nil (concat chunks))
concat-with_last (b ∷ bs) chunks =
    concat-append chunks ((b ∷ bs) ∷ []) ∙ ap (λ r. concat chunks ++ r) (append-nil (b ∷ bs))

-- After any run of frames and senders' steps, the loop still running, that starts with an empty
-- buffer for `cid` and has no last chunk for it, the last chunk delivers to the request pending
-- under `cid` the payloads of all chunks for `cid` in the order of their arrival, its own payload
-- at the end and with its own code, whatever chunks of other requests came between; the request is
-- no longer pending then and the buffer is empty again.
pub receive-reassembled :
    (unmarshal : Bytes → Option Envelope) (steps : List Step) (t : Tables) (f : WireFrame)
    (ch : Chan) (stops : Bool)
    → buffered f.cid t.streams ≡ []
    → Unfinished f.cid steps
    → f.kind ≡ frame_api_chunk
    → f.fin ≡ true
    → lookup f.cid (run unmarshal steps t).0.cids ≡ some ch
    → let before = (run unmarshal steps t).0 in
      let after = receive stops unmarshal f before in
      (after.1 ≡ deliver ch (api_answer f.code (concat (chunks_of f.cid steps) ++ f.payload)))
      × (after.0.cids ≡ delete f.cid before.cids)
      × (buffered f.cid after.0.streams ≡ [])
unfolding receive receive_as receive_chunk deliver_api_chunk effect_of answer
receive-reassembled unmarshal steps t f ch stops empty u is_chunk is_fin pending =
    let before = (run unmarshal steps t).0 in
    let body =
      concat-with_last f.payload (buffered f.cid before.streams)
      ∙ ap (λ b. concat b ++ f.payload)
          (buffered-run unmarshal f.cid steps t u ∙ ap (λ b. b ++ chunks_of f.cid steps) empty) in
    rw (is_chunk, is_fin, take_raw_cid_hit f.cid ch before.cids pending)
      (
        ap (λ b. deliver ch (api_answer f.code b)) body,
        refl,
        buffered-delete f.cid f.cid before.streams ∙ ground (arith, ==_iff f.cid f.cid),
      )
