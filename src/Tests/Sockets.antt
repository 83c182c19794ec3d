-- ===== src/Tests/Sockets.antt =====
-- socket.go and socket_dispatch.go on small runs.
use mezon_sdk_go.Prelude.{
  ℕ, zero, suc, ◌+◌, ◌%◌, ◌^◌, ◌≤◌, ◌<◌, ◌≡◌, refl, Bytes, Bool, true, false, List, [], ◌∷◌, ◌++◌,
  Option, none, some, arith, replicate, lookup, insert, delete, nat_eq, codes, if◌then◌else◌,
  same_bytes,
}
use mezon_sdk_go.Transport.{WireFrame, frame_envelope, frame_api_chunk}
use mezon_sdk_go.Socket.{Envelope, empty_envelope}
use mezon_sdk_go.Socket.Cids.{Cids, take_raw_cid}
use mezon_sdk_go.Socket.Routing.{take_raw_cid-routes}
use mezon_sdk_go.Socket.Streams.{concat, api_answer, buffered, deliver_api_chunk}
use mezon_sdk_go.Socket.ReadLoop.{
  deliver, Tables, Step, frame, stopping_frame, register, run_while, step_while, ends, effect_of,
  receive, run, step, receive_as, receive_chunk, unmarshal_envelope,
}
use mezon_sdk_go.Socket.Reassembly.{receive-reassembled}
use mezon_sdk_go.Socket.Delivery.{sent_in, pending, run-sent}
use mezon_sdk_go.Socket.Events.{events_in, pushed_in, events_in-run, unmarshal_envelope-padding}
use mezon_sdk_go.Socket.Lifecycle.{Life, down, is_closed}
use mezon_sdk_go.Socket.Interleaved.{
  Field, new_field, Move, calls_connect, calls_close, read_fails, ping_fails, proceeds, marking,
  moves,
}
use mezon_sdk_go.Socket.Disconnect.{downs, moves-downs}
use mezon_sdk_go.Socket.Stale.{downs_of, moves-silent, moves-stale}

abbrev two_pending : Cids
two_pending = (65537, 5) ∷ (65540, 6) ∷ []

take_raw_cid-routes_example : take_raw_cid (65540 % 2 ^ 16) two_pending ≡ (some 6, (65537, 5) ∷ [])
unfolding lookup delete
take_raw_cid-routes_example =
    take_raw_cid-routes 65536 65540 6 two_pending
      (omega arith, omega arith, (omega arith, omega arith, tt)) refl

abbrev chunk : ℕ → Bool → Bytes → WireFrame
chunk cid fin payload = record {
  kind = frame_api_chunk;
  cid = cid;
  code = 0;
  fin = fin;
  payload = payload;
  padded = false;
}

abbrev no_proto : Bytes → Option Envelope
no_proto payload = none

abbrev idle : Tables
idle = record { streams = []; cids = [] }

-- Two requests whose chunks interleave.
abbrev interleaved : List Step
interleaved =
    register 7 100
    ∷ register 8 200
    ∷ frame (chunk 7 false (codes "he"))
    ∷ frame (chunk 8 false (codes "x"))
    ∷ frame (chunk 7 false (codes "ll"))
    ∷ frame (chunk 8 true (codes "y"))
    ∷ []

interleaved_before : Tables
interleaved_before = (run no_proto interleaved idle).0

still_pending : lookup 7 (run no_proto interleaved idle).0.cids ≡ some 100
unfolding run run_while step_while ends step receive receive_as receive_chunk deliver_api_chunk
    take_raw_cid lookup insert delete effect_of
still_pending = refl

nothing_buffered : buffered 7 idle.streams ≡ []
unfolding buffered lookup
nothing_buffered = refl

receive-reassembled_example :
    let before = (run no_proto interleaved idle).0 in
    let after = receive false no_proto (chunk 7 true (codes "o")) before in
    (after.1 ≡ deliver 100 (api_answer 0 (codes "hello")))
    × (after.0.cids ≡ delete 7 before.cids)
    × (buffered 7 after.0.streams ≡ [])
unfolding concat
receive-reassembled_example =
    receive-reassembled no_proto interleaved idle (chunk 7 true (codes "o")) 100 false
      nothing_buffered
      (
        (λ k e. refl),
        (
          (λ k e. absurd (omega (arith, e))),
          ((λ k e. refl), ((λ k e. absurd (omega (arith, e))), tt)),
        ),
      )
      refl refl still_pending

run-sent_example :
    sent_in 100 (run no_proto interleaved idle).1
      + pending 100 (run no_proto interleaved idle).0.cids
    ≤ 1
run-sent_example = run-sent no_proto 100 interleaved idle

abbrev one_proto : Bytes → Option Envelope
one_proto payload = if same_bytes payload (codes "p") then some empty_envelope else none

abbrev pushed_frame : WireFrame
pushed_frame = record {
  kind = frame_envelope;
  cid = 0;
  code = 0;
  fin = false;
  payload = codes "p" ++ (0 ∷ 0 ∷ []);
  padded = true;
}

unmarshal_envelope-padding_example : unmarshal_envelope one_proto pushed_frame ≡ some empty_envelope
unmarshal_envelope-padding_example =
    unmarshal_envelope-padding one_proto (codes "p") empty_envelope 2 pushed_frame refl rejects
      (omega arith) refl refl
  where
    rejects : (k : ℕ) → 0 < k → k ≤ 3 → one_proto (codes "p" ++ replicate k 0) ≡ none
    rejects zero lt le = absurd (omega arith)
    rejects (suc k) lt le = refl

-- The second event comes when the connection is closed.
abbrev pushes : List Step
pushes = frame pushed_frame ∷ frame (chunk 7 false []) ∷ stopping_frame pushed_frame ∷ []

events_in-run_example : events_in (run one_proto pushes idle).1 ≡ pushed_in one_proto pushes
events_in-run_example = events_in-run one_proto pushes idle

-- A lost connection, a reconnect, and stale loops of the first one.
abbrev reconnect : List Move
reconnect =
    calls_connect none
    ∷ proceeds 0
    ∷ proceeds 0
    ∷ read_fails 1 (codes "EOF")
    ∷ proceeds 0
    ∷ proceeds 0
    ∷ proceeds 0
    ∷ calls_connect none
    ∷ proceeds 0
    ∷ proceeds 0
    ∷ ping_fails 1 (codes "timeout")
    ∷ proceeds 0
    ∷ []

moves-downs_example :
    let f = moves reconnect new_field in
    downs f.life.notices + (if f.life.connected then 1 else 0) + 1 ≤ f.life.fresh
moves-downs_example = moves-downs reconnect

-- The second connection is up, and a loop of the first one has not called markDisconnected yet.
abbrev replaced_field : Field
replaced_field = record {
  life = record {
    has_close_done = true;
    connected = true;
    done = 2;
    closed = 1 ∷ [];
    fresh = 3;
    notices = [];
  };
  tasks = marking 1 (codes "EOF") ∷ [];
}

moves-silent_example : downs_of 1 (moves reconnect replaced_field).life.notices ≡ 0
moves-silent_example =
    moves-silent 1 reconnect replaced_field (omega arith, omega arith, omega arith) refl

abbrev live : Life
live = record {
  has_close_done = true;
  connected = true;
  done = 1;
  closed = [];
  fresh = 2;
  notices = [];
}

stale_read_loop :
    let steps =
      read_fails 1 (codes "EOF")
      ∷ proceeds 0
      ∷ calls_close
      ∷ proceeds 0
      ∷ proceeds 0
      ∷ calls_connect none
      ∷ proceeds 0
      ∷ proceeds 0
      ∷ proceeds 0
      ∷ proceeds 0
      ∷ proceeds 0
      ∷ [] in
    let f = moves steps (record { life = live; tasks = [] }) in
    (f.life.connected ≡ false)
    × (f.life.done ≡ 2)
    × (is_closed 2 f.life.closed ≡ false)
    × (f.life.notices ≡ down 1 (codes "EOF") ∷ [])
    × (f.tasks ≡ [])
unfolding is_closed
stale_read_loop = moves-stale (codes "EOF") live refl refl refl refl (omega arith)
