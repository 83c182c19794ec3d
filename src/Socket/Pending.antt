-- ===== src/Socket/Pending.antt =====
-- socket.go, sendResponse and sendApiRequest: what a send leaves in the table of pending requests.
use mezon_sdk_go.Prelude.{
  ℕ, ◌%◌, ◌^◌, ◌≡◌, refl, ap, ◌∙◌, ◌⊎◌, inl, inr, Bool, true, not, ◌∷◌, Option, none, some, arith,
  ==_refl, if◌then◌else◌, lookup, lookup-delete, nat_eq, Bytes, Option-cases,
}
use mezon_sdk_go.Errors.{Error, err_socket_closed, Result, ok, err}
use mezon_sdk_go.Socket.{Chan, Envelope, SocketResponse}
use mezon_sdk_go.Socket.Cids.{Cids, generate_cid, clear_cid, take_raw_cid}
use mezon_sdk_go.Socket.Routing.{InWindow, take_raw_cid-routes}
use mezon_sdk_go.Socket.Sending.{
  Sender, World, Outcome, timed_out, torn_down, Wire, wire_of, with_cids, await, write_and_wait,
  enter, send_marshalled, send_response, api_reply, reply_of, api_request_envelope,
  send_api_request,
}

abbrev pub cid_of : Sender → ℕ
cid_of s = (generate_cid s.next_cid).1

-- The envelope as it is marshalled.
abbrev pub labelled : Envelope → Sender → Envelope
labelled env s = record env { cid = cid_of s }

-- The send ends by an error that it meets itself: no bytes, a failed write, or no answer in time.
abbrev pub GivesUp : World → Envelope → Sender → Type 0
GivesUp world env s =
    ((e : Error) × (world.marshal (labelled env s) ≡ err e))
    ⊎ (((payload : Bytes) × (e : Error) × (world.marshal (labelled env s) ≡ ok payload)
          × (world.write (wire_of (labelled env s) s.native_ping payload) ≡ some e))
        ⊎ ((payload : Bytes) × (world.marshal (labelled env s) ≡ ok payload)
            × (world.write (wire_of (labelled env s) s.native_ping payload) ≡ none)
            × (world.outcome ≡ timed_out)))

clear_cid-absent : (cid : ℕ) (cids : Cids) → lookup cid (clear_cid cid cids) ≡ none
unfolding clear_cid
clear_cid-absent cid cids = rw (lookup-delete cid cid cids, ==_refl cid) refl

write_and_wait_failed :
    (world : World) (cid : ℕ) (wire : Wire) (e : Error) (s : Sender)
    → world.write wire ≡ some e
    → write_and_wait world cid wire s ≡ (with_cids (clear_cid cid s.cids) s, err e)
unfolding write_and_wait
write_and_wait_failed world cid wire e s h = rw (h, write_and_wait) refl

pub write_and_wait_done :
    (world : World) (cid : ℕ) (wire : Wire) (outcome : Outcome) (s : Sender)
    → world.write wire ≡ none
    → world.outcome ≡ outcome
    → write_and_wait world cid wire s
      ≡ await cid outcome (record s { cids = world.meanwhile s.cids; written = wire ∷ s.written })
unfolding write_and_wait
write_and_wait_done world cid wire outcome s h o =
    ap
      (λ o. elim o [
        | some e ↦ (with_cids (clear_cid cid s.cids) s, err e)
        | none ↦
            await cid world.outcome
              (record s { cids = world.meanwhile s.cids; written = wire ∷ s.written })
      ])
      h
    ∙ ap (λ x. await cid x (record s { cids = world.meanwhile s.cids; written = wire ∷ s.written }))
        o

if_not-true {ℓ} : {A : Type ℓ} (b : Bool) (x y : A) → b ≡ true → (if not b then x else y) ≡ y
if_not-true b x y h = rw h refl

-- A send on an open socket, from the marshalled envelope on.
pub send_response-open :
    (world : World) (ch : Chan) (env : Envelope) (s : Sender) (r : Result Bytes)
    → s.connected ≡ true
    → world.marshal (labelled env s) ≡ r
    → send_response world ch env s ≡ send_marshalled world (labelled env s) r (enter ch s)
unfolding send_response
send_response-open world ch env s r is_open h =
    if_not-true s.connected (s, err err_socket_closed)
      (send_marshalled world (labelled env s) (world.marshal (labelled env s)) (enter ch s)) is_open
    ∙ ap (λ m. send_marshalled world (labelled env s) m (enter ch s)) h

-- A send on an open socket that cannot marshal its envelope, fails to write it or gets no answer
-- in time leaves no entry for its cid in the table, whatever other goroutines did to the table.
pub send_response-cleared :
    (world : World) (ch : Chan) (env : Envelope) (s : Sender)
    → s.connected ≡ true
    → GivesUp world env s
    → lookup (cid_of s) (send_response world ch env s).0.cids ≡ none
unfolding send_marshalled await with_cids write_and_wait wire_of enter clear_cid
send_response-cleared world ch env s is_open (inl (e, no_bytes)) =
    ap (λ r. lookup (cid_of s) r.0.cids)
      (send_response-open world ch env s (err e) is_open no_bytes)
    ∙ clear_cid-absent (cid_of s) (enter ch s).cids
send_response-cleared world ch env s is_open (inr (inl (payload, e, bytes, failed))) =
    let wire = wire_of (labelled env s) s.native_ping payload in
    ap (λ r. lookup (cid_of s) r.0.cids)
      (send_response-open world ch env s (ok payload) is_open bytes
        ∙ write_and_wait_failed world (cid_of s) wire e (enter ch s) failed)
    ∙ clear_cid-absent (cid_of s) (enter ch s).cids
send_response-cleared world ch env s is_open (inr (inr (payload, bytes, written, late))) =
    let wire = wire_of (labelled env s) s.native_ping payload in
    ap (λ r. lookup (cid_of s) r.0.cids)
      (send_response-open world ch env s (ok payload) is_open bytes
        ∙ write_and_wait_done world (cid_of s) wire timed_out (enter ch s) written late)
    ∙ clear_cid-absent (cid_of s) (world.meanwhile (enter ch s).cids)

-- A send that ends because its connection is torn down leaves its entry in the table, when nobody
-- else took it off: while the pending cids lie in one window of 2^16, a raw response that carries
-- the low 16 bits of the dead request's cid is still handed to its channel.
pub send_response-torn_down :
    (world : World) (ch : Chan) (env : Envelope) (s : Sender) (payload : Bytes) (base : ℕ)
    → s.connected ≡ true
    → world.marshal (labelled env s) ≡ ok payload
    → world.write (wire_of (labelled env s) s.native_ping payload) ≡ none
    → world.outcome ≡ torn_down
    → lookup (cid_of s) (world.meanwhile (enter ch s).cids) ≡ some ch
    → InWindow base (world.meanwhile (enter ch s).cids)
    → let r = send_response world ch env s in
      (r.1 ≡ err err_socket_closed)
      × (lookup (cid_of s) r.0.cids ≡ some ch)
      × ((take_raw_cid (cid_of s % 2 ^ 16) r.0.cids).0 ≡ some ch)
unfolding send_marshalled await write_and_wait wire_of enter clear_cid
send_response-torn_down world ch env s payload base is_open bytes written torn kept window =
    let later = world.meanwhile (enter ch s).cids in
    let wire = wire_of (labelled env s) s.native_ping payload in
    let left =
      send_response-open world ch env s (ok payload) is_open bytes
      ∙ write_and_wait_done world (cid_of s) wire torn_down (enter ch s) written torn in
    (
      ap (λ r. r.1) left,
      ap (λ r. lookup (cid_of s) r.0.cids) left ∙ kept,
      ap (λ r. (take_raw_cid (cid_of s % 2 ^ 16) r.0.cids).0) left
          ∙ ap (λ r. r.0) (take_raw_cid-routes base (cid_of s) ch later window kept),
    )

api_reply-ok :
    (api_name body : Bytes) (resp : SocketResponse)
    → api_reply api_name resp ≡ ok body
    → (resp.api_response ≡ true) × (resp.code ≡ 0) × (resp.body ≡ body)
unfolding api_reply
api_reply-ok api_name body resp h = ground arith

api_request_reply :
    (api_name body : Bytes) (r : Result SocketResponse)
    → reply_of api_name r ≡ ok body
    → (resp : SocketResponse) × (r ≡ ok resp)
      × (resp.api_response ≡ true)
      × (resp.code ≡ 0)
      × (resp.body ≡ body)
unfolding reply_of
api_request_reply api_name body (err e) h = absurd (ground arith)
api_request_reply api_name body (ok resp) h =
    let parts = api_reply-ok api_name body resp h in (resp, refl, parts.0, parts.1, parts.2)

-- A successful call of sendApiRequest names an API of the table, and its result is the body of a
-- raw response with code zero to the ApiRequestEvent envelope that carries the API's index, its
-- name and the request's body.
pub send_api_request-ok :
    (world : World) (index_of : Bytes → Option ℕ) (ch : Chan) (api_name request body : Bytes)
    (s : Sender)
    → (send_api_request world index_of ch api_name request s).1 ≡ ok body
    → (index : ℕ) × (resp : SocketResponse) × (index_of api_name ≡ some index)
      × ((send_response world ch (api_request_envelope index api_name request) s).1 ≡ ok resp)
      × (resp.api_response ≡ true)
      × (resp.code ≡ 0)
      × (resp.body ≡ body)
unfolding send_api_request
send_api_request-ok world index_of ch api_name request body s h =
    elim (Option-cases (index_of api_name)) [
      | inl unknown ↦ absurd (ground arith)
      | inr (index, known) ↦
          let r = send_response world ch (api_request_envelope index api_name request) s in
          let found = api_request_reply api_name body r.1 (rw (known, send_api_request) at h) in
          (index, found.0, known, found.1, found.2, found.3, found.4)
    ]
