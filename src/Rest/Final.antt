-- ===== src/Rest/Final.antt =====
-- restapi.go, doProto on an open socket: an error of the API is final, one of the transport is not.
use mezon_sdk_go.Prelude.{
  ℕ, ◌≡◌, ◌≢◌, refl, sym, ap, subst, ◌∙◌, ◌⊎◌, ◌∷◌, ◌++◌, none, some, true, Bytes, codes, arith,
  decimal, get_elem?, ==_ne,
}
use mezon_sdk_go.Errors.{Error, err_send_timeout, err_text, Result, ok, err}
use mezon_sdk_go.ApiName.{api_names, api_index_from_name}
use mezon_sdk_go.ApiName.Lookup.{api_index_from_name_lem}
use mezon_sdk_go.Socket.{Chan, SocketResponse}
use mezon_sdk_go.Socket.Sending.{
  Sender, World, timed_out, wire_of, await, with_cids, enter, send_api_request, send_response,
  send_marshalled, reply_of, api_reply, api_request_envelope, write_and_wait,
}
use mezon_sdk_go.Socket.Pending.{labelled, cid_of, send_response-open, write_and_wait_done}
use mezon_sdk_go.Rest.{Http, MezonApi, Target, do_http, post, perform}
use mezon_sdk_go.Rest.Call.{
  api_prefix, is_transport_error, Net, handle_reply, send_over, or_http, do_marshalled, body_of,
  do_proto, call,
}
use mezon_sdk_go.Rest.Fallback.{known_name-path, do_proto_socket-open, ByHttp, do_http_lem, Refused}

do_http-socket :
    {R : Type 0} (http : Http) (bearer path body : Bytes) (target : Target R) (b : MezonApi)
    → (do_http http bearer path body target b).0.socket ≡ b.socket
unfolding do_http post perform
do_http-socket http bearer path body target b = ground arith

send_api_request_known :
    (world : World) (ch : Chan) (index : ℕ) (name body : Bytes) (s : Sender)
    → api_index_from_name name ≡ some index
    → send_api_request world api_index_from_name ch name body s ≡ (
      (send_response world ch (api_request_envelope index name body) s).0,
      reply_of name (send_response world ch (api_request_envelope index name body) s).1,
    )
unfolding send_api_request
send_api_request_known world ch index name body s h = rw (h, send_api_request) refl

-- "mezon: API %s failed with code %d"
abbrev pub api_failure : Bytes → ℕ → Error
api_failure name code =
    err_text (codes "mezon: API " ++ (name ++ (codes " failed with code " ++ decimal code)))

api_reply-code :
    (name : Bytes) (resp : SocketResponse)
    → resp.api_response ≡ true
    → resp.code ≢ 0
    → api_reply name resp ≡ err (api_failure name resp.code)
unfolding api_reply
api_reply-code name resp raw failed = ground (arith, ==_ne resp.code 0)

module _ {R : Type 0} (net : Net) (bearer name body : Bytes) (index : ℕ) (target : Target R)
    (a : MezonApi) (s : Sender) (attached : a.socket ≡ some s) (is_open : s.connected ≡ true)
    (known : get_elem? api_names index ≡ some name) where
  abbrev sent_over : Sender × Result Bytes
  sent_over = send_api_request net.world api_index_from_name net.ch name body s

  -- A call of a known API on an open socket, from the reply on.
  call-open :
      call net bearer name (some (ok body)) target a
      ≡ or_http net bearer
          (api_prefix ++ name)
          body
          target
          (record a { socket = some sent_over.0 })
          (handle_reply target sent_over.1)
  unfolding call do_proto do_marshalled body_of send_over
  call-open =
      ap (λ q. or_http net bearer (api_prefix ++ name) body target q.0 q.1)
        (do_proto_socket-open net body target a (api_prefix ++ name) name s attached is_open
          (known_name-path name index ((api_index_from_name_lem name index).1 known)))

  -- When the server answers a call on the open socket by a code other than 0, the call fails by an
  -- error that names the API and the code, and nothing goes out over HTTP.
  pub call-api_failure :
      (resp : SocketResponse)
      → (send_response net.world net.ch (api_request_envelope index name body) s).1 ≡ ok resp
      → resp.api_response ≡ true
      → resp.code ≢ 0
      → let r = call net bearer name (some (ok body)) target a in
        (r.1 ≡ err (api_failure name resp.code)) × (r.0.sent ≡ a.sent)
  unfolding handle_reply or_http is_transport_error reply_of
  call-api_failure resp answered raw failed =
      let found = (api_index_from_name_lem name index).1 known in
      let reply =
        ap (λ p. p.1) (send_api_request_known net.world net.ch index name body s found)
        ∙ ap (reply_of name) answered
        ∙ api_reply-code name resp raw failed in
      let ends =
        call-open
        ∙ ap
            (λ r.
              or_http net bearer (api_prefix ++ name) body target
                (record a { socket = some sent_over.0 }) (handle_reply target r))
            reply in
      (ap (λ r. r.1) ends, ap (λ r. r.0.sent) ends)

  -- The send after which no answer comes in time: the bytes have gone to the connection.
  send_response-timed_out :
      (payload : Bytes)
      → let env = api_request_envelope index name body in
        net.world.marshal (labelled env s) ≡ ok payload
        → net.world.write (wire_of (labelled env s) s.native_ping payload) ≡ none
        → net.world.outcome ≡ timed_out
        → let r = send_response net.world net.ch env s in
          (r.1 ≡ err err_send_timeout)
          × (r.0.written ≡ wire_of (labelled env s) s.native_ping payload ∷ s.written)
  unfolding send_marshalled await write_and_wait wire_of enter with_cids
  send_response-timed_out payload bytes written late =
      let env = api_request_envelope index name body in
      let wire = wire_of (labelled env s) s.native_ping payload in
      let left =
        send_response-open net.world net.ch env s (ok payload) is_open bytes
        ∙ write_and_wait_done net.world (cid_of s) wire timed_out (enter net.ch s) written late in
      (ap (λ r. r.1) left, ap (λ r. r.0.written) left)

  -- A call on the open socket whose answer does not come in time has been written to the
  -- connection, and is then sent a second time, over HTTP, unless its URL is refused.
  pub call-timed_out :
      (payload : Bytes)
      → let env = api_request_envelope index name body in
        net.world.marshal (labelled env s) ≡ ok payload
        → net.world.write (wire_of (labelled env s) s.native_ping payload) ≡ none
        → net.world.outcome ≡ timed_out
        → let r = call net bearer name (some (ok body)) target a in
          ((s' : Sender) × (r.0.socket ≡ some s')
            × (s'.written ≡ wire_of (labelled env s) s.native_ping payload ∷ s.written))
          × (ByHttp net body target a bearer (api_prefix ++ name) r
              ⊎ Refused net body target a (api_prefix ++ name) r)
  unfolding handle_reply or_http is_transport_error reply_of
  call-timed_out payload bytes written late =
      let found = (api_index_from_name_lem name index).1 known in
      let env = api_request_envelope index name body in
      let path = api_prefix ++ name in
      let known_send = send_api_request_known net.world net.ch index name body s found in
      let sent = send_response-timed_out payload bytes written late in
      let reply = ap (λ p. p.1) known_send ∙ ap (reply_of name) sent.0 in
      let after : MezonApi = record a { socket = some sent_over.0 } in
      let ends =
        call-open
        ∙ ap (λ r. or_http net bearer path body target after (handle_reply target r)) reply in
      let kept = do_http-socket net.http bearer path body target after in
      (
        (sent_over.0, ap (λ r. r.0.socket) ends ∙ kept, ap (λ p. p.0.written) known_send ∙ sent.1),
        subst (λ r. ByHttp net body target a bearer path r ⊎ Refused net body target a path r)
            (sym ends) (do_http_lem net body target a bearer path after refl refl),
      )
