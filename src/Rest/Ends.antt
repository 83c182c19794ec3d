-- ===== src/Rest/Ends.antt =====
-- restapi.go, doProto: the ends that a request comes to, and what decides between them.
use mezon_sdk_go.Prelude.{
  ℕ, ◌≡◌, ◌≢◌, refl, sym, subst, ap, ◌∙◌, ◌⊎◌, inl, inr, [], ◌∷◌, ◌++◌, Option, none, some, true,
  false, Bytes, same_bytes_refl, arith, not, Bool-cases, Option-cases, if◌then◌else◌, ==_iff,
}
use mezon_sdk_go.Errors.{
  Error, err_socket_closed, err_send_timeout, err_not_found, err_text, Result, ok, err,
}
use mezon_sdk_go.ApiName.{api_index_from_name}
use mezon_sdk_go.Socket.Sending.{Sender, send_api_request}
use mezon_sdk_go.Rest.{MezonApi, Target, fill}
use mezon_sdk_go.Rest.Call.{
  after_prefix, trim_prefix, api_prefix, is_transport_error, Handled, handled, not_handled, Net,
  handle_reply, send_over, known_name, do_proto_open, do_proto_socket, or_http, do_marshalled,
  body_of, do_proto,
}
use mezon_sdk_go.Rest.Fallback.{
  known_name-path, known_name-absent, do_proto_socket-keeps, ByHttp, Refused, do_http_lem,
}

-- The path is that of a name in the table of the API.
abbrev pub Routed : Bytes → Bytes → Type 0
Routed path name = (path ≡ api_prefix ++ name) × ((i : ℕ) × (api_index_from_name name ≡ some i))

after_prefix-split : (p path rest : Bytes) → after_prefix p path ≡ some rest → path ≡ p ++ rest
unfolding after_prefix
after_prefix-split [] path rest h = cc
after_prefix-split (c ∷ p) [] rest h = absurd (cc)
after_prefix-split (c ∷ p) (x ∷ path) rest h =
    ground (arith, after_prefix-split p path rest, ==_iff c x)

known_name-outside : (path : Bytes) → after_prefix api_prefix path ≡ none → known_name path ≡ none
unfolding known_name trim_prefix
known_name-outside path h = rw (h, trim_prefix, same_bytes_refl path) refl

known_name-Routed : (path name : Bytes) → known_name path ≡ some name → Routed path name
known_name-Routed path name h = elim (Option-cases (after_prefix api_prefix path)) [
  | inl outside ↦ let no_name = sym (known_name-outside path outside) ∙ h in absurd (cc)
  | inr (rest, inside) ↦
      let split = after_prefix-split api_prefix path rest inside in
      elim (Option-cases (api_index_from_name rest)) [
        | inl unknown ↦
            let no_name = sym (ap known_name split ∙ known_name-absent rest unknown) ∙ h in
            absurd (cc)
        | inr (i, known) ↦
            let here = sym (ap known_name split ∙ known_name-path rest i known) ∙ h in
            let same : rest ≡ name = cc in subst (Routed path) same (split, (i, known))
      ]
]

known_name-not : (path : Bytes) → known_name path ≡ none → ¬ ((name : Bytes) × Routed path name)
known_name-not path h = λ routed.
    let known = known_name-path routed.0 routed.1.1.0 routed.1.1.1 in
    let clash = sym (ap known_name routed.1.0 ∙ known) ∙ h in absurd (cc)

module _ {R : Type 0} (net : Net) (body : Bytes) (target : Target R) (a : MezonApi) where
  -- What sendApiRequest returns.
  abbrev pub answer : Sender → Bytes → Result Bytes
  answer s name = (send_api_request net.world api_index_from_name net.ch name body s).1

  -- The answer of the socket is the end of the request: its body as the response, or its error,
  -- which is neither that the socket is closed nor that the answer is late.
  abbrev pub Final : Result Bytes → Result R → Type 0
  Final (ok b) r = r ≡ fill target b
  Final (err e) r = (e ≢ err_socket_closed) × (e ≢ err_send_timeout) × (r ≡ err e)

  abbrev pub Late : Result Bytes → Type 0
  Late o = (o ≡ err err_socket_closed) ⊎ (o ≡ err err_send_timeout)

  -- The socket that is open takes the request under its name.
  abbrev pub Sends : Bytes → Sender → Bytes → Type 0
  Sends path s name = (a.socket ≡ some s) × (s.connected ≡ true) × Routed path name

  abbrev pub BySocket : Bytes → Result R → Type 0
  BySocket path r = (s : Sender) × (name : Bytes) × Sends path s name × Final (answer s name) r

  -- There is no socket, or it is down, or the path has no name in the table, or the send failed.
  abbrev pub NotBySocket : Bytes → Type 0
  NotBySocket path =
      (a.socket ≡ none)
      ⊎ ((s : Sender) × (a.socket ≡ some s) × (s.connected ≡ false))
      ⊎ (¬ ((name : Bytes) × Routed path name))
      ⊎ ((s : Sender) × (name : Bytes) × Sends path s name × Late (answer s name))

  handle_reply-cases :
      (o : Result Bytes)
      → ((r : Result R) × (handle_reply target o ≡ handled r) × Final o r)
        ⊎ ((handle_reply target o ≡ not_handled) × Late o)
  unfolding handle_reply is_transport_error
  handle_reply-cases (ok b) = inl (fill target b, refl, refl)
  handle_reply-cases (err err_socket_closed) = inr (refl, inl refl)
  handle_reply-cases (err err_send_timeout) = inr (refl, inr refl)
  handle_reply-cases (err err_not_found) =
      inl (err err_not_found, refl, ((λ e. absurd (cc)), (λ e. absurd (cc)), refl))
  handle_reply-cases (err (err_text text)) =
      inl (err (err_text text), refl, ((λ e. absurd (cc)), (λ e. absurd (cc)), refl))

  -- What doProtoSocket returns.
  abbrev Comes : Bytes → Handled R → Type 0
  Comes path h =
      ((r : Result R) × (h ≡ handled r) × BySocket path r) ⊎ ((h ≡ not_handled) × NotBySocket path)

  open-Comes :
      (path : Bytes) (s : Sender)
      → a.socket ≡ some s
      → s.connected ≡ true
      → Comes path (do_proto_open net (known_name path) body target s a).1
  unfolding do_proto_open send_over
  open-Comes path s here up = elim (Option-cases (known_name path)) [
    | inl outside ↦ rw outside (inr (refl, inr (inr (inl (known_name-not path outside)))))
    | inr (name, inside) ↦
        let sends : Sends path s name = (here, up, known_name-Routed path name inside) in
        rw inside (elim (handle_reply-cases (answer s name)) [
          | inl (r, taken, final) ↦ inl (r, taken, (s, name, sends, final))
          | inr (left, late) ↦ inr (left, inr (inr (inr (s, name, sends, late))))
        ])
  ]

  do_proto_socket-Comes : (path : Bytes) → Comes path (do_proto_socket net path body target a).1
  unfolding do_proto_socket
  do_proto_socket-Comes path = of_socket a.socket refl
    where
      of_socket :
          (o : Option Sender)
          → a.socket ≡ o
          → let r : MezonApi × Handled R = elim o [
            | none ↦ (a, not_handled)
            | some s ↦
                if not s.connected
                then (a, not_handled)
                else do_proto_open net (known_name path) body target s a
          ] in
            Comes path r.1
      of_socket none here = inr (refl, inl here)
      of_socket (some s) here = elim (Bool-cases s.connected) [
        | inl up ↦
            subst
              (λ b.
                Comes path
                  (if not b
                    then (a, not_handled)
                    else do_proto_open net (known_name path) body target s a).1)
              (sym up) (open-Comes path s here up)
        | inr off ↦
            subst
              (λ b.
                Comes path
                  (if not b
                    then (a, not_handled)
                    else do_proto_open net (known_name path) body target s a).1)
              (sym off) (inr (refl, inr (inl (s, here, off))))
      ]

  -- The ends of a request whose body is marshalled.
  abbrev pub Sent : Bytes → Bytes → MezonApi × Result R → Type 0
  Sent bearer path r =
      (BySocket path r.1 × (r.0.sent ≡ a.sent))
      ⊎ (NotBySocket path
          × (ByHttp net body target a bearer path r ⊎ Refused net body target a path r))

  or_http_lem :
      (bearer path : Bytes) (b : MezonApi) (h : Handled R)
      → b.sent ≡ a.sent
      → b.base_path ≡ a.base_path
      → Comes path h
      → Sent bearer path (or_http net bearer path body target b h)
  unfolding or_http
  or_http_lem bearer path b (handled r) same_log same_path (inl (r', same, by)) =
      let e : r' ≡ r = cc in inl (subst (BySocket path) e by, same_log)
  or_http_lem bearer path b (handled r) same_log same_path (inr (clash, why)) = absurd (cc)
  or_http_lem bearer path b not_handled same_log same_path (inl (r', clash, by)) = absurd (cc)
  or_http_lem bearer path b not_handled same_log same_path (inr (same, why)) =
      inr (why, do_http_lem net body target a bearer path b same_log same_path)

  do_marshalled-Sent :
      (bearer path : Bytes) → Sent bearer path (do_marshalled net bearer path (ok body) target a)
  unfolding do_marshalled
  do_marshalled-Sent bearer path =
      let q = do_proto_socket net path body target a in
      let same = do_proto_socket-keeps net body target a path in
      or_http_lem bearer path q.0 q.1 same.0 same.1 (do_proto_socket-Comes path)

-- The bytes of a request: marshalled, or none for no request.
abbrev pub HasBody : Option (Result Bytes) → Bytes → Type 0
HasBody request body = (request ≡ some (ok body)) ⊎ ((request ≡ none) × (body ≡ []))

-- Any request comes to one of four ends. It cannot be marshalled, and nothing is done. Or an open
-- socket takes it, under a name of the API's table, and the answer is final: its body gives the
-- response, or it is an error other than that the socket is closed or the answer late, and nothing
-- goes out over HTTP. Or else, which is only when there is no socket, it is down, the path has no
-- name in the table, or sending failed with one of those two errors, it goes out over HTTP once, to
-- its path below the base path, with the answer read from that exchange, or its URL is refused.
pub do_proto-ends :
    {R : Type 0} (net : Net) (bearer path : Bytes) (request : Option (Result Bytes))
    (target : Target R) (a : MezonApi)
    → let r = do_proto net bearer path request target a in
      ((e : Error) × (request ≡ some (err e)) × (r ≡ (a, err e)))
      ⊎ ((body : Bytes) × HasBody request body × Sent net body target a bearer path r)
unfolding do_proto do_marshalled body_of
do_proto-ends net bearer path none target a =
    inr ([], inr (refl, refl), do_marshalled-Sent net [] target a bearer path)
do_proto-ends net bearer path (some (ok body)) target a =
    inr (body, inl refl, do_marshalled-Sent net body target a bearer path)
do_proto-ends net bearer path (some (err e)) target a = inl (e, refl, refl)
