-- ===== src/Rest/Call.antt =====
-- restapi.go: doProtoSocket, doProto and Call.
use mezon_sdk_go.Prelude.{
  [], ◌∷◌, ◌++◌, Option, none, some, Bool, true, false, ◌==◌, if◌then◌else◌, Bytes, codes,
  same_bytes, not,
}
use mezon_sdk_go.Errors.{Error, err_socket_closed, err_send_timeout, err_text, Result, ok, err}
use mezon_sdk_go.ApiName.{api_index_from_name}
use mezon_sdk_go.Socket.{Chan}
use mezon_sdk_go.Socket.Sending.{Sender, World, send_api_request}
use mezon_sdk_go.Rest.{Http, MezonApi, Target, fill, do_http}

-- strings.TrimPrefix
unfoldable pub after_prefix : Bytes → Bytes → Option Bytes
after_prefix [] s = some s
after_prefix (p ∷ ps) [] = none
after_prefix (p ∷ ps) (c ∷ cs) = if p == c then after_prefix ps cs else none

unfoldable pub trim_prefix : Bytes → Bytes → Bytes
trim_prefix prefix s = elim (after_prefix prefix s) [ none ↦ s | some rest ↦ rest ]

unfoldable pub api_prefix : Bytes
api_prefix = codes "/mezon.api.Mezon/"

-- errors.Is(err, ErrSocketClosed) || errors.Is(err, ErrSendTimeout)
unfoldable pub is_transport_error : Error → Bool
is_transport_error err_socket_closed = true
is_transport_error err_send_timeout = true
is_transport_error Error.err_not_found = false
is_transport_error (err_text text) = false

-- The result of doProtoSocket.
pub data Handled (R : Type 0) : Type 0 where
  not_handled : Handled R
  handled : Result R → Handled R

-- What a call meets outside: the socket's world and the channel that it makes there, and HTTP.
pub record Net : Type 0 where
  pub world : World
  pub ch : Chan
  pub http : Http

-- The endpoint's name, if the path has the prefix and the name an index.
unfoldable pub known_name : Bytes → Option Bytes
known_name path =
    let name = trim_prefix api_prefix path in
    if same_bytes name path
    then none
    else elim (api_index_from_name name) [ none ↦ none | some i ↦ some name ]

module _ {R : Type 0} where
  unfoldable pub handle_reply : Target R → Result Bytes → Handled R
  handle_reply target (ok body) = handled (fill target body)
  handle_reply target (err e) = if is_transport_error e then not_handled else handled (err e)

  unfoldable pub send_over :
      Net → Bytes → Bytes → Target R → Sender → MezonApi → MezonApi × Handled R
  send_over net name body target s a =
      let r = send_api_request net.world api_index_from_name net.ch name body s in
      (record a { socket = some r.0 }, handle_reply target r.1)

  unfoldable pub do_proto_open :
      Net → Option Bytes → Bytes → Target R → Sender → MezonApi → MezonApi × Handled R
  do_proto_open net none body target s a = (a, not_handled)
  do_proto_open net (some name) body target s a = send_over net name body target s a

  unfoldable pub do_proto_socket : Net → Bytes → Bytes → Target R → MezonApi → MezonApi × Handled R
  do_proto_socket net path body target a = elim a.socket [
    | none ↦ (a, not_handled)
    | some s ↦
        if not s.connected
        then (a, not_handled)
        else do_proto_open net (known_name path) body target s a
  ]

  unfoldable pub or_http :
      Net → Bytes → Bytes → Bytes → Target R → MezonApi → Handled R → MezonApi × Result R
  or_http net bearer path body target a (handled r) = (a, r)
  or_http net bearer path body target a not_handled = do_http net.http bearer path body target a

  unfoldable pub do_marshalled :
      Net → Bytes → Bytes → Result Bytes → Target R → MezonApi → MezonApi × Result R
  do_marshalled net bearer path (err e) target a = (a, err e)
  do_marshalled net bearer path (ok body) target a =
      let r = do_proto_socket net path body target a in or_http net bearer path body target r.0 r.1

-- `request` is what proto.Marshal gives for the request, and no request has no bytes.
unfoldable pub body_of : Option (Result Bytes) → Result Bytes
body_of none = ok []
body_of (some marshalled) = marshalled

unfoldable pub do_proto :
    {R : Type 0}
    → Net
    → Bytes
    → Bytes
    → Option (Result Bytes)
    → Target R
    → MezonApi
    → MezonApi × Result R
do_proto net bearer path request target a = do_marshalled net bearer path (body_of request) target a

unfoldable pub call :
    {R : Type 0}
    → Net
    → Bytes
    → Bytes
    → Option (Result Bytes)
    → Target R
    → MezonApi
    → MezonApi × Result R
call net bearer api_name request target a =
    do_proto net bearer (api_prefix ++ api_name) request target a
