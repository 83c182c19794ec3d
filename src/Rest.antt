-- ===== src/Rest.antt =====
-- restapi.go: MezonApi. A request rides the realtime socket when it is open, and else goes out over
-- HTTP. proto.Marshal and Unmarshal, encoding/json, base64 and net/http are parameters; `sent` is
-- what has been handed to the HTTP client, the last first.
pub mod Call
pub mod Fallback
pub mod Ends
pub mod Endpoints
pub mod Final
pub mod Names
pub mod Direct
use mezon_sdk_go.Prelude.{
  ℕ, zero, suc, ℤ, pos, negsuc, List, [], ◌∷◌, ◌++◌, Option, none, some, Bool, true, false, leb,
  ◌==◌, if◌then◌else◌, Bytes, codes, decimal,
}
use mezon_sdk_go.Errors.{Error, err_text, Result, ok, err}
use mezon_sdk_go.Socket.Sending.{Sender}

pub record HttpRequest : Type 0 where
  pub url : Bytes
  pub body : Bytes
  pub headers : List (Bytes × Bytes)

-- The status, the body as far as it could be read, and the error that ended the reading, if any.
pub record HttpResponse : Type 0 where
  pub status_code : ℕ
  pub body : Bytes
  pub read_error : Option Error

-- http.NewRequestWithContext, which refuses some URLs, and Client.Do.
pub record Http : Type 0 where
  pub refuses : Bytes → Option Error
  pub exchange : HttpRequest → Result HttpResponse

-- The durations are in milliseconds.
pub record MezonApi : Type 0 where
  pub api_key : Bytes
  pub base_path : Bytes
  pub timeout : ℤ
  pub socket : Option Sender
  pub sent : List HttpRequest

-- A response message to be filled: its zero value and what proto.Unmarshal makes of bytes; a nil
-- response takes none.
pub record Target (R : Type 0) : Type 0 where
  pub zero_value : R
  pub unmarshal : Option (Bytes → Result R)

unfoldable pub is_positive : ℤ → Bool
is_positive (pos zero) = false
is_positive (pos (suc n)) = true
is_positive (negsuc n) = false

unfoldable pub new_mezon_api : Bytes → Bytes → ℤ → MezonApi
new_mezon_api api_key base_path timeout = record {
  api_key = api_key;
  base_path = base_path;
  timeout = if is_positive timeout then timeout else pos 7000;
  socket = none;
  sent = [];
}

unfoldable pub attach_socket : Sender → MezonApi → MezonApi
attach_socket s a = record a { socket = some s }

-- "mezon api %s: status %d: %s"
unfoldable pub status_error : Bytes → ℕ → Bytes → Error
status_error path status body = err_text (
    codes "mezon api " ++ (path ++ (codes ": status " ++ (decimal status ++ (codes ": " ++ body)))))

module _ {R : Type 0} where
  unfoldable pub fill_from : R → (Bytes → Result R) → Bytes → Result R
  fill_from zero_value unmarshal [] = ok zero_value
  fill_from zero_value unmarshal (b ∷ bs) = unmarshal (b ∷ bs)

  -- `if resp != nil && len(data) > 0 { return proto.Unmarshal(data, resp) }; return nil`
  unfoldable pub fill : Target R → Bytes → Result R
  fill target body = elim target.unmarshal [
    | none ↦ ok target.zero_value
    | some unmarshal ↦ fill_from target.zero_value unmarshal body
  ]

  unfoldable pub read_body : Bytes → Target R → HttpResponse → Option Error → Result R
  read_body path target res (some e) = err e
  read_body path target res none =
      if leb 400 res.status_code
      then err (status_error path res.status_code res.body)
      else fill target res.body

  unfoldable pub read_response : Bytes → Target R → HttpResponse → Result R
  read_response path target res =
      if res.status_code == 204
      then ok target.zero_value
      else read_body path target res res.read_error

  unfoldable pub read_exchange : Bytes → Target R → Result HttpResponse → Result R
  read_exchange path target (err e) = err e
  read_exchange path target (ok res) = read_response path target res

unfoldable pub bearer_header : Bytes → List (Bytes × Bytes)
bearer_header [] = []
bearer_header (c ∷ cs) = (codes "Authorization", codes "Bearer " ++ (c ∷ cs)) ∷ []

unfoldable pub proto_request : Bytes → Bytes → Bytes → HttpRequest
proto_request url bearer body = record {
  url = url;
  body = body;
  headers =
      (codes "Content-Type", codes "application/proto")
      ∷ (codes "Accept", codes "application/proto")
      ∷ bearer_header bearer;
}

-- Client.Do, which notes the request.
unfoldable pub perform : Http → HttpRequest → MezonApi → MezonApi × Result HttpResponse
perform http request a = (record a { sent = request ∷ a.sent }, http.exchange request)

module _ {R : Type 0} where
  -- A request over HTTP, from http.NewRequestWithContext on.
  unfoldable pub post :
      Http → HttpRequest → (Result HttpResponse → Result R) → MezonApi → MezonApi × Result R
  post http request read a = elim (http.refuses request.url) [
    | some e ↦ (a, err e)
    | none ↦ let r = perform http request a in (r.0, read r.1)
  ]

  unfoldable pub do_http : Http → Bytes → Bytes → Bytes → Target R → MezonApi → MezonApi × Result R
  do_http http bearer path body target a =
      post http (proto_request (a.base_path ++ path) bearer body) (read_exchange path target) a
