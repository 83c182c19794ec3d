-- ===== src/Rest/Direct.antt =====
-- restapi.go: MezonAuthenticate and PlayMedia, which always go over HTTP.
use mezon_sdk_go.Prelude.{
  ℕ, [], ◌∷◌, ◌++◌, List, Option, none, some, leb, if◌then◌else◌, Bytes, codes, decimal,
}
use mezon_sdk_go.Errors.{Error, err_text, Result, ok, err}
use mezon_sdk_go.Rest.{Http, HttpRequest, HttpResponse, MezonApi, post, bearer_header}

-- "authenticate: status %d: %s"
unfoldable pub authenticate_error : ℕ → Bytes → Error
authenticate_error status body =
    err_text (codes "authenticate: status " ++ (decimal status ++ (codes ": " ++ body)))

module _ {S : Type 0} (unmarshal : Bytes → Result S) where
  unfoldable pub read_session_body : HttpResponse → Option Error → Result S
  read_session_body res (some e) = err e
  read_session_body res none =
      if leb 400 res.status_code
      then err (authenticate_error res.status_code res.body)
      else unmarshal res.body

  unfoldable pub read_session : Result HttpResponse → Result S
  read_session (err e) = err e
  read_session (ok res) = read_session_body res res.read_error

-- `encode` is the standard base64 encoding.
unfoldable pub basic_header : (Bytes → Bytes) → Bytes → List (Bytes × Bytes)
basic_header encode [] = []
basic_header encode (c ∷ cs) =
    (codes "Authorization", codes "Basic " ++ encode ((c ∷ cs) ++ codes ":")) ∷ []

unfoldable pub authenticate_request : (Bytes → Bytes) → Bytes → Bytes → Bytes → HttpRequest
authenticate_request encode base_path api_key body = record {
  url = base_path ++ codes "/v2/apps/authenticate/token";
  body = body;
  headers =
      (codes "Content-Type", codes "application/json")
      ∷ (codes "Accept", codes "application/x-protobuf")
      ∷ basic_header encode api_key;
}

module _ {S : Type 0} (http : Http) (encode : Bytes → Bytes) (unmarshal : Bytes → Result S) where
  unfoldable pub authenticate_with : Bytes → Result Bytes → MezonApi → MezonApi × Result S
  authenticate_with api_key (err e) a = (a, err e)
  authenticate_with api_key (ok body) a =
      post http (authenticate_request encode a.base_path api_key body) (read_session unmarshal) a

  -- `to_json` is json.Marshal of the account with its appid and token.
  unfoldable pub mezon_authenticate :
      (Bytes → Bytes → Result Bytes) → Bytes → Bytes → MezonApi → MezonApi × Result S
  mezon_authenticate to_json bot_id api_key a = authenticate_with api_key (to_json bot_id api_key) a

unfoldable pub media_request : Bytes → Bytes → HttpRequest
media_request bearer payload = record {
  url = codes "https://stn.mezon.ai/api/playmedia";
  body = payload;
  headers = (codes "Content-Type", codes "application/json") ∷ bearer_header bearer;
}

-- A JSON object `J`: the empty one, and what encoding/json leaves in it from bytes.
module _ {J : Type 0} (empty_object : J) (from_json : Bytes → J) where
  unfoldable pub read_object : Bytes → J
  read_object [] = empty_object
  read_object (b ∷ bs) = from_json (b ∷ bs)

  unfoldable pub read_media : Result HttpResponse → Result J
  read_media (err e) = err e
  read_media (ok res) = ok (read_object res.body)

  -- `payload` is json.Marshal of the body.
  unfoldable pub play_media : Http → Bytes → Result Bytes → MezonApi → MezonApi × Result J
  play_media http bearer (err e) a = (a, err e)
  play_media http bearer (ok payload) a = post http (media_request bearer payload) read_media a
