-- ===== src/Rest/Fallback.antt =====
-- restapi.go, doProto: when a request goes over the socket, when over HTTP, and which answer
-- counts.
use mezon_sdk_go.Prelude.{
  ℕ, ◌≡◌, refl, ap, ◌∙◌, ◌⊎◌, inl, inr, [], ◌∷◌, ◌++◌, Option, none, some, true, false, Bytes,
  codes, same_bytes, same_bytes→≡, arith, not, Bool-cases, Option-cases, if◌then◌else◌, length,
  length-append,
}
use mezon_sdk_go.Errors.{Error, Result, err}
use mezon_sdk_go.ApiName.{api_index_from_name}
use mezon_sdk_go.Socket.Sending.{Sender}
use mezon_sdk_go.Rest.{
  HttpRequest, MezonApi, Target, do_http, post, perform, read_exchange, proto_request,
}
use mezon_sdk_go.Rest.Call.{
  after_prefix, trim_prefix, api_prefix, Handled, not_handled, Net, send_over, known_name,
  do_proto_open, do_proto_socket,
}

after_prefix-append : (p s : Bytes) → after_prefix p (p ++ s) ≡ some s
unfolding after_prefix
after_prefix-append [] s = refl
after_prefix-append (c ∷ p) s = ground (arith, after_prefix-append p s)

trim_prefix-append : (p s : Bytes) → trim_prefix p (p ++ s) ≡ s
unfolding trim_prefix
trim_prefix-append p s = rw (after_prefix-append p s, trim_prefix) refl

-- A name is not the path that ends with it.
same_bytes-path : (c : ℕ) (p s : Bytes) → same_bytes s ((c ∷ p) ++ s) ≡ false
same_bytes-path c p s = elim (Bool-cases (same_bytes s ((c ∷ p) ++ s))) [
  | inr differ ↦ differ
  | inl same ↦ absurd (
      omega (
        arith,
        ap (λ (t : Bytes). length t) (same_bytes→≡ s ((c ∷ p) ++ s) same),
        length-append {0} (c ∷ p) s,
      ))
]

-- A path of the API is routed over the socket exactly under a name that has an index.
pub known_name-path :
    (name : Bytes) (i : ℕ)
    → api_index_from_name name ≡ some i
    → known_name (api_prefix ++ name) ≡ some name
unfolding known_name api_prefix
known_name-path name i h =
    ap
      (λ n.
        if same_bytes n (api_prefix ++ name)
        then none
        else elim (api_index_from_name n) [ none ↦ none | some i ↦ some n ])
      (trim_prefix-append api_prefix name)
    ∙ rw (same_bytes-path 47 (codes "mezon.api.Mezon/") name, h) refl

pub known_name-absent :
    (name : Bytes) → api_index_from_name name ≡ none → known_name (api_prefix ++ name) ≡ none
unfolding known_name api_prefix
known_name-absent name h =
    ap
      (λ n.
        if same_bytes n (api_prefix ++ name)
        then none
        else elim (api_index_from_name n) [ none ↦ none | some i ↦ some n ])
      (trim_prefix-append api_prefix name)
    ∙ rw (same_bytes-path 47 (codes "mezon.api.Mezon/") name, h) refl

module _ {R : Type 0} (net : Net) (body : Bytes) (target : Target R) (a : MezonApi) where
  pub do_proto_socket-open :
      (path name : Bytes) (s : Sender)
      → a.socket ≡ some s
      → s.connected ≡ true
      → known_name path ≡ some name
      → do_proto_socket net path body target a ≡ send_over net name body target s a
  unfolding do_proto_socket do_proto_open
  do_proto_socket-open path name s attached is_open known =
      ap
        (λ o. elim o [
          | none ↦ (a, not_handled)
          | some s ↦
              if not s.connected
              then (a, not_handled)
              else do_proto_open net (known_name path) body target s a
        ])
        attached
      ∙ rw (is_open, known) refl

  do_proto_open-keeps :
      (o : Option Bytes) (s : Sender)
      → let r = do_proto_open net o body target s a in
        (r.0.sent ≡ a.sent) × (r.0.base_path ≡ a.base_path)
  unfolding do_proto_open send_over
  do_proto_open-keeps none s = (refl, refl)
  do_proto_open-keeps (some name) s = (refl, refl)

  pub do_proto_socket-keeps :
      (path : Bytes)
      → let r = do_proto_socket net path body target a in
        (r.0.sent ≡ a.sent) × (r.0.base_path ≡ a.base_path)
  unfolding do_proto_socket
  do_proto_socket-keeps path = kept a.socket
    where
      kept :
          (o : Option Sender)
          → let r : MezonApi × Handled R = elim o [
            | none ↦ (a, not_handled)
            | some s ↦
                if not s.connected
                then (a, not_handled)
                else do_proto_open net (known_name path) body target s a
          ] in
            (r.0.sent ≡ a.sent) × (r.0.base_path ≡ a.base_path)
      kept none = (refl, refl)
      kept (some s) = ground (arith, do_proto_open-keeps (known_name path) s)

  -- The request has gone out over HTTP, once, and `r` is the state after it and what it came to.
  abbrev pub ByHttp : Bytes → Bytes → MezonApi × Result R → Type 0
  ByHttp bearer path r =
      let request = proto_request (a.base_path ++ path) bearer body in
      (r.0.sent ≡ request ∷ a.sent) × (r.1 ≡ read_exchange path target (net.http.exchange request))

  -- Its URL is refused before it goes out.
  abbrev pub Refused : Bytes → MezonApi × Result R → Type 0
  Refused path r =
      (e : Error) × (net.http.refuses (a.base_path ++ path) ≡ some e)
      × (r.0.sent ≡ a.sent)
      × (r.1 ≡ err e)

  post-fine :
      (request : HttpRequest) (path : Bytes) (b : MezonApi)
      → net.http.refuses request.url ≡ none
      → post net.http request (read_exchange path target) b ≡ (
        record b { sent = request ∷ b.sent },
        read_exchange path target (net.http.exchange request),
      )
  unfolding post perform
  post-fine request path b fine = rw (fine, post) refl

  post-refused :
      (request : HttpRequest) (path : Bytes) (e : Error) (b : MezonApi)
      → net.http.refuses request.url ≡ some e
      → post net.http request (read_exchange path target) b ≡ (b, err e)
  unfolding post
  post-refused request path e b bad = rw (bad, post) refl

  pub do_http_lem :
      (bearer path : Bytes) (b : MezonApi)
      → b.sent ≡ a.sent
      → b.base_path ≡ a.base_path
      → let r = do_http net.http bearer path body target b in ByHttp bearer path r ⊎ Refused path r
  unfolding do_http proto_request
  do_http_lem bearer path b same_log same_path =
      let request = proto_request (a.base_path ++ path) bearer body in
      let posted =
        ap
          (λ p. post net.http (proto_request (p ++ path) bearer body) (read_exchange path target) b)
          same_path in
      elim (Option-cases (net.http.refuses (a.base_path ++ path))) [
        | inl fine ↦
            let done = posted ∙ post-fine request path b fine in
            inl (ap (λ r. r.0.sent) done ∙ ap (λ l. request ∷ l) same_log, ap (λ r. r.1) done)
        | inr (e, bad) ↦
            let done = posted ∙ post-refused request path e b bad in
            inr (e, bad, ap (λ r. r.0.sent) done ∙ same_log, ap (λ r. r.1) done)
      ]
