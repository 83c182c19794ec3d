-- ===== src/Client/Login.antt =====
-- client.go: NewMezonClient with its defaults, initManagers and Login. What only the socket's
-- addresses and its transport need is left out of the configuration.
pub mod Started
use mezon_sdk_go.Prelude.{
  ℕ, ℤ, pos, List, [], ◌∷◌, ◌++◌, Option, none, some, Bool, true, false, if◌then◌else◌, Bytes,
  codes,
}
use mezon_sdk_go.Errors.{Error, err_text, Result, ok, err}
use mezon_sdk_go.Types.{itoa_id}
use mezon_sdk_go.Cache.{new_cache_manager}
use mezon_sdk_go.Session.{Session, Decoders, new_session}
use mezon_sdk_go.Socket.Sending.{Sender}
use mezon_sdk_go.Rest.{Http, Target, is_positive, new_mezon_api, attach_socket}
use mezon_sdk_go.Rest.Call.{Net}
use mezon_sdk_go.Rest.Direct.{mezon_authenticate}
use mezon_sdk_go.Client.{Client, Setting}
use mezon_sdk_go.Client.Connect.{ClanDesc, Visit, post_connect_init}

pub record ClientConfig : Type 0 where
  pub bot_id : Bytes
  pub token : Bytes
  pub host : Bytes
  pub port : Bytes
  pub use_ssl : Option Bool
  pub timeout : ℤ
  pub cache_ttl : ℤ
  pub max_users_cache : ℤ
  pub max_channels_cache : ℤ

-- The fields of MezonClient that the configuration fills.
pub record Profile : Type 0 where
  pub token : Bytes
  pub host : Bytes
  pub port : Bytes
  pub use_ssl : Bool
  pub timeout : ℤ
  pub login_base_path : Bytes
  pub cache_ttl : ℤ

-- api.Session
pub record ApiSession : Type 0 where
  pub token : Bytes
  pub refresh_token : Bytes
  pub user_id : ℤ
  pub api_url : Bytes
  pub id_token : Bytes
  pub ws_url : Bytes
  pub tcp_url : Bytes

-- The result of ParseURLToHostAndSSL.
pub record Location : Type 0 where
  pub host : Bytes
  pub port : Bytes
  pub use_ssl : Bool

-- What a login meets: the HTTP exchange, the codecs and the clock, the URL library, the dialling,
-- and the networks of postConnectInit.
pub record Surroundings (V : Type 0) : Type 0 where
  pub http : Http
  pub encode : Bytes → Bytes
  pub to_json : Bytes → Bytes → Result Bytes
  pub unmarshal : Bytes → Result ApiSession
  pub decoders : Decoders V
  pub now : ℤ
  pub parse_url : Bytes → Result Location
  pub native_ping : Bool
  pub dialled : Option Error
  pub clan_target : Target (List ClanDesc)
  pub net : Net
  pub visit : ℕ → Bytes → Visit
  pub dm_net : Net

unfoldable pub default_to : Bytes → Bytes → Bytes
default_to fallback [] = fallback
default_to fallback (b ∷ bs) = b ∷ bs

unfoldable pub positive_or : ℤ → ℤ → ℤ
positive_or fallback n = if is_positive n then n else fallback

unfoldable pub ssl_or_default : Option Bool → Bool
ssl_or_default none = true
ssl_or_default (some use_ssl) = use_ssl

unfoldable pub base_path_of : Bool → Bytes → Bytes → Bytes
base_path_of true host port = codes "https://" ++ (host ++ (codes ":" ++ port))
base_path_of false host port = codes "http://" ++ (host ++ (codes ":" ++ port))

-- Durations are in milliseconds.
unfoldable pub profile_of : ClientConfig → Profile
profile_of cfg =
    let host = default_to (codes "gw.mezon.ai") cfg.host in
    let port = default_to (codes "443") cfg.port in
    let use_ssl = ssl_or_default cfg.use_ssl in
    record {
      token = cfg.token;
      host = host;
      port = port;
      use_ssl = use_ssl;
      timeout = positive_or (pos 7000) cfg.timeout;
      login_base_path = base_path_of use_ssl host port;
      cache_ttl = positive_or (pos 300000) cfg.cache_ttl;
    }

unfoldable pub new_sender : Bool → Sender
new_sender native_ping = record {
  connected = false;
  next_cid = 1;
  cids = [];
  native_ping = native_ping;
  written = [];
}

unfoldable pub with_tcp_url : {V : Type 0} → Bytes → Result (Session V) → Result (Session V)
with_tcp_url url (err e) = err e
with_tcp_url url (ok s) = ok (record s { tcp_url = url })

unfoldable pub session_of :
    {V : Type 0} → Decoders V → ℤ → Result ApiSession → Result (ApiSession × Session V)
session_of d now (err e) = err e
session_of d now (ok a) = elim a.token [
  | [] ↦ err (err_text (codes "authenticate returned empty session"))
  | b ∷ token ↦
      elim (with_tcp_url a.tcp_url (
        new_session d now (b ∷ token) a.refresh_token (itoa_id a.user_id) a.api_url a.id_token
          a.ws_url)) [ err e ↦ err e | ok s ↦ ok (a, s) ]
]

-- The base path of the API: the session's own address, where it has one that can be read.
unfoldable pub relocated : Profile → Result Location → Profile × Bytes
relocated p (err e) = (p, p.login_base_path)
relocated p (ok l) = (
  record p { host = l.host; port = l.port; use_ssl = l.use_ssl },
  base_path_of l.use_ssl l.host l.port,
)

unfoldable pub located : (Bytes → Result Location) → Bytes → Profile → Profile × Bytes
located parse_url [] p = (p, p.login_base_path)
located parse_url (b ∷ url) p = relocated p (parse_url (b ∷ url))

module _ {S : Type 0} where
  -- Until Login there is no REST client: the one that is here has not been used.
  unfoldable pub started_client : ClientConfig → S → Client S
  started_client cfg l2 =
      let p = profile_of cfg in
      record {
        client_id = cfg.bot_id;
        api = new_mezon_api p.token p.login_base_path p.timeout;
        session = none;
        clans = new_cache_manager (pos 0);
        channels = new_cache_manager (positive_or (pos 5000) cfg.max_channels_cache);
        users = new_cache_manager (positive_or (pos 5000) cfg.max_users_cache);
        clan_heap = [];
        channel_heap = [];
        user_heap = [];
        message_heap = [];
        fresh = 0;
        dm_by_user = [];
        dm_descs = [];
        l2 = l2;
      }

  unfoldable pub with_bot_token : ClientConfig → Bytes → S → Result (Profile × Client S)
  with_bot_token cfg [] l2 = err (err_text (codes "token is required"))
  with_bot_token cfg (b ∷ token) l2 = ok (profile_of cfg, started_client cfg l2)

  unfoldable pub with_bot_id : ClientConfig → Bytes → S → Result (Profile × Client S)
  with_bot_id cfg [] l2 = err (err_text (codes "botId is required"))
  with_bot_id cfg (b ∷ id) l2 = with_bot_token cfg cfg.token l2

  unfoldable pub new_mezon_client : ClientConfig → S → Result (Profile × Client S)
  new_mezon_client cfg l2 = with_bot_id cfg cfg.bot_id l2

  -- A new REST client with a new socket, and a new channel manager.
  unfoldable pub init_managers : Bool → Bytes → Bytes → Profile → Client S → Client S
  init_managers native_ping token base_path p c = record c {
    session = some token;
    api = attach_socket (new_sender native_ping) (new_mezon_api p.token base_path p.timeout);
    dm_by_user = [];
    dm_descs = [];
  }

module _ {S V : Type 0} (env : Setting S) (w : Surroundings V) where
  unfoldable pub authenticated : Profile → Client S → Result ApiSession
  authenticated p c =
      (mezon_authenticate w.http w.encode w.unmarshal w.to_json c.client_id p.token
        (new_mezon_api p.token p.login_base_path p.timeout)).1

  -- c.socket.Connect, then postConnectInit.
  unfoldable pub connected_with : Option Error → Bytes → Client S → Client S × Option Error
  connected_with (some e) token c = (c, some e)
  connected_with none token c =
      post_connect_init env w.clan_target w.net w.visit w.dm_net token (record c {
        api = attach_socket (record (new_sender w.native_ping) { connected = true }) c.api;
      })

  -- Without an error, EventReady is emitted.
  unfoldable pub login_as :
      Result (ApiSession × Session V) → Profile → Client S → Profile × (Client S × Option Error)
  login_as (err e) p c = (p, (c, some e))
  login_as (ok (a, s)) p c =
      let at = located w.parse_url a.api_url p in
      (at.0, connected_with w.dialled s.token (init_managers w.native_ping s.token at.1 at.0 c))

  unfoldable pub login : Profile → Client S → Profile × (Client S × Option Error)
  login p c = login_as (session_of w.decoders w.now (authenticated p c)) p c
