-- ===== src/Tests/Logins.antt =====
-- client.go: a login on a small input.
use mezon_sdk_go.Prelude.{ℕ, pos, ◌≡◌, refl, [], none, true, codes}
use mezon_sdk_go.Errors.{ok, err, err_send_timeout}
use mezon_sdk_go.Session.{Decoders}
use mezon_sdk_go.Client.Wiring.{IsWired}
use mezon_sdk_go.Client.Login.{
  ClientConfig, ApiSession, Surroundings, Profile, profile_of, started_client, new_mezon_client,
  with_bot_id, with_bot_token, session_of, authenticated, login, positive_or, default_to,
  ssl_or_default, base_path_of,
}
use mezon_sdk_go.Rest.{is_positive}
use mezon_sdk_go.Client.Login.Started.{LoggedIn, login-IsWired}
use mezon_sdk_go.Client.{Client}
use mezon_sdk_go.Tests.Clients.{Memory, setting, answering}
use mezon_sdk_go.Tests.Stores.{clan_target, a_visit}

abbrev config : ClientConfig
config = record {
  bot_id = codes "7";
  token = codes "secret";
  host = [];
  port = [];
  use_ssl = none;
  timeout = pos 0;
  cache_ttl = pos 0;
  max_users_cache = pos 0;
  max_channels_cache = pos 100;
}

abbrev an_api_session : ApiSession
an_api_session = record {
  token = codes "h.b.s";
  refresh_token = [];
  user_id = pos 7;
  api_url = codes "https://api";
  id_token = [];
  ws_url = [];
  tcp_url = [];
}

abbrev decoders : Decoders ℕ
decoders = record {
  raw_url = λ b. ok b;
  std = λ b. err err_send_timeout;
  claims = λ b. ok (record { exp = codes "900"; vrs = 1 });
  no_vars = 0;
}

abbrev around : Surroundings ℕ
around = record {
  http = answering.http;
  encode = λ b. b;
  to_json = λ id token. ok (codes "{}");
  unmarshal = λ b. ok an_api_session;
  decoders = decoders;
  now = pos 100;
  parse_url = λ url. ok (record { host = codes "api"; port = codes "443"; use_ssl = true });
  native_ping = true;
  dialled = none;
  clan_target = clan_target;
  net = answering;
  visit = a_visit;
  dm_net = answering;
}

defaults_test :
    ((profile_of config).login_base_path ≡ codes "https://gw.mezon.ai:443")
    × ((profile_of config).timeout ≡ pos 7000)
unfolding profile_of positive_or default_to ssl_or_default base_path_of is_positive
defaults_test = (refl, refl)

abbrev start : Profile × Client Memory
start = (profile_of config, started_client config [])

accepted : new_mezon_client config [] ≡ ok start
unfolding new_mezon_client with_bot_id with_bot_token
accepted = refl

login-IsWired_example :
    let r = login setting around start.0 start.1 in
    IsWired r.1.0
    × (r.1.1 ≡ none
        → LoggedIn setting around
            (session_of decoders (pos 100) (authenticated setting around start.0 start.1)))
login-IsWired_example = login-IsWired setting around config [] start accepted
