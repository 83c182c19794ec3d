-- ===== src/Client/Login/Started.antt =====
-- client.go, NewMezonClient and Login: the client that a login leaves.
use mezon_sdk_go.Prelude.{
  ◌≡◌, refl, subst, [], ◌∷◌, Option, none, some, Bool, true, Bytes, lookup, bytes_eq, nat_eq,
}
use mezon_sdk_go.Errors.{Error, Result, ok, err}
use mezon_sdk_go.Cache.{get, new_cache_manager}
use mezon_sdk_go.Session.{Session}
use mezon_sdk_go.Rest.{attach_socket}
use mezon_sdk_go.Client.{Client, Setting}
use mezon_sdk_go.Client.Wiring.{IsWired}
use mezon_sdk_go.Client.Fetched.{with_api-IsWired}
use mezon_sdk_go.Client.Connect.Joins.{post_connect_init-IsWired}
use mezon_sdk_go.Client.Login.{
  ClientConfig, Profile, ApiSession, Surroundings, started_client, with_bot_token, with_bot_id,
  new_mezon_client, init_managers, new_sender, connected_with, login_as, login, session_of,
  authenticated, located,
}

module _ {S : Type 0} where
  started_client-IsWired : (cfg : ClientConfig) (l2 : S) → IsWired (started_client cfg l2)
  unfolding started_client get lookup new_cache_manager
  started_client-IsWired cfg l2 = record {
    clans = λ id p h. absurd (cc);
    channels = λ id q h. absurd (cc);
    clan_channels = λ p clan id q there h. absurd (cc);
    homes = λ q ch h. absurd (cc);
    fresh = λ p h. (refl, refl);
  }

  with_bot_token-IsWired :
      (cfg : ClientConfig) (token : Bytes) (l2 : S) (start : Profile × Client S)
      → with_bot_token cfg token l2 ≡ ok start
      → IsWired start.1
  unfolding with_bot_token
  with_bot_token-IsWired cfg [] l2 start h = absurd (cc)
  with_bot_token-IsWired cfg (b ∷ token) l2 start h =
      let same : started_client cfg l2 ≡ start.1 = cc in
      subst IsWired same (started_client-IsWired cfg l2)

  with_bot_id-IsWired :
      (cfg : ClientConfig) (id : Bytes) (l2 : S) (start : Profile × Client S)
      → with_bot_id cfg id l2 ≡ ok start
      → IsWired start.1
  unfolding with_bot_id
  with_bot_id-IsWired cfg [] l2 start h = absurd (cc)
  with_bot_id-IsWired cfg (b ∷ id) l2 start h = with_bot_token-IsWired cfg cfg.token l2 start h

  init_managers-IsWired :
      (native_ping : Bool) (token base_path : Bytes) (p : Profile) (c : Client S)
      → IsWired c
      → IsWired (init_managers native_ping token base_path p c)
  unfolding init_managers
  init_managers-IsWired native_ping token base_path p c w = record {
    clans = w.clans;
    channels = w.channels;
    clan_channels = w.clan_channels;
    homes = w.homes;
    fresh = w.fresh;
  }

module _ {S V : Type 0} (env : Setting S) (w : Surroundings V) where
  connected_with_lem :
      (dialled : Option Error) (token : Bytes) (c : Client S)
      → IsWired c
      → let r = connected_with env w dialled token c in IsWired r.0 × (r.1 ≡ none → dialled ≡ none)
  unfolding connected_with
  connected_with_lem (some e) token c wired = (wired, λ h. absurd (cc))
  connected_with_lem none token c wired = (
    post_connect_init-IsWired env w.clan_target w.net w.visit w.dm_net token
        (record c {
          api = attach_socket (record (new_sender w.native_ping) { connected = true }) c.api;
        })
        (with_api-IsWired
          (attach_socket (record (new_sender w.native_ping) { connected = true }) c.api) c wired),
    λ h. refl,
  )

  -- The session came from an authentication whose token is not empty and can be decoded, and the
  -- socket was dialled.
  abbrev pub LoggedIn : Result (ApiSession × Session V) → Type 0
  LoggedIn r = ((a : ApiSession) × (s : Session V) × (r ≡ ok (a, s))) × (w.dialled ≡ none)

  login_as_lem :
      (r : Result (ApiSession × Session V)) (p : Profile) (c : Client S)
      → IsWired c
      → let l = login_as env w r p c in IsWired l.1.0 × (l.1.1 ≡ none → LoggedIn r)
  unfolding login_as
  login_as_lem (err e) p c wired = (wired, λ h. absurd (cc))
  login_as_lem (ok (a, s)) p c wired =
      let at = located w.parse_url a.api_url p in
      let c' = init_managers w.native_ping s.token at.1 at.0 c in
      let after =
        connected_with_lem w.dialled s.token c'
          (init_managers-IsWired w.native_ping s.token at.1 at.0 c wired) in
      (after.0, λ h. ((a, s, refl), after.1 h))

  -- NewMezonClient, when it accepts the configuration, and then Login: whether Login fails or not,
  -- the caches of clans and channels are wired to the objects. It returns no error only after an
  -- authentication whose session can be read, and with the socket dialled.
  pub login-IsWired :
      (cfg : ClientConfig) (l2 : S) (start : Profile × Client S)
      → new_mezon_client cfg l2 ≡ ok start
      → let r = login env w start.0 start.1 in
        IsWired r.1.0
        × (r.1.1 ≡ none
            → LoggedIn (session_of w.decoders w.now (authenticated env w start.0 start.1)))
  unfolding new_mezon_client login
  login-IsWired cfg l2 start h =
      login_as_lem (session_of w.decoders w.now (authenticated env w start.0 start.1)) start.0
        start.1 (with_bot_id-IsWired cfg cfg.bot_id l2 start h)
