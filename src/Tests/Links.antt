-- ===== src/Tests/Links.antt =====
-- client.go's retryConnect on small inputs.
use mezon_sdk_go.Prelude.{◌≡◌, refl, [], ◌∷◌, none, some, true, false, codes}
use mezon_sdk_go.Errors.{err_send_timeout}
use mezon_sdk_go.Socket.Lifecycle.{
  Life, act_read_failed, act, connect, publish, store_connected, mark_disconnected, swap_connected,
  close_done, call_close_done, notify,
}
use mezon_sdk_go.Client.Reconnect.{
  Attempt, Link, socket_acts, goroutine_runs, react_to, happen, run_spawned, advance, on_disconnect,
  enter_retry, downs, retry_loop,
}
use mezon_sdk_go.Client.Reconnect.Turns.{Failing, Succeeding}
use mezon_sdk_go.Client.Reconnect.Backoff.{Ends, retry_loop-Ends}
use mezon_sdk_go.Client.Reconnect.Lost.{After, retry_loop-lost, retry_loop-closed_asleep}

abbrev broken_life : Life
broken_life = record {
  has_close_done = true;
  connected = false;
  done = 1;
  closed = 1 ∷ [];
  fresh = 2;
  notices = [];
}

abbrev broken : Link
broken = record {
  life = broken_life;
  has_session = true;
  hard_disconnect = false;
  reconnecting = true;
  spawned = 0;
  running = 1;
  slept = [];
}

abbrev good_attempt : Attempt
good_attempt = record {
  closed = false;
  closed_asleep = false;
  dialled = none;
  meanwhile = [];
  init = none;
}

abbrev bad_attempt : Attempt
bad_attempt = record good_attempt { dialled = some err_send_timeout; init = some err_send_timeout }

bad_attempt_lem : Failing bad_attempt
bad_attempt_lem = record {
  error = err_send_timeout;
  open_before = refl;
  open_asleep = refl;
  init_fails = refl;
}

good_attempt_lem : Succeeding good_attempt
good_attempt_lem = record {
  open_before = refl;
  open_asleep = refl;
  dials = refl;
  lasts = refl;
  inits = refl;
}

retry_loop-Ends_example :
    Ends 2 0 broken (retry_loop (bad_attempt ∷ bad_attempt ∷ good_attempt ∷ []) 5000 broken)
retry_loop-Ends_example =
    retry_loop-Ends (bad_attempt ∷ bad_attempt ∷ []) good_attempt [] broken
      (bad_attempt_lem, (bad_attempt_lem, tt)) good_attempt_lem refl refl refl

-- The connection is lost, and the goroutine of OnDisconnect runs.
abbrev dropped : Attempt
dropped = record good_attempt {
  meanwhile = socket_acts (act_read_failed 2 (codes "EOF")) ∷ goroutine_runs ∷ [];
}

abbrev after_drop : Link
after_drop =
    react_to dropped.meanwhile
      (record broken { life = connect none broken_life; slept = 5000 ∷ [] })

after_drop_lem : (after_drop.life.connected ≡ false) × (after_drop.spawned ≡ 0)
unfolding react_to happen run_spawned advance on_disconnect enter_retry act connect publish
    store_connected mark_disconnected swap_connected close_done call_close_done notify downs
after_drop_lem = (refl, refl)

retry_loop-lost_example :
    After broken after_drop dropped.meanwhile (retry_loop (dropped ∷ good_attempt ∷ []) 5000 broken)
retry_loop-lost_example =
    retry_loop-lost dropped (good_attempt ∷ []) 5000 broken refl refl refl refl refl refl refl refl
      after_drop_lem.0

retry_loop-closed_asleep_example :
    let r = retry_loop (record good_attempt { closed_asleep = true } ∷ []) 5000 broken in
    (r.life.connected ≡ true) × (r.hard_disconnect ≡ true) × (r.running ≡ 0)
retry_loop-closed_asleep_example =
    retry_loop-closed_asleep (record good_attempt { closed_asleep = true }) [] 5000 broken refl refl
      refl refl refl refl refl
