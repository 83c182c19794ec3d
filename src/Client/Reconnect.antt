-- ===== src/Client/Reconnect.antt =====
-- client.go: retryConnect, OnDisconnect, Login's first steps and Close. A delay is in milliseconds.
-- The life cycle of the socket is that of Socket/Lifecycle.
pub mod Turns
pub mod Backoff
pub mod Spawned
pub mod Lost
use mezon_sdk_go.Prelude.{
  ℕ, zero, suc, ◌+◌, ◌-◌, ◌*◌, List, [], ◌∷◌, ◌++◌, Option, none, some, Bool, true, false, not, ltb,
  ◌||◌, if◌then◌else◌, Bytes,
}
use mezon_sdk_go.Errors.{Error, Result, ok, err}
use mezon_sdk_go.Socket.Lifecycle.{
  Notice, down, dial_failed, heartbeat_lost, Life, Act, connect, close, act,
}

-- What happens to the connection: a call on the socket, or a goroutine that OnDisconnect has
-- started gets to run.
pub data Happening : Type 0 where
  socket_acts : Act → Happening
  goroutine_runs : Happening

-- What one turn of the loop meets: whether Close is called before it, or while it sleeps, what
-- dialling gives, what else happens to the connection until postConnectInit returns, and what that
-- returns.
pub record Attempt : Type 0 where
  pub closed : Bool
  pub closed_asleep : Bool
  pub dialled : Option Error
  pub meanwhile : List Happening
  pub init : Option Error

-- `spawned` counts the goroutines that OnDisconnect has started and that have not run.
-- `running` counts the goroutines that are in retryConnect's loop, and `slept` has their delays,
-- the last first.
pub record Link : Type 0 where
  pub life : Life
  pub has_session : Bool
  pub hard_disconnect : Bool
  pub reconnecting : Bool
  pub spawned : ℕ
  pub running : ℕ
  pub slept : List ℕ

abbrev pub first_delay : ℕ
first_delay = 5000

abbrev pub max_delay : ℕ
max_delay = 60000

unfoldable pub next_delay : ℕ → ℕ
next_delay delay = if ltb max_delay (delay * 2) then max_delay else delay * 2

-- The entry of retryConnect: one loop at most.
unfoldable pub enter_retry : Link → Link
enter_retry s =
    if s.reconnecting || s.hard_disconnect
    then s
    else record s { reconnecting = true; running = suc s.running }

-- The callback of the socket: `go c.retryConnect()`.
unfoldable pub on_disconnect : Link → Link
on_disconnect s = if s.hard_disconnect then s else record s { spawned = suc s.spawned }

-- A started goroutine runs into retryConnect.
unfoldable pub run_spawned : Link → Link
run_spawned s = if ltb 0 s.spawned then enter_retry (record s { spawned = s.spawned - 1 }) else s

-- After the loop: the goroutine ends.
unfoldable pub leave_retry : Link → Link
leave_retry s = record s { reconnecting = false; running = s.running - 1 }

unfoldable pub close_client : Link → Link
close_client s = record s { hard_disconnect = true; life = close s.life }

unfoldable pub note_closed : Bool → Link → Link
note_closed true s = close_client s
note_closed false s = s

unfoldable pub sleep_for : ℕ → Link → Link
sleep_for delay s = record s { slept = delay ∷ s.slept }

unfoldable pub downs : List Notice → ℕ
downs [] = 0
downs (down done reason ∷ notices) = suc (downs notices)
downs (dial_failed e ∷ notices) = downs notices
downs (heartbeat_lost ∷ notices) = downs notices

-- The life moves on; where that calls OnDisconnect, the client reacts.
unfoldable pub advance : Life → Link → Link
advance life s =
    let after : Link = record s { life = life } in
    if ltb (downs s.life.notices) (downs life.notices) then on_disconnect after else after

unfoldable pub happen : Happening → Link → Link
happen (socket_acts a) s = advance (act a s.life) s
happen goroutine_runs s = run_spawned s

unfoldable pub react_to : List Happening → Link → Link
react_to [] s = s
react_to (h ∷ rest) s = react_to rest (happen h s)

-- Connect dials only if the socket is not connected.
unfoldable pub dial_result : Option Error → Life → Option Error
dial_result dialled life = if life.connected then none else dialled

-- The rest of a turn after a dial that succeeded.
unfoldable pub after_init : Option Error → Link → Link × Bool
after_init none s = (s, true)
after_init (some e) s = (s, false)

-- The rest of a turn after the sleep: whether the loop is done.
unfoldable pub after_dial : Attempt → Option Error → Link → Link × Bool
after_dial a (some e) s = (record s { life = connect (some e) s.life }, false)
after_dial a none s =
    after_init a.init (react_to a.meanwhile (record s { life = connect none s.life }))

unfoldable pub try_connect : Attempt → Link → Link × Bool
try_connect a s = if s.has_session then after_dial a (dial_result a.dialled s.life) s else (s, true)

-- The loop of retryConnect over the turns to come; with no turn left it is still running.
unfoldable pub retry_loop : List Attempt → ℕ → Link → Link
retry_loop [] delay s = s
retry_loop (a ∷ rest) delay s =
    let s' = note_closed a.closed s in
    let tried = try_connect a (note_closed a.closed_asleep (sleep_for delay s')) in
    let later = retry_loop rest (next_delay delay) tried.0 in
    if s'.hard_disconnect then leave_retry s' else (if tried.1 then leave_retry tried.0 else later)
