-- ===== src/Client/Reconnect/Spawned.antt =====
-- client.go, OnDisconnect: the goroutines that it starts, against the times it is called.
use mezon_sdk_go.Prelude.{
  ℕ, ◌+◌, ◌≤◌, ◌≡◌, refl, List, [], ◌∷◌, ◌++◌, Option, none, some, false, arith, Bytes, codes,
}
use mezon_sdk_go.Socket.Lifecycle.{
  Notice, down, dial_failed, heartbeat_lost, Life, Act, act_connect, act_close, act_read_failed,
  act_heartbeat_failed, act, connect, close, close_done, call_close_done, notify, publish,
  store_connected, swap_connected, mark_disconnected, heartbeat_failed,
}
use mezon_sdk_go.Client.Reconnect.{
  Link, Happening, socket_acts, goroutine_runs, happen, run_spawned, enter_retry, on_disconnect,
  advance, react_to, downs,
}
use mezon_sdk_go.Client.Reconnect.Turns.{InLoop, happen-SameLoop}

downs-append : (xs ys : List Notice) → downs (xs ++ ys) ≡ downs xs + downs ys
unfolding downs
downs-append [] ys = omega arith
downs-append (down done reason ∷ xs) ys = omega (arith, downs-append xs ys)
downs-append (dial_failed e ∷ xs) ys = downs-append xs ys
downs-append (heartbeat_lost ∷ xs) ys = downs-append xs ys

call_close_done-notices : (o : Option ℕ) (s : Life) → (call_close_done o s).notices ≡ s.notices
unfolding call_close_done
call_close_done-notices none s = refl
call_close_done-notices (some c) s = refl

mark_disconnected-downs :
    (done : ℕ) (reason : Bytes) (s : Life)
    → downs (mark_disconnected done reason s).notices ≤ downs s.notices + 1
unfolding mark_disconnected swap_connected notify store_connected downs
mark_disconnected-downs done reason s = ground (
  arith,
  downs-append s.notices (down done reason ∷ []),
  call_close_done-notices (close_done s) (record s { connected = false }),
)

-- One call reports one connection at most.
act-downs : (a : Act) (s : Life) → downs (act a s).notices ≤ downs s.notices + 1
unfolding act connect close heartbeat_failed notify store_connected publish downs
act-downs (act_connect (some e)) s = ground (arith, downs-append s.notices (dial_failed e ∷ []))
act-downs (act_connect none) s = ground arith
act-downs act_close s =
    let off : Life = record s { connected = false } in
    ground (arith, call_close_done-notices (close_done off) off)
act-downs (act_read_failed done reason) s = mark_disconnected-downs done reason s
act-downs (act_heartbeat_failed done reason) s = ground (
  arith,
  downs-append s.notices (heartbeat_lost ∷ []),
  mark_disconnected-downs done (codes "heartbeat timeout: " ++ reason) (notify heartbeat_lost s),
)

-- How often a goroutine gets to run.
abbrev pub runs_in : List Happening → ℕ
runs_in [] = 0
runs_in (socket_acts a ∷ xs) = runs_in xs
runs_in (goroutine_runs ∷ xs) = runs_in xs + 1

happen-spawned :
    (x : Happening) (s : Link)
    → InLoop s
    → let t = happen x s in
      s.spawned + downs t.life.notices ≤ t.spawned + runs_in (x ∷ []) + downs s.life.notices
unfolding happen advance on_disconnect run_spawned enter_retry
happen-spawned (socket_acts a) s h = ground (arith, act-downs a s.life, h.soft)
happen-spawned goroutine_runs s h = ground (arith, h.soft, h.busy)

runs_in-cons :
    (x : Happening) (xs : List Happening) → runs_in (x ∷ xs) ≡ runs_in (x ∷ []) + runs_in xs
runs_in-cons (socket_acts a) xs = omega arith
runs_in-cons goroutine_runs xs = omega arith

-- In the loop, a goroutine is left for every call of OnDisconnect that no run has taken up.
pub react_to-spawned :
    (xs : List Happening) (s : Link)
    → InLoop s
    → let t = react_to xs s in
      s.spawned + downs t.life.notices ≤ t.spawned + runs_in xs + downs s.life.notices
unfolding react_to
react_to-spawned [] s h = omega arith
react_to-spawned (x ∷ xs) s h = omega (
  arith,
  runs_in-cons x xs,
  happen-spawned x s h,
  react_to-spawned xs (happen x s) (happen-SameLoop x s h).in_loop,
)

pub connect-downs : (s : Life) → downs (connect none s).notices ≡ downs s.notices
unfolding connect publish store_connected
connect-downs s = ground arith
