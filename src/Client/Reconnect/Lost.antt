-- ===== src/Client/Reconnect/Lost.antt =====
-- client.go: the ends of the loop of retryConnect after a Close or a lost connection.
use mezon_sdk_go.Prelude.{
  ℕ, ◌+◌, ◌-◌, ◌≤◌, ltb, ◌≡◌, refl, ap, sym, subst, ◌∙◌, if◌then◌else◌, List, [], ◌∷◌, none, true,
  false, arith,
}
use mezon_sdk_go.Socket.Lifecycle.{
  connect, close, close_done, call_close_done, store_connected, publish,
}
use mezon_sdk_go.Client.Reconnect.{
  Happening, run_spawned, enter_retry, Attempt, Link, leave_retry, close_client, note_closed,
  sleep_for, downs, react_to, dial_result, after_init, after_dial, try_connect, retry_loop,
  next_delay,
}
use mezon_sdk_go.Client.Reconnect.Spawned.{runs_in, react_to-spawned, connect-downs}
use mezon_sdk_go.Client.Reconnect.Turns.{InLoop, turn, turn_lem, retry_loop-turn, react_to-SameLoop}
use mezon_sdk_go.Client.Reconnect.Backoff.{dial_result-none}

-- Close while the loop sleeps does not stop the turn: when dialling and the work after it succeed,
-- the loop ends with the socket connected again, although Close was called.
pub retry_loop-closed_asleep :
    (a : Attempt) (rest : List Attempt) (delay : ℕ) (s : Link)
    → s.has_session ≡ true
    → s.hard_disconnect ≡ false
    → a.closed ≡ false
    → a.closed_asleep ≡ true
    → a.dialled ≡ none
    → a.meanwhile ≡ []
    → a.init ≡ none
    → let r = retry_loop (a ∷ rest) delay s in
      (r.life.connected ≡ true) × (r.hard_disconnect ≡ true) × (r.running ≡ s.running - 1)
unfolding retry_loop note_closed sleep_for close_client try_connect dial_result after_dial
    after_init react_to leave_retry connect close close_done call_close_done store_connected publish
retry_loop-closed_asleep a rest delay s hs hd hc ha hdial hm hi = ground arith

-- What is left after the loop of the turn that began in `s` and whose work ended in `m`.
abbrev pub After : Link → Link → List Happening → Link → Type 0
After s m meanwhile r =
    (r.life.connected ≡ false)
    × (r.life ≡ m.life)
    × (r.hard_disconnect ≡ false)
    × (r.reconnecting ≡ false)
    × (r.running ≡ 0)
    × ((run_spawned r).running ≡ (if ltb 0 r.spawned then 1 else 0))
    × (r.spawned ≡ m.spawned)
    × (s.spawned + downs r.life.notices ≤ r.spawned + runs_in meanwhile + downs s.life.notices)

-- Where the connection is down by the time that the work after its dialling ends without an error,
-- the loop ends all the same and leaves the client disconnected, without being closed, and with no
-- loop. A loop starts again just when a goroutine is left that OnDisconnect has started and that
-- has not run: every call of OnDisconnect in the turn leaves one, less those that have run before
-- the loop ended, which found it still running and did nothing. When all have, nothing reconnects.
pub retry_loop-lost :
    (a : Attempt) (rest : List Attempt) (delay : ℕ) (s : Link)
    → s.has_session ≡ true
    → s.hard_disconnect ≡ false
    → s.reconnecting ≡ true
    → s.running ≡ 1
    → a.closed ≡ false
    → a.closed_asleep ≡ false
    → a.dialled ≡ none
    → a.init ≡ none
    → let dialled : Link = record s { life = connect none s.life; slept = delay ∷ s.slept } in
      let m = react_to a.meanwhile dialled in
      m.life.connected ≡ false → let r = retry_loop (a ∷ rest) delay s in After s m a.meanwhile r
unfolding after_dial after_init sleep_for leave_retry run_spawned enter_retry
retry_loop-lost a rest delay s session soft busy one before asleep dials inits off =
    let start : Link = record s { life = connect none s.life; slept = delay ∷ s.slept } in
    let m = react_to a.meanwhile start in
    let started : InLoop start = record { session = session; soft = soft; busy = busy } in
    let kept = react_to-SameLoop a.meanwhile start started in
    let turned : turn a delay s ≡ (m, true) =
      turn_lem a delay s asleep session
      ∙ ap (λ o. after_dial a (dial_result o s.life) (sleep_for delay s)) dials
      ∙ ap (λ o. after_dial a o (sleep_for delay s)) (dial_result-none s.life)
      ∙ ap (λ o. after_init o m) inits in
    let e : retry_loop (a ∷ rest) delay s ≡ leave_retry m =
      retry_loop-turn a rest delay s before soft
      ∙ ap (λ t. if t.1 then leave_retry t.0 else retry_loop rest (next_delay delay) t.0) turned in
    let still = kept.in_loop.soft in
    let none_left : m.running - 1 ≡ 0 = omega (arith, kept.same_running, one) in
    subst (After s m a.meanwhile) (sym e) (
      off,
      refl,
      still,
      refl,
      none_left,
      ground (arith, still, none_left),
      refl,
      omega (arith, react_to-spawned a.meanwhile start started, connect-downs s.life),
    )
