-- ===== src/Client/Reconnect/Turns.antt =====
-- client.go, retryConnect: one turn of the loop, which fails or succeeds.
use mezon_sdk_go.Prelude.{
  ℕ, ◌≡◌, refl, sym, ap, subst, ◌∙◌, List, [], ◌∷◌, Option, none, some, Bool, true, false, arith,
  if◌then◌else◌,
}
use mezon_sdk_go.Errors.{Error}
use mezon_sdk_go.Socket.Lifecycle.{Life, act, connect}
use mezon_sdk_go.Client.Reconnect.{
  Attempt, Link, Happening, socket_acts, goroutine_runs, run_spawned, happen, next_delay,
  enter_retry, on_disconnect, leave_retry, note_closed, sleep_for, advance, react_to, dial_result,
  after_init, after_dial, try_connect, retry_loop,
}

-- Nobody closes the client, and the work after the dialling fails if it is reached.
pub record Failing (a : Attempt) : Type 0 where
  pub error : Error
  pub open_before : a.closed ≡ false
  pub open_asleep : a.closed_asleep ≡ false
  pub init_fails : a.init ≡ some error

-- Dialling and the work after it succeed, and the connection lasts meanwhile.
pub record Succeeding (a : Attempt) : Type 0 where
  pub open_before : a.closed ≡ false
  pub open_asleep : a.closed_asleep ≡ false
  pub dials : a.dialled ≡ none
  pub lasts : a.meanwhile ≡ []
  pub inits : a.init ≡ none

-- In the loop: what a turn that fails leaves as it is.
pub record InLoop (s : Link) : Type 0 where
  pub session : s.has_session ≡ true
  pub soft : s.hard_disconnect ≡ false
  pub busy : s.reconnecting ≡ true

pub record SameLoop (s t : Link) : Type 0 where
  pub in_loop : InLoop t
  pub same_running : t.running ≡ s.running
  pub same_slept : t.slept ≡ s.slept

advance-SameLoop : (life : Life) (s : Link) → InLoop s → SameLoop s (advance life s)
unfolding advance on_disconnect enter_retry
advance-SameLoop life s h = ground arith

pub happen-SameLoop : (x : Happening) (s : Link) → InLoop s → SameLoop s (happen x s)
unfolding happen run_spawned enter_retry
happen-SameLoop (socket_acts a) s h = advance-SameLoop (act a s.life) s h
happen-SameLoop goroutine_runs s h = ground arith

pub react_to-SameLoop : (xs : List Happening) (s : Link) → InLoop s → SameLoop s (react_to xs s)
unfolding react_to
react_to-SameLoop [] s h = ground arith
react_to-SameLoop (x ∷ rest) s h =
    let now = happen-SameLoop x s h in
    let later = react_to-SameLoop rest (happen x s) now.in_loop in
    record {
      in_loop = later.in_loop;
      same_running = later.same_running ∙ now.same_running;
      same_slept = later.same_slept ∙ now.same_slept;
    }

after_dial_failing :
    (a : Attempt) (o : Option Error) (s : Link) {e : Error}
    → a.init ≡ some e
    → InLoop s
    → ((after_dial a o s).1 ≡ false) × SameLoop s (after_dial a o s).0
unfolding after_dial after_init
after_dial_failing a (some x) s fails h = (refl, ground arith)
after_dial_failing a none s {e} fails h =
    let dialled : Link = record s { life = connect none s.life } in
    let start : InLoop dialled = record { session = h.session; soft = h.soft; busy = h.busy } in
    let later = react_to-SameLoop a.meanwhile dialled start in
    let kept : SameLoop s (react_to a.meanwhile dialled) = record {
      in_loop = later.in_loop;
      same_running = later.same_running;
      same_slept = later.same_slept;
    } in
    subst
      (λ o.
        ((after_init o (react_to a.meanwhile dialled)).1 ≡ false)
        × SameLoop s (after_init o (react_to a.meanwhile dialled)).0)
      (sym fails) (refl, kept)

-- The turn of the loop after its test.
abbrev pub turn : Attempt → ℕ → Link → Link × Bool
turn a delay s = try_connect a (note_closed a.closed_asleep (sleep_for delay s))

pub turn_lem :
    (a : Attempt) (delay : ℕ) (s : Link)
    → a.closed_asleep ≡ false
    → s.has_session ≡ true
    → turn a delay s ≡ after_dial a (dial_result a.dialled s.life) (sleep_for delay s)
unfolding try_connect note_closed sleep_for
turn_lem a delay s awake session =
    ap (λ b. try_connect a (note_closed b (sleep_for delay s))) awake
    ∙ ap
        (λ b.
          if b
          then after_dial a (dial_result a.dialled s.life) (sleep_for delay s)
          else (sleep_for delay s, true))
        session

pub Failing-turn :
    (a : Attempt) (delay : ℕ) (s : Link)
    → Failing a
    → InLoop s
    → ((turn a delay s).1 ≡ false) × SameLoop (sleep_for delay s) (turn a delay s).0
unfolding sleep_for
Failing-turn a delay s f h =
    let asleep = sleep_for delay s in
    let started : InLoop asleep = record { session = h.session; soft = h.soft; busy = h.busy } in
    subst (λ t. (t.1 ≡ false) × SameLoop asleep t.0)
      (sym (turn_lem a delay s f.open_asleep h.session))
      (after_dial_failing a (dial_result a.dialled s.life) asleep f.init_fails started)

-- The loop in a turn before which nobody closes the client.
pub retry_loop-turn :
    (a : Attempt) (rest : List Attempt) (delay : ℕ) (s : Link)
    → a.closed ≡ false
    → s.hard_disconnect ≡ false
    → retry_loop (a ∷ rest) delay s ≡ (
        if (turn a delay s).1
        then leave_retry (turn a delay s).0
        else retry_loop rest (next_delay delay) (turn a delay s).0)
unfolding retry_loop note_closed
retry_loop-turn a rest delay s before soft =
    ap
      (λ b.
        if (note_closed b s).hard_disconnect
        then leave_retry (note_closed b s)
        else (if (turn a delay (note_closed b s)).1
            then leave_retry (turn a delay (note_closed b s)).0
            else retry_loop rest (next_delay delay) (turn a delay (note_closed b s)).0))
      before
    ∙ ap
        (λ b.
          if b
          then leave_retry s
          else (if (turn a delay s).1
              then leave_retry (turn a delay s).0
              else retry_loop rest (next_delay delay) (turn a delay s).0))
        soft
