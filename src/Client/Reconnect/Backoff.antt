-- ===== src/Client/Reconnect/Backoff.antt =====
-- client.go, retryConnect: the loop ends with the first attempt that succeeds, and how long it
-- sleeps.
use mezon_sdk_go.Prelude.{
  ℕ, zero, suc, ◌-◌, ◌*◌, ◌^◌, ◌≡◌, ap, ◌∙◌, List, [], ◌∷◌, ◌++◌, none, true, false, arith, min,
  if◌then◌else◌, length, All,
}
use mezon_sdk_go.Socket.Lifecycle.{Life, connect, store_connected}
use mezon_sdk_go.Client.Reconnect.{
  Attempt, Link, first_delay, max_delay, next_delay, leave_retry, sleep_for, react_to, dial_result,
  after_init, after_dial, retry_loop,
}
use mezon_sdk_go.Client.Reconnect.Turns.{
  Failing, Succeeding, InLoop, turn, turn_lem, Failing-turn, retry_loop-turn,
}

-- The delay before the attempt number `n`.
abbrev pub delay_at : ℕ → ℕ
delay_at n = min (first_delay * 2 ^ n) max_delay

-- The delays before the attempts from number `n` on, the last first, onto older ones.
abbrev pub slept_from : ℕ → ℕ → List ℕ → List ℕ
slept_from zero n slept = slept
slept_from (suc count) n slept = slept_from count (suc n) (delay_at n ∷ slept)

double : (n : ℕ) → 2 ^ suc n ≡ 2 ^ n * 2
double n = omega arith

next_delay-delay_at : (n : ℕ) → next_delay (delay_at n) ≡ delay_at (suc n)
unfolding next_delay
next_delay-delay_at n = ground (arith, double n)

pub dial_result-none : (life : Life) → dial_result none life ≡ none
unfolding dial_result
dial_result-none life = ground arith

connect-none : (life : Life) → (connect none life).connected ≡ true
unfolding connect store_connected
connect-none life = ground arith

good_turn :
    (a : Attempt) (delay : ℕ) (s : Link)
    → Succeeding a
    → s.has_session ≡ true
    → turn a delay s ≡ (record s { life = connect none s.life; slept = delay ∷ s.slept }, true)
unfolding sleep_for after_dial after_init react_to
good_turn a delay s g session =
    let asleep = sleep_for delay s in
    let dialled : Link = record asleep { life = connect none s.life } in
    turn_lem a delay s g.open_asleep session
    ∙ ap (λ o. after_dial a (dial_result o s.life) asleep) g.dials
    ∙ ap (λ o. after_dial a o asleep) (dial_result-none s.life)
    ∙ ap (λ acts. after_init a.init (react_to acts dialled)) g.lasts
    ∙ ap (λ o. after_init o dialled) g.inits

-- The loop has ended after `count` failed attempts from number `n` on: `r` is connected, `s` was
-- the state before.
abbrev pub Ends : ℕ → ℕ → Link → Link → Type 0
Ends count n s r =
    (r.life.connected ≡ true)
    × (r.reconnecting ≡ false)
    × (r.running ≡ s.running - 1)
    × (r.slept ≡ slept_from (suc count) n s.slept)

retry_loop-Ends_from :
    (fails : List Attempt) (good : Attempt) (rest : List Attempt) (n : ℕ) (s : Link)
    → All Failing fails
    → Succeeding good
    → InLoop s
    → Ends (length fails) n s (retry_loop (fails ++ (good ∷ rest)) (delay_at n) s)
unfolding leave_retry sleep_for
retry_loop-Ends_from [] good rest n s fs g h =
    let e =
      retry_loop-turn good rest (delay_at n) s g.open_before h.soft
      ∙ ap (λ t. if t.1 then leave_retry t.0 else retry_loop rest (next_delay (delay_at n)) t.0)
          (good_turn good (delay_at n) s g h.session) in
    (
      ap (λ r. r.life.connected) e ∙ connect-none s.life,
      ap (λ r. r.reconnecting) e,
      ap (λ r. r.running) e,
      ap (λ r. r.slept) e,
    )
retry_loop-Ends_from (a ∷ fails) good rest n s fs g h =
    let t = turn a (delay_at n) s in
    let failed = Failing-turn a (delay_at n) s fs.0 h in
    let more = fails ++ (good ∷ rest) in
    let e =
      retry_loop-turn a more (delay_at n) s fs.0.open_before h.soft
      ∙ ap (λ b. if b then leave_retry t.0 else retry_loop more (next_delay (delay_at n)) t.0)
          failed.0
      ∙ ap (λ d. retry_loop more d t.0) (next_delay-delay_at n) in
    let later = retry_loop-Ends_from fails good rest (suc n) t.0 fs.1 g failed.1.in_loop in
    (
      ap (λ r. r.life.connected) e ∙ later.0,
      ap (λ r. r.reconnecting) e ∙ later.1,
      ap (λ r. r.running) e ∙ later.2 ∙ ap (λ k. k - 1) failed.1.same_running,
      ap (λ r. r.slept) e
          ∙ later.3
          ∙ ap (slept_from (suc (length fails)) (suc n)) failed.1.same_slept,
    )

-- While nobody closes the client and the session is there, the loop of retryConnect comes to an
-- end: after any number of attempts that fail, the first that succeeds leaves the socket connected
-- and no loop running. It sleeps before each attempt, for 5 seconds doubled at each failure, and
-- never for more than a minute: min (5000 * 2^n) 60000 milliseconds before the attempt number n.
pub retry_loop-Ends :
    (fails : List Attempt) (good : Attempt) (rest : List Attempt) (s : Link)
    → All Failing fails
    → Succeeding good
    → s.has_session ≡ true
    → s.hard_disconnect ≡ false
    → s.reconnecting ≡ true
    → Ends (length fails) 0 s (retry_loop (fails ++ (good ∷ rest)) first_delay s)
retry_loop-Ends fails good rest s fs g session soft busy =
    retry_loop-Ends_from fails good rest 0 s fs g
      (record { session = session; soft = soft; busy = busy })
