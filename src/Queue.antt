-- ===== src/Queue.antt =====
-- queue.go: the loop of AsyncThrottleQueue, which starts jobs in the order of the channel and at
-- most `max_per_second` of them in a second. Time is in nanoseconds. The environment is `delay`:
-- how much the clock moves before its reading number `i`, over what the code itself sleeps.
pub mod Recent
pub mod Throttle
use mezon_sdk_go.Prelude.{
  ℕ, ℤ, pos, negsuc, zero, suc, ◌+◌, ◌-◌, List, [], ◌∷◌, ◌++◌, Bool, true, false, ltb, ◌==◌,
  if◌then◌else◌, length, Option, none, some,
}

abbrev pub second : ℕ
second = 1000000000

abbrev pub poll_interval : ℕ
poll_interval = 10000000

abbrev pub default_max_per_second : ℕ
default_max_per_second = 80

-- NewAsyncThrottleQueue's limit.
unfoldable pub cap_of : ℤ → ℕ
cap_of (pos n) = if n == 0 then default_max_per_second else n
cap_of (negsuc n) = default_max_per_second

-- The clock, its readings so far, and `timestamps`.
pub record Throttler : Type 0 where
  pub now : ℕ
  pub reads : ℕ
  pub timestamps : List ℕ

-- time.Now(), after sleeping for `slept`.
unfoldable pub read_clock : (ℕ → ℕ) → ℕ → Throttler → Throttler
read_clock delay slept q = record q { now = q.now + slept + delay q.reads; reads = suc q.reads }

-- The stamps that are less than a second old.
unfoldable pub recent : ℕ → List ℕ → List ℕ
recent now [] = []
recent now (t ∷ timestamps) =
    let kept = recent now timestamps in if ltb (now - t) second then t ∷ kept else kept

unfoldable pub drop_old : Throttler → Throttler
drop_old q = record q { timestamps = recent q.now q.timestamps }

-- The waiting loop; `none` is a loop that is not done within the fuel.
unfoldable pub wait_turn : ℕ → ℕ → (ℕ → ℕ) → Throttler → Option Throttler
wait_turn zero limit delay q = if ltb (length q.timestamps) limit then some q else none
wait_turn (suc fuel) limit delay q =
    let later = wait_turn fuel limit delay (drop_old (read_clock delay poll_interval q)) in
    if ltb (length q.timestamps) limit then some q else later

-- `timestamps = append(timestamps, time.Now())`, and the job starts.
unfoldable pub start_job : (ℕ → ℕ) → Throttler → Throttler
start_job delay q =
    let r = read_clock delay 0 q in record r { timestamps = r.timestamps ++ (r.now ∷ []) }

unfoldable pub started : (ℕ → ℕ) → Option Throttler → Option Throttler
started delay none = none
started delay (some q) = some (start_job delay q)

-- A second takes at most 100 polls.
abbrev pub poll_fuel : ℕ
poll_fuel = 100

-- One turn of the loop, for one job.
unfoldable pub take_job : ℕ → (ℕ → ℕ) → Throttler → Option Throttler
take_job limit delay q =
    started delay (wait_turn poll_fuel limit delay (drop_old (read_clock delay 0 q)))

-- `n` jobs: the times at which they start, the last first.
unfoldable pub run_jobs : ℕ → ℕ → (ℕ → ℕ) → Throttler → List ℕ → Option (Throttler × List ℕ)
run_jobs zero limit delay q starts = some (q, starts)
run_jobs (suc n) limit delay q starts = elim (take_job limit delay q) [
  | none ↦ none
  | some after ↦ run_jobs n limit delay after (after.now ∷ starts)
]
