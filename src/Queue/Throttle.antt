-- ===== src/Queue/Throttle.antt =====
-- queue.go: how many jobs start within a second, and that every job starts.
use mezon_sdk_go.Prelude.{ℕ, ◌≤◌, ◌<◌, ◌≡◌, List, [], ◌∷◌, length, Option, none, some}
use mezon_sdk_go.Queue.{Throttler, recent}
use mezon_sdk_go.Queue.Recent.{Past}

-- What the loop knows of the starts so far: whatever the clock comes to, the stamps that it keeps
-- count the starts within the last second.
abbrev Counts : Throttler → List ℕ → Type 0
Counts q starts =
    (now : ℕ) → q.now ≤ now → length (recent now starts) ≡ length (recent now q.timestamps)

-- At the end of the wait there is room.
abbrev Ready : ℕ → List ℕ → Option Throttler → Type 0
Ready limit starts none = ⊥
Ready limit starts (some q) =
    Counts q starts × (length (recent q.now starts) < limit) × Past q.now q.timestamps

-- The loop has just dropped what is old, and every stamp is from before `base`.
abbrev Kept : ℕ → List ℕ → Throttler → Type 0
Kept base starts q =
    Counts q starts
    × Past base q.timestamps
    × (base ≤ q.now)
    × (recent q.now q.timestamps ≡ q.timestamps)

-- Each start has fewer than `limit` starts in the second before it.
abbrev pub RateOk : ℕ → List ℕ → Type 0
RateOk limit [] = Unit
RateOk limit (t ∷ older) = (length (recent t older) < limit) × RateOk limit older

-- The loop between two jobs.
abbrev Idle : ℕ → List ℕ → Throttler → Type 0
Idle limit starts q = Counts q starts × Past q.now q.timestamps × RateOk limit starts
