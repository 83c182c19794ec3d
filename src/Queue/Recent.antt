-- ===== src/Queue/Recent.antt =====
-- queue.go: what the loop keeps of its time stamps.
use mezon_sdk_go.Prelude.{ℕ, ◌+◌, ◌≤◌, ◌≡◌, refl, List, [], ◌∷◌, ◌++◌, length, arith, All}
use mezon_sdk_go.Queue.{second, recent}

pub recent-recent :
    (now later : ℕ) (stamps : List ℕ)
    → now ≤ later
    → recent later (recent now stamps) ≡ recent later stamps
unfolding recent
recent-recent now later [] h = refl
recent-recent now later (t ∷ stamps) h = ground (arith, recent-recent now later stamps)

pub recent-append :
    (now : ℕ) (xs ys : List ℕ) → recent now (xs ++ ys) ≡ recent now xs ++ recent now ys
unfolding recent
recent-append now [] ys = refl
recent-append now (x ∷ xs) ys = ground (arith, recent-append now xs ys)

pub length-recent :
    (now later : ℕ) (xs : List ℕ) → now ≤ later → length (recent later xs) ≤ length (recent now xs)
unfolding recent
length-recent now later [] h = omega arith
length-recent now later (x ∷ xs) h = ground (arith, length-recent now later xs)

-- No stamp is later than the clock.
abbrev pub Past : ℕ → List ℕ → Type 0
Past now = All (λ t. t ≤ now)

pub Past-recent : (now at : ℕ) (xs : List ℕ) → Past now xs → Past now (recent at xs)
unfolding recent
Past-recent now at [] p = tt
Past-recent now at (x ∷ xs) p = ground (arith, Past-recent now at xs p.1)

pub recent-old : (now at : ℕ) (xs : List ℕ) → Past at xs → at + second ≤ now → recent now xs ≡ []
unfolding recent
recent-old now at [] p h = refl
recent-old now at (x ∷ xs) p h = ground (arith, recent-old now at xs p.1)

pub Past-later : (now later : ℕ) (xs : List ℕ) → now ≤ later → Past now xs → Past later xs
Past-later now later [] h p = tt
Past-later now later (x ∷ xs) h p = (omega (arith, p.0), Past-later now later xs h p.1)

pub Past-append : (now : ℕ) (xs : List ℕ) → Past now xs → Past now (xs ++ (now ∷ []))
Past-append now [] p = (omega arith, tt)
Past-append now (x ∷ xs) p = (p.0, Past-append now xs p.1)
