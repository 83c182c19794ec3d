-- ===== src/Helper/Snowflakes.antt =====
-- helper.go, GenerateSnowflakeID: the ids as numbers, before they are printed.
use mezon_sdk_go.Prelude.{
  ℕ, ◌+◌, ◌-◌, ◌*◌, ◌%◌, ◌^◌, ◌≤◌, ◌<◌, ◌≡◌, ◌≢◌, subst, ◌⊎◌, inl, inr, ap, ◌∙◌, List, [], ◌∷◌,
  arith, ◌==◌, if◌then◌else◌, sym, bit_or, bit_or_disjoint, bit_or_within,
}
use mezon_sdk_go.Helper.{snowflake_epoch, Snowflake, next_seq, snowflake_bits}

-- The fields of an id above its sequence number, while the clock is within 2^41 milliseconds of
-- the epoch.
abbrev prefix : ℕ → ℕ
prefix ts = (2 * ((ts - snowflake_epoch) * 512 + 16) + 1) * 2 ^ 12

snowflake_bits-prefix :
    (ts seq : ℕ)
    → snowflake_epoch ≤ ts
    → ts < snowflake_epoch + 2 ^ 41
    → snowflake_bits ts seq ≡ bit_or (prefix ts) seq
unfolding snowflake_bits
snowflake_bits-prefix ts seq from to =
    let d = ts - snowflake_epoch in
    let shifted : (ts + 2 ^ 64 - snowflake_epoch) % 2 ^ 64 * 2 ^ 22 % 2 ^ 64 ≡ d * 2 ^ 22 =
      omega arith in
    let with_center : bit_or (d * 2 ^ 22) (1 * 2 ^ 17) ≡ (d * 32 + 1) * 2 ^ 17 =
      bit_or_disjoint 22 d (1 * 2 ^ 17) (omega arith) ∙ omega arith in
    let with_worker : bit_or ((d * 32 + 1) * 2 ^ 17) (1 * 2 ^ 12) ≡ prefix ts =
      bit_or_disjoint 17 (d * 32 + 1) (1 * 2 ^ 12) (omega arith) ∙ omega arith in
    ap (λ b. bit_or (bit_or (bit_or b (1 * 2 ^ 17)) (1 * 2 ^ 12)) seq) shifted
    ∙ ap (λ b. bit_or (bit_or b (1 * 2 ^ 12)) seq) with_center
    ∙ ap (λ b. bit_or b seq) with_worker

snowflake_bits-fields :
    (ts seq : ℕ)
    → snowflake_epoch ≤ ts
    → ts < snowflake_epoch + 2 ^ 41
    → seq < 2 ^ 12
    → snowflake_bits ts seq ≡ prefix ts + seq
snowflake_bits-fields ts seq from to fits =
    snowflake_bits-prefix ts seq from to
    ∙ bit_or_disjoint 12 (2 * ((ts - snowflake_epoch) * 512 + 16) + 1) seq fits

-- How often a millisecond is in the clock.
abbrev pub count : ℕ → List ℕ → ℕ
count t [] = 0
count t (ts ∷ clock) = (if ts == t then 1 else 0) + count t clock

-- The clock of a run of calls after the last call: it does not run back, stays within 2^41
-- milliseconds of the epoch.
abbrev pub Runs : ℕ → List ℕ → Type 0
Runs last [] = Unit
Runs last (ts ∷ clock) =
    (last ≤ ts) × (snowflake_epoch ≤ ts) × (ts < snowflake_epoch + 2 ^ 41) × Runs ts clock

-- No millisecond has more than 4096 calls, `taken` calls of the millisecond `last` being made.
abbrev pub Paced : ℕ → ℕ → List ℕ → Type 0
Paced last taken clock = (t : ℕ) → count t clock + (if t == last then taken else 0) ≤ 4096

abbrev pub ids : List ℕ → Snowflake → List ℕ
ids [] s = []
ids (ts ∷ clock) s = snowflake_bits ts (next_seq ts s).seq ∷ ids clock (next_seq ts s)

abbrev pub Increasing : ℕ → List ℕ → Type 0
Increasing x [] = Unit
Increasing x (y ∷ ys) = (x < y) × Increasing y ys

next_seq-last : (ts : ℕ) (s : Snowflake) → (next_seq ts s).last ≡ ts
unfolding next_seq
next_seq-last ts s = ground arith

next_seq-fresh :
    (ts : ℕ) (s : Snowflake)
    → ((ts ≡ s.last) × ((next_seq ts s).seq ≡ s.seq + 1))
      ⊎ ((ts ≢ s.last) × ((next_seq ts s).seq ≡ 0))
unfolding next_seq
next_seq-fresh ts s = ground arith

snowflake_bits-step :
    (ts : ℕ) (s : Snowflake)
    → snowflake_epoch ≤ s.last
    → s.last ≤ ts
    → ts < snowflake_epoch + 2 ^ 41
    → s.seq < 2 ^ 12
    → (next_seq ts s).seq < 2 ^ 12
    → snowflake_bits s.last s.seq < snowflake_bits ts (next_seq ts s).seq
snowflake_bits-step ts s from later to fits fits' =
    let before = snowflake_bits-fields s.last s.seq from (omega arith) fits in
    let after = snowflake_bits-fields ts (next_seq ts s).seq (omega arith) to fits' in
    elim (next_seq-fresh ts s) [
      | inl same ↦ omega (arith, before, after, same.0, same.1)
      | inr new ↦ omega (arith, before, after, new.0, new.1)
    ]

next_seq-taken :
    (ts : ℕ) (s : Snowflake) → (next_seq ts s).seq ≡ (if ts == s.last then s.seq + 1 else 0)
unfolding next_seq
next_seq-taken ts s = ground arith

Paced-now :
    (ts : ℕ) (s : Snowflake) (clock : List ℕ)
    → Paced s.last (s.seq + 1) (ts ∷ clock)
    → (next_seq ts s).seq < 2 ^ 12
Paced-now ts s clock paced = ground (arith, paced ts, next_seq-taken ts s)

Paced-later :
    (ts : ℕ) (s : Snowflake) (clock : List ℕ)
    → Paced s.last (s.seq + 1) (ts ∷ clock)
    → Paced ts ((next_seq ts s).seq + 1) clock
Paced-later ts s clock paced = λ t. ground (arith, paced t, next_seq-taken ts s)

-- From a state after the epoch whose sequence number fits 12 bits, while the clock does not run
-- back, stays within 2^41 milliseconds of the epoch and has no millisecond more than 4096 times,
-- the calls already made in the last one included, each generated id is greater than the one
-- before, so that no two of them are equal.
pub ids-Increasing :
    (clock : List ℕ) (s : Snowflake)
    → snowflake_epoch ≤ s.last
    → s.seq < 2 ^ 12
    → Runs s.last clock
    → Paced s.last (s.seq + 1) clock
    → Increasing (snowflake_bits s.last s.seq) (ids clock s)
ids-Increasing [] s from fits runs paced = tt
ids-Increasing (ts ∷ clock) s from fits runs paced =
    let next = next_seq ts s in
    let now = Paced-now ts s clock paced in
    let rest =
      ids-Increasing clock next (omega (arith, next_seq-last ts s, runs.1)) now
        (subst (λ t. Runs t clock) (sym (next_seq-last ts s)) runs.3)
        (subst (λ t. Paced t (next.seq + 1) clock) (sym (next_seq-last ts s))
          (Paced-later ts s clock paced)) in
    (
      snowflake_bits-step ts s from runs.0 runs.2 fits now,
      subst (λ t. Increasing (snowflake_bits t next.seq) (ids clock next)) (next_seq-last ts s)
          rest,
    )

-- The sequence number has no bound of its own: the 4097th id of a millisecond is the first one
-- again, since bit 12 of the sequence falls on the worker's bit.
pub snowflake_bits-wraps :
    (ts : ℕ)
    → snowflake_epoch ≤ ts
    → ts < snowflake_epoch + 2 ^ 41
    → snowflake_bits ts 4096 ≡ snowflake_bits ts 0
snowflake_bits-wraps ts from to =
    snowflake_bits-prefix ts 4096 from to
    ∙ bit_or_within 12 ((ts - snowflake_epoch) * 512 + 16)
    ∙ omega (arith, snowflake_bits-fields ts 0 from to (omega arith))
