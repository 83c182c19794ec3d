-- ===== src/Prelude/Decimal.antt =====
-- strconv.Itoa and FormatInt in base ten: the digits, most significant first.
use Prim.Native.Nat.{ℕ, zero, suc, ◌+◌, ◌/◌, ◌%◌}
use mathlib.Core.List.{[], ◌∷◌}
use mezon_sdk_go.Prelude.Tests.{ltb, if◌then◌else◌}
use mezon_sdk_go.Prelude.Words.{Bytes}
use mezon_sdk_go.Prelude.Int.{ℤ, pos, negsuc}

-- Fuel `suc n` is enough for the digits of `n`: each digit leaves a smaller number.
unfoldable pub digits_onto : ℕ → ℕ → Bytes → Bytes
digits_onto zero n digits = digits
digits_onto (suc fuel) n digits =
    let rest = digits_onto fuel (n / 10) ((48 + n % 10) ∷ digits) in
    if ltb n 10 then (48 + n) ∷ digits else rest

unfoldable pub decimal : ℕ → Bytes
decimal n = digits_onto (suc n) n []

unfoldable pub itoa : ℤ → Bytes
itoa (pos n) = decimal n
itoa (negsuc n) = 45 ∷ decimal (suc n)
