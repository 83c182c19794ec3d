-- ===== src/Prelude/Int.antt =====
-- Signed integers over the native numbers, under the library's names: `negsuc n` is -(n + 1).
use Prim.Native.Nat.{ℕ, zero, suc, ◌-◌, ◌%◌, ◌^◌}
use mezon_sdk_go.Prelude.Tests.{ltb, if◌then◌else◌}

pub data ℤ : Type 0 where
  pos : ℕ → ℤ
  negsuc : ℕ → ℤ

-- The int32 of a bit pattern.
unfoldable pub signed32 : ℕ → ℤ
signed32 n = if ltb n (2 ^ 31) then pos n else negsuc (2 ^ 32 - 1 - n)

-- The conversion of an int to an int32.
unfoldable pub int32_of : ℤ → ℤ
int32_of (pos n) = signed32 (n % 2 ^ 32)
int32_of (negsuc n) = signed32 (2 ^ 32 - 1 - n % 2 ^ 32)

-- The negative of a number.
unfoldable pub negate : ℕ → ℤ
negate zero = pos zero
negate (suc n) = negsuc n
