-- ===== src/Prelude/Words.antt =====
-- Bytes, big-endian words and the bit operations that the code applies to them.
use Prim.Native.Nat.{
  ℕ, zero, suc, ◌+◌, ◌*◌, ◌/◌, ◌^◌, ◌≤◌, ◌<◌, ◌%◌, min, max, bit_and, bit_or, digits,
  bit_and-bitwise, bit_or-bitwise,
}
use Prim.Native.Char.{code}
use Prim.Native.String.{String}
use mathlib.Core.Path.{◌≡◌, refl, ap, ◌∙◌}
use mathlib.Core.Bool.{Bool, true, false}
use mathlib.Core.List.{List, [], ◌∷◌}
use native.Mathlib.Nat.{pow-suc, le_refl, one-le-pow}
use native.Mathlib.Omega.{arith}
use native.Mathlib.Decide.{dec_lt}
use mathlib.Core.Logic.{inl, inr}
use mezon_sdk_go.Prelude.Tests.{if◌then◌else◌, Bool-cases}

-- A Go string or byte slice: its bytes.
abbrev pub Bytes : Type 0
Bytes = List ℕ

-- The bytes of an ASCII text.
abbrev pub codes : String → List ℕ
codes String.[] = []
codes (String.◌∷◌ c s) = code c ∷ codes s

-- `|` by its recursion on binary digits: where one side has only zeros below bit `k` and the other
-- fits in `k` bits, it is their sum. The fuel is whatever bounds the left side.
or_with_zero : (fuel a : ℕ) → a ≤ fuel → digits (λ b. b) max fuel a 0 ≡ a
or_with_zero zero zero h = refl
or_with_zero zero (suc a) h = absurd (omega arith)
or_with_zero (suc fuel) zero h = refl
or_with_zero (suc fuel) (suc a) h = omega (arith, or_with_zero fuel (suc a / 2) (omega arith))

or_above :
    (fuel k q r a : ℕ) → a ≡ q * 2 ^ k → a ≤ fuel → r < 2 ^ k → digits (λ b. b) max fuel a r ≡ a + r
or_above fuel zero q r a e h fits =
    let z : r ≡ 0 = omega arith in rw z (omega (arith, or_with_zero fuel a h))
or_above zero (suc k) q r zero e h fits = omega arith
or_above zero (suc k) q r (suc a) e h fits = absurd (omega arith)
or_above (suc fuel) (suc k) q r zero e h fits = omega arith
or_above (suc fuel) (suc k) q r (suc a) e h fits =
    let even : suc a ≡ 2 * (q * 2 ^ k) = omega (arith, ap (λ (t : ℕ). q * t) (pow-suc 2 k)) in
    omega (
      arith,
      or_above fuel k q (r / 2) (suc a / 2) (omega arith) (omega arith)
          (omega (arith, pow-suc 2 k)),
    )

-- A field shifted by `k` bits and one that fits below it: `|` is `+`.
pub bit_or_disjoint : (k q r : ℕ) → r < 2 ^ k → bit_or (q * 2 ^ k) r ≡ q * 2 ^ k + r
bit_or_disjoint k q r fits =
    bit_or-bitwise (q * 2 ^ k) r ∙ or_above (q * 2 ^ k) k q r (q * 2 ^ k) refl (omega arith) fits

or_bit :
    (fuel k q a : ℕ) → a ≡ (2 * q + 1) * 2 ^ k → a ≤ fuel → digits (λ b. b) max fuel a (2 ^ k) ≡ a
or_bit fuel k q zero e h = absurd (omega (arith, one-le-pow k 2))
or_bit zero k q (suc a) e h = absurd (omega arith)
or_bit (suc fuel) zero q (suc a) e h = omega (arith, or_with_zero fuel (suc a / 2) (omega arith))
or_bit (suc fuel) (suc k) q (suc a) e h =
    let even : suc a ≡ 2 * ((2 * q + 1) * 2 ^ k) =
      omega (arith, ap (λ (t : ℕ). (2 * q + 1) * t) (pow-suc 2 k)) in
    let half : 2 ^ suc k / 2 ≡ 2 ^ k = omega (arith, pow-suc 2 k) in
    let rest = or_bit fuel k q (suc a / 2) (omega arith) (omega arith) in
    let low : 2 ^ suc k % 2 ≡ 0 = omega (arith, pow-suc 2 k) in
    omega (arith, ap (λ b. digits (λ b. b) max fuel (suc a / 2) b) half, rest)

-- A bit that is set already.
pub bit_or_within : (k q : ℕ) → bit_or ((2 * q + 1) * 2 ^ k) (2 ^ k) ≡ (2 * q + 1) * 2 ^ k
bit_or_within k q =
    bit_or-bitwise ((2 * q + 1) * 2 ^ k) (2 ^ k)
    ∙ or_bit ((2 * q + 1) * 2 ^ k) k q ((2 * q + 1) * 2 ^ k) refl (le_refl ((2 * q + 1) * 2 ^ k))

-- Over a small range, every value is checked by evaluation.
unfoldable pub checks_below : (ℕ → Bool) → ℕ → Bool
checks_below test zero = true
checks_below test (suc bound) = if test bound then checks_below test bound else false

pub checks_below_sound :
    (test : ℕ → Bool) (bound i : ℕ) → i < bound → checks_below test bound ≡ true → test i ≡ true
unfolding checks_below
checks_below_sound test zero i small checked = absurd (omega arith)
checks_below_sound test (suc bound) i small checked = elim (Bool-cases (test bound)) [
  | inl here ↦ elim (dec_lt i bound) [
    | yes below ↦ checks_below_sound test bound i below (rw here at checked)
    | no top ↦ let same : i ≡ bound = omega arith in rw same here
  ]
  | inr fails ↦ absurd (ground arith)
]

or_zero_left : (fuel b : ℕ) → digits (λ b. b) max fuel 0 b ≡ b
or_zero_left zero b = refl
or_zero_left (suc fuel) b = refl

half_mod : (p a : ℕ) → 0 < p → a % (2 * p) ≡ a / 2 % p * 2 + a % 2
half_mod p a h = grind arith

-- The same with the low field on the left.
or_below :
    (fuel k q r b : ℕ) → b ≡ q * 2 ^ k → r ≤ fuel → r < 2 ^ k → digits (λ b. b) max fuel r b ≡ r + b
or_below fuel zero q zero b e h fits = omega (arith, or_zero_left fuel b)
or_below fuel zero q (suc r) b e h fits = absurd (omega arith)
or_below fuel (suc k) q zero b e h fits = omega (arith, or_zero_left fuel b)
or_below zero (suc k) q (suc r) b e h fits = absurd (omega arith)
or_below (suc fuel) (suc k) q (suc r) b e h fits =
    let even : b ≡ 2 * (q * 2 ^ k) = omega (arith, ap (λ (t : ℕ). q * t) (pow-suc 2 k)) in
    omega (
      arith,
      or_below fuel k q (suc r / 2) (b / 2) (omega arith) (omega arith)
          (omega (arith, pow-suc 2 k)),
    )

pub bit_or_low : (k q r : ℕ) → r < 2 ^ k → bit_or r (q * 2 ^ k) ≡ r + q * 2 ^ k
bit_or_low k q r fits =
    bit_or-bitwise r (q * 2 ^ k) ∙ or_below r k q r (q * 2 ^ k) refl (le_refl r) fits

and_with_zero : (fuel a : ℕ) → a ≤ fuel → digits (λ b. zero) min fuel a 0 ≡ 0
and_with_zero zero zero h = refl
and_with_zero zero (suc a) h = absurd (omega arith)
and_with_zero (suc fuel) zero h = refl
and_with_zero (suc fuel) (suc a) h = omega (arith, and_with_zero fuel (suc a / 2) (omega arith))

and_low : (fuel k a m : ℕ) → suc m ≡ 2 ^ k → a ≤ fuel → digits (λ b. zero) min fuel a m ≡ a % 2 ^ k
and_low fuel zero a m e h =
    let z : m ≡ 0 = omega arith in rw z (omega (arith, and_with_zero fuel a h))
and_low zero (suc k) zero m e h = omega arith
and_low zero (suc k) (suc a) m e h = absurd (omega arith)
and_low (suc fuel) (suc k) zero m e h = omega arith
and_low (suc fuel) (suc k) (suc a) m e h =
    let double : 2 ^ suc k ≡ 2 * 2 ^ k = omega (arith, pow-suc 2 k) in
    let odd : m % 2 ≡ 1 = omega arith in
    rw double (
      omega (
        arith,
        half_mod (2 ^ k) (suc a) (omega (arith, one-le-pow k 2)),
        and_low fuel k (suc a / 2) (m / 2) (omega arith) (omega arith),
      ))

-- A mask of `k` ones is the remainder by `2 ^ k`.
pub bit_and_mask : (k m a : ℕ) → suc m ≡ 2 ^ k → bit_and a m ≡ a % 2 ^ k
bit_and_mask k m a e = bit_and-bitwise a m ∙ and_low a k a m e (le_refl a)

-- The number that a list of bytes spells, most significant byte first.
unfoldable pub big_endian_from : ℕ → Bytes → ℕ
big_endian_from acc [] = acc
big_endian_from acc (b ∷ bs) = big_endian_from (acc * 256 + b) bs

abbrev pub big_endian : Bytes → ℕ
big_endian = big_endian_from 0

abbrev pub byte : ℕ → ℕ
byte x = x % 256

abbrev pub IsByte : ℕ → Type 0
IsByte b = b < 256
