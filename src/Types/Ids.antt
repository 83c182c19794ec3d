-- ===== src/Types/Ids.antt =====
-- types.go: atoiID reads back what itoaID prints.
use mezon_sdk_go.Prelude.{
  ℕ, zero, suc, ◌+◌, ◌*◌, ◌/◌, ◌%◌, ◌^◌, ◌≤◌, ◌<◌, ◌≡◌, ◌≢◌, refl, ap, ◌∙◌, inl, inr, ℤ, pos,
  negsuc, negate, [], ◌∷◌, some, true, false, ltb, ◌==◌, Bytes, arith, itoa, decimal, digits_onto,
  Bool-cases, ltb→lt, ==_ne,
}
use mezon_sdk_go.Types.{digit_of, parse_uint, parse_digits, clamp, parse_int, atoi_id, itoa_id}

-- The values of an int64.
abbrev pub IsInt64 : ℤ → Type 0
IsInt64 (pos n) = n < 2 ^ 63
IsInt64 (negsuc n) = n < 2 ^ 63

digit_of_lem : (d : ℕ) → d < 10 → digit_of (48 + d) ≡ some d
unfolding digit_of
digit_of_lem d small = ground arith

parse_uint_digit :
    (n d : ℕ) (cs : Bytes)
    → d < 10
    → n * 10 + d < 2 ^ 64
    → parse_uint n ((48 + d) ∷ cs) ≡ parse_uint (n * 10 + d) cs
unfolding parse_uint
parse_uint_digit n d cs small fits = rw (digit_of_lem d small, parse_uint) (ground arith)

parse_uint-digits_onto :
    (fuel n : ℕ) (cs : Bytes)
    → n < fuel
    → n < 2 ^ 64
    → parse_uint 0 (digits_onto fuel n cs) ≡ parse_uint n cs
unfolding digits_onto
parse_uint-digits_onto zero n cs enough fits = absurd (omega arith)
parse_uint-digits_onto (suc fuel) n cs enough fits = elim (Bool-cases (ltb n 10)) [
  | inl small ↦ rw small (
      parse_uint_digit 0 n cs (ltb→lt n 10 small) (omega arith)
      ∙ ap (λ m. parse_uint m cs) (omega arith))
  | inr large ↦
      let big : 10 ≤ n = ground arith in
      rw large (
        parse_uint-digits_onto fuel (n / 10) ((48 + n % 10) ∷ cs) (omega arith) (omega arith)
        ∙ parse_uint_digit (n / 10) (n % 10) cs (omega arith) (omega arith)
        ∙ ap (λ m. parse_uint m cs) (omega arith))
]

-- The text begins with a digit.
abbrev Starts : Bytes → Type 0
Starts [] = ⊥
Starts (c ∷ cs) = (48 ≤ c) × (c ≤ 57)

digits_onto-Starts : (fuel n : ℕ) (cs : Bytes) → Starts cs → Starts (digits_onto fuel n cs)
unfolding digits_onto
digits_onto-Starts zero n cs h = h
digits_onto-Starts (suc fuel) n cs h = elim (Bool-cases (ltb n 10)) [
  | inl small ↦ let low = ltb→lt n 10 small in rw small (omega arith, omega arith)
  | inr large ↦
      rw large (digits_onto-Starts fuel (n / 10) ((48 + n % 10) ∷ cs) (omega arith, omega arith))
]

decimal-Starts : (n : ℕ) → Starts (decimal n)
unfolding decimal digits_onto
decimal-Starts n = elim (Bool-cases (ltb n 10)) [
  | inl small ↦ let low = ltb→lt n 10 small in rw small (omega arith, omega arith)
  | inr large ↦
      rw large (digits_onto-Starts n (n / 10) ((48 + n % 10) ∷ []) (omega arith, omega arith))
]

Starts-nonempty : (s : Bytes) → Starts s → s ≢ []
Starts-nonempty [] h = absurd h
Starts-nonempty (c ∷ cs) h = λ e. cc

pub itoa_id-nonempty : (v : ℤ) → itoa_id v ≢ []
unfolding itoa_id itoa
itoa_id-nonempty (pos zero) = λ e. cc
itoa_id-nonempty (pos (suc n)) = Starts-nonempty (decimal (suc n)) (decimal-Starts (suc n))
itoa_id-nonempty (negsuc n) = λ e. cc

parse_digits_read : (s : Bytes) → Starts s → parse_digits s ≡ parse_uint 0 s
unfolding parse_digits
parse_digits_read [] h = absurd h
parse_digits_read (c ∷ cs) h = refl

parse_int_unsigned : (s : Bytes) → Starts s → parse_int s ≡ clamp false (parse_uint 0 s)
unfolding parse_int parse_digits
parse_int_unsigned [] h = absurd h
parse_int_unsigned (c ∷ cs) h =
    let plus : (c == 43) ≡ false = ==_ne c 43 (λ e. absurd (omega (arith, e, h.0))) in
    let minus : (c == 45) ≡ false = ==_ne c 45 (λ e. absurd (omega (arith, e, h.0))) in
    rw (plus, minus) refl

parse_uint-decimal : (n : ℕ) → n < 2 ^ 64 → parse_uint 0 (decimal n) ≡ some n
unfolding decimal parse_uint
parse_uint-decimal n fits = parse_uint-digits_onto (suc n) n [] (omega arith) fits

parse_int_minus : (s : Bytes) → Starts s → parse_int (45 ∷ s) ≡ clamp true (parse_uint 0 s)
unfolding parse_int
parse_int_minus s h = ap (clamp true) (parse_digits_read s h)

zero_read : parse_int (48 ∷ []) ≡ pos 0
unfolding parse_int parse_digits parse_uint digit_of clamp
zero_read = refl

clamp_positive : (n : ℕ) → n < 2 ^ 63 → clamp false (some n) ≡ pos n
unfolding clamp
clamp_positive n h = ground arith

clamp_negative : (n : ℕ) → n < 2 ^ 63 → clamp true (some (suc n)) ≡ negsuc n
unfolding clamp negate
clamp_negative n h = ground arith

-- atoiID gives back every int64 from the text that itoaID prints for it.
pub atoi_id-itoa_id : (v : ℤ) → IsInt64 v → atoi_id (itoa_id v) ≡ v
unfolding atoi_id itoa_id itoa
atoi_id-itoa_id (pos zero) h = zero_read
atoi_id-itoa_id (pos (suc n)) h =
    parse_int_unsigned (decimal (suc n)) (decimal-Starts (suc n))
    ∙ ap (clamp false) (parse_uint-decimal (suc n) (omega arith))
    ∙ clamp_positive (suc n) h
atoi_id-itoa_id (negsuc n) h =
    parse_int_minus (decimal (suc n)) (decimal-Starts (suc n))
    ∙ ap (clamp true) (parse_uint-decimal (suc n) (omega arith))
    ∙ clamp_negative n h
