-- ===== src/Common/Decimal.antt =====
-- Decimal text of natural numbers: `String(n)`, and `Number(text)` for a text of digits.
use Prim.Native.Nat.{ℕ, zero, suc, ◌+◌, ◌-◌, ◌*◌, ◌/◌, ◌%◌, ◌<◌, ◌≤◌}
use mathlib.Core.Path.{◌≡◌, refl, ◌∙◌, ap}
use mathlib.Core.Bool.{Bool, true, false, ◌&&◌}
use mathlib.Core.Option.{Option, none, some}
use mathlib.Core.List.{[], ◌∷◌}
use native.Mathlib.Omega.{arith}
use billion.Common.Lists.{length}
use billion.Common.Tests.{ltb, leb, if◌then◌else◌, if_cases}
use billion.Common.Text.{Str, lacks, is_nonempty}

-- One digit a round; the fuel exceeds the number, hence the number of digits.
decimal_digits : ℕ → ℕ → Str → Str
decimal_digits zero n rest = rest
decimal_digits (suc fuel) n rest =
    let longer = decimal_digits fuel (n / 10) ((b'0' + n % 10) ∷ rest) in
    if ltb n 10 then (b'0' + n) ∷ rest else longer

unfoldable pub decimal : ℕ → Str
unfolding decimal_digits
decimal n = decimal_digits (suc n) n []

value_from : ℕ → Str → ℕ
value_from acc [] = acc
value_from acc (c ∷ cs) = value_from (acc * 10 + (c - b'0')) cs

all_digits : Str → Bool
all_digits [] = true
all_digits (c ∷ cs) = (leb b'0' c && leb c b'9') && all_digits cs

-- `/^\d+$/.test(text)`
unfoldable pub is_decimal : Str → Bool
unfolding all_digits
is_decimal [] = false
is_decimal (c ∷ cs) = all_digits (c ∷ cs)

abbrev pub max_safe_integer : ℕ
max_safe_integer = 9007199254740991

-- `/^\d+$/.test(text)`, then `Number(text)`, refused if it is no safe integer: a larger number is
-- rounded to one that is not safe either.
unfoldable pub parse_safe : Str → Option ℕ
unfolding is_decimal value_from
parse_safe cs =
    if is_decimal cs && leb (value_from 0 cs) max_safe_integer then some (value_from 0 cs) else none

value_from-decimal_digits :
    (fuel n : ℕ) (rest : Str)
    → n < fuel
    → value_from 0 (decimal_digits fuel n rest) ≡ value_from n rest
unfolding decimal_digits value_from
value_from-decimal_digits zero n rest h = elim h [ ]
value_from-decimal_digits (suc fuel) n rest h =
    if_cases (λ t. value_from 0 t ≡ value_from n rest) (ltb n 10) _ _
      (λ small. ap (λ m. value_from m rest) (omega arith))
      (λ large.
        value_from-decimal_digits fuel (n / 10) ((b'0' + n % 10) ∷ rest) (ground arith)
        ∙ ap (λ m. value_from m rest) (omega arith))

is_decimal-decimal_digits :
    (fuel n : ℕ) (rest : Str)
    → n < fuel
    → all_digits rest ≡ true
    → is_decimal (decimal_digits fuel n rest) ≡ true
unfolding decimal_digits is_decimal
is_decimal-decimal_digits zero n rest h digits = elim h [ ]
is_decimal-decimal_digits (suc fuel) n rest h digits =
    if_cases (λ t. is_decimal t ≡ true) (ltb n 10) _ _ (λ small. ground arith)
      (λ large.
        is_decimal-decimal_digits fuel (n / 10) ((b'0' + n % 10) ∷ rest) (ground arith)
          (ground arith))

pub is_decimal-decimal : (n : ℕ) → is_decimal (decimal n) ≡ true
unfolding decimal all_digits
is_decimal-decimal n = is_decimal-decimal_digits (suc n) n [] (omega arith) refl

value_from-decimal : (n : ℕ) → value_from 0 (decimal n) ≡ n
unfolding decimal value_from
value_from-decimal n = value_from-decimal_digits (suc n) n [] (omega arith)

-- Reading a printed safe number gives it back.
pub parse_safe-decimal : (n : ℕ) → n ≤ max_safe_integer → parse_safe (decimal n) ≡ some n
unfolding parse_safe
parse_safe-decimal n h = rw (is_decimal-decimal n, value_from-decimal n) (ground arith)

all_digits-lacks :
    (s : ℕ) (cs : Str)
    → (leb b'0' s && leb s b'9') ≡ false
    → all_digits cs ≡ true
    → lacks s cs ≡ true
unfolding all_digits
all_digits-lacks s [] h k = refl
all_digits-lacks s (c ∷ cs) h k = ground (arith, all_digits-lacks s cs h)

pub is_decimal-lacks :
    (s : ℕ) (cs : Str)
    → (leb b'0' s && leb s b'9') ≡ false
    → is_decimal cs ≡ true
    → lacks s cs ≡ true
unfolding is_decimal
is_decimal-lacks s [] h k = refl
is_decimal-lacks s (c ∷ cs) h k = all_digits-lacks s (c ∷ cs) h k

pub is_decimal-is_nonempty : (cs : Str) → is_decimal cs ≡ true → is_nonempty cs ≡ true
unfolding is_decimal
is_decimal-is_nonempty [] h = h
is_decimal-is_nonempty (c ∷ cs) h = refl

-- The power of ten with one digit more than the number says.
abbrev pub power_of_ten : ℕ → ℕ
power_of_ten zero = 10
power_of_ten (suc k) = 10 * power_of_ten k

length-decimal_digits-le :
    (fuel n k : ℕ) (rest : Str)
    → n < power_of_ten k
    → length (decimal_digits fuel n rest) ≤ suc k + length rest
unfolding decimal_digits
length-decimal_digits-le zero n k rest h = omega arith
length-decimal_digits-le (suc fuel) n zero rest h =
    if_cases (λ (t : Str). length t ≤ suc zero + length rest) (ltb n 10) _ _ (λ small. omega arith)
      (λ large. absurd (ground (arith, h, large)))
length-decimal_digits-le (suc fuel) n (suc k) rest h =
    if_cases (λ (t : Str). length t ≤ suc (suc k) + length rest) (ltb n 10) _ _
      (λ small. omega arith)
      (λ large. omega (
        arith,
        length-decimal_digits-le fuel (n / 10) k ((b'0' + n % 10) ∷ rest) (omega (arith, h)),
      ))

-- A number below a power of ten has no more digits.
pub length-decimal-le : (n k : ℕ) → n < power_of_ten k → length (decimal n) ≤ suc k
unfolding decimal
length-decimal-le n k h = omega (arith, length-decimal_digits-le (suc n) n k [] h)

length-decimal_digits-positive :
    (fuel n : ℕ) (rest : Str) → n < fuel → suc (length rest) ≤ length (decimal_digits fuel n rest)
unfolding decimal_digits
length-decimal_digits-positive zero n rest h = absurd (omega (arith, h))
length-decimal_digits-positive (suc fuel) n rest h =
    if_cases (λ (t : Str). suc (length rest) ≤ length t) (ltb n 10) _ _ (λ small. omega arith)
      (λ large. omega (
        arith,
        length-decimal_digits-positive fuel (n / 10) ((b'0' + n % 10) ∷ rest)
            (ground (arith, h, large)),
      ))

ten_le : (k : ℕ) → 10 ≤ power_of_ten k
ten_le zero = omega arith
ten_le (suc k) = omega (arith, ten_le k)

length-decimal_digits-ge :
    (fuel n k : ℕ) (rest : Str)
    → n < fuel
    → power_of_ten k ≤ n
    → suc (suc k) + length rest ≤ length (decimal_digits fuel n rest)
unfolding decimal_digits
length-decimal_digits-ge zero n k rest h low = absurd (omega (arith, h))
length-decimal_digits-ge (suc fuel) n zero rest h low =
    if_cases (λ (t : Str). suc (suc zero) + length rest ≤ length t) (ltb n 10) _ _
      (λ small. absurd (ground (arith, low, small)))
      (λ large. omega (
        arith,
        length-decimal_digits-positive fuel (n / 10) ((b'0' + n % 10) ∷ rest)
            (omega (arith, h, low)),
      ))
length-decimal_digits-ge (suc fuel) n (suc k) rest h low =
    if_cases (λ (t : Str). suc (suc (suc k)) + length rest ≤ length t) (ltb n 10) _ _
      (λ small. absurd (ground (arith, low, small, ten_le k)))
      (λ large. omega (
        arith,
        length-decimal_digits-ge fuel (n / 10) k ((b'0' + n % 10) ∷ rest)
            (omega (arith, h, low, ten_le k)) (omega (arith, low)),
      ))

-- A number that reaches a power of ten has more digits.
pub length-decimal-ge : (n k : ℕ) → power_of_ten k ≤ n → suc (suc k) ≤ length (decimal n)
unfolding decimal
length-decimal-ge n k h = omega (arith, length-decimal_digits-ge (suc n) n k [] (omega arith) h)
