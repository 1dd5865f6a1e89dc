-- ===== src/NostrDb/Crdt/Ranks/Format.antt =====
-- crdt.js, `formatRank` and `rankValue`: printing and reading a rank.
use native.Mathlib.Nat.{pow-suc}
use billion.Common.{
  ℕ, zero, suc, ◌+◌, ◌-◌, ◌/◌, ◌%◌, ◌^◌, ◌≤◌, ◌<◌, ◌≡◌, refl, ◌∙◌, ap, true, false, [], ◌∷◌, arith,
  ltb, length, if_cases, ltb→lt, ltb→ge,
}
use billion.Common.Text.{Str, lacks, is_nonempty}
use billion.NostrDb.Crdt.Ranks.{
  rank_space, digit, digit_value, is_digit, all_digits, is_valid_rank, base36_digits, base36, zeros,
  drop, format_rank, value_from, rank_value,
}

digit_value-digit : (d : ℕ) → d < 36 → digit_value (digit d) ≡ d
unfolding digit_value digit
digit_value-digit d h = ground arith

is_digit-digit : (d : ℕ) → d < 36 → is_digit (digit d) ≡ true
unfolding is_digit digit
is_digit-digit d h = ground arith

value_from-base36_digits :
    (fuel n : ℕ) (rest : Str)
    → n < fuel
    → value_from 0 (base36_digits fuel n rest) ≡ value_from n rest
unfolding base36_digits value_from
value_from-base36_digits zero n rest h = elim h [ ]
value_from-base36_digits (suc fuel) n rest h =
    if_cases (λ t. value_from 0 t ≡ value_from n rest) (ltb n 36) _ _
      (λ small.
        ap (λ m. value_from m rest) (omega (arith, digit_value-digit n (ltb→lt n 36 small))))
      (λ large.
        value_from-base36_digits fuel (n / 36) (digit (n % 36) ∷ rest) (ground arith)
        ∙ ap (λ m. value_from m rest) (omega (arith, digit_value-digit (n % 36) (omega arith))))

length-base36_digits :
    (fuel k n : ℕ) (rest : Str)
    → n < fuel
    → n < 36 ^ suc k
    → length (base36_digits fuel n rest) ≤ suc k + length rest
unfolding base36_digits
length-base36_digits zero k n rest h small = elim h [ ]
length-base36_digits (suc fuel) zero n rest h small = ground arith
length-base36_digits (suc fuel) (suc k) n rest h small =
    let fewer : n / 36 < 36 ^ suc k = omega (arith, pow-suc 36 (suc k)) in
    if_cases (λ t. length t ≤ suc (suc k) + length rest) (ltb n 36) (digit n ∷ rest)
      (base36_digits fuel (n / 36) (digit (n % 36) ∷ rest)) (λ one. omega arith)
      (λ more. omega (
        arith,
        length-base36_digits fuel k (n / 36) (digit (n % 36) ∷ rest),
        fewer,
        ltb→ge n 36 more,
      ))

all_digits-base36_digits :
    (fuel n : ℕ) (rest : Str)
    → all_digits rest ≡ true
    → all_digits (base36_digits fuel n rest) ≡ true
unfolding base36_digits all_digits
all_digits-base36_digits zero n rest h = h
all_digits-base36_digits (suc fuel) n rest h =
    if_cases (λ t. all_digits t ≡ true) (ltb n 36) _ _ (λ small. ground (arith, is_digit-digit n))
      (λ large.
        all_digits-base36_digits fuel (n / 36) (digit (n % 36) ∷ rest)
          (ground (arith, is_digit-digit (n % 36))))

value_from-zeros : (n : ℕ) (t : Str) → value_from 0 (zeros n t) ≡ value_from 0 t
unfolding zeros value_from digit_value
value_from-zeros zero t = refl
value_from-zeros (suc n) t = value_from-zeros n t

length-zeros : (n : ℕ) (t : Str) → length (zeros n t) ≡ n + length t
unfolding zeros
length-zeros zero t = omega arith
length-zeros (suc n) t = omega (arith, length-zeros n t)

all_digits-zeros : (n : ℕ) (t : Str) → all_digits t ≡ true → all_digits (zeros n t) ≡ true
unfolding zeros all_digits
all_digits-zeros zero t h = h
all_digits-zeros (suc n) t h = ground (arith, all_digits-zeros n t)

drop-zero : (n : ℕ) (t : Str) → n ≡ 0 → drop n t ≡ t
unfolding drop
drop-zero zero t h = refl
drop-zero (suc n) t h = absurd (omega arith)

length-base36 : (n : ℕ) → n < rank_space → length (base36 n) ≤ 8
unfolding base36
length-base36 n h = omega (arith, length-base36_digits (suc n) 7 n [] (omega arith) h)

-- A value below 36^8 is padded, and nothing is cut off.
format_rank_padded :
    (n : ℕ) → n < rank_space → format_rank n ≡ zeros (8 - length (base36 n)) (base36 n)
unfolding format_rank
format_rank_padded n h =
    drop-zero _ _
      (omega (arith, length-zeros (8 - length (base36 n)) (base36 n), length-base36 n h))

all_digits-base36 : (n : ℕ) → all_digits (base36 n) ≡ true
unfolding base36 all_digits
all_digits-base36 n = all_digits-base36_digits (suc n) n [] refl

pub format_rank-is_valid_rank : (n : ℕ) → n < rank_space → is_valid_rank (format_rank n) ≡ true
unfolding is_valid_rank
format_rank-is_valid_rank n h = rw (format_rank_padded n h) (
    ground (
      arith,
      length-zeros (8 - length (base36 n)) (base36 n),
      length-base36 n h,
      all_digits-zeros (8 - length (base36 n)) (base36 n),
      all_digits-base36 n,
    ))

-- For values below 36^8, reading a printed rank gives its value.
pub rank_value-format_rank : (n : ℕ) → n < rank_space → rank_value (format_rank n) ≡ n
unfolding rank_value
rank_value-format_rank n h = rw (format_rank_padded n h) (
    value_from-zeros (8 - length (base36 n)) (base36 n)
    ∙ unfold base36 value_from in value_from-base36_digits (suc n) n [] (omega arith))

all_digits-lacks :
    (s : ℕ) (cs : Str) → is_digit s ≡ false → all_digits cs ≡ true → lacks s cs ≡ true
unfolding all_digits
all_digits-lacks s [] h k = refl
all_digits-lacks s (c ∷ cs) h k =
    ground (arith, all_digits-lacks s cs h, ap is_digit {x = c} {y = s})

-- A valid rank is not empty, and holds no separator.
pub is_valid_rank-lacks :
    (rank : Str) → is_valid_rank rank ≡ true → (lacks b';' rank ≡ true) × (is_nonempty rank ≡ true)
unfolding is_valid_rank
is_valid_rank-lacks [] h = ground arith
is_valid_rank-lacks (c ∷ cs) h =
    (all_digits-lacks b';' (c ∷ cs) (unfold is_digit in refl) (ground arith), refl)
