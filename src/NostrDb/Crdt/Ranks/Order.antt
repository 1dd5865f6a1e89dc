-- ===== src/NostrDb/Crdt/Ranks/Order.antt =====
-- crdt.js: the order of ranks as texts (`compareByRank`) is the order of their values
-- (`hasStrictlyIncreasingRanks`).
use native.Mathlib.Nat.{pow-suc}
use mathlib.Core.Path.{ap₂, subst}
use billion.Common.{
  ℕ, ◌+◌, ◌*◌, ◌^◌, ◌≤◌, ◌<◌, ◌≡◌, refl, sym, ap, ◌∙◌, true, [], ◌∷◌, arith, ltb, leb, ◌==◌,
  if◌then◌else◌, length,
}
use billion.Common.Text.{Str, str_ge}
use billion.NostrDb.Crdt.Ranks.{
  digit_value, is_digit, all_digits, is_valid_rank, value_from, rank_value,
}

digit_value-lt : (c : ℕ) → is_digit c ≡ true → digit_value c < 36
unfolding is_digit digit_value
digit_value-lt c h = ground arith

digit_value_mono :
    (c d : ℕ)
    → is_digit c ≡ true
    → is_digit d ≡ true
    → (ltb c d ≡ ltb (digit_value c) (digit_value d))
      × ((c == d) ≡ (digit_value c == digit_value d))
unfolding is_digit digit_value
digit_value_mono c d h k = (ground arith, ground arith)

regroup : (a d p v : ℕ) → (a * 36 + d) * p + v ≡ a * (p * 36) + (d * p + v)
regroup a d p v = omega arith

-- The value of a text behind a prefix of value `acc`.
value_from-acc : (acc : ℕ) (t : Str) → value_from acc t ≡ acc * 36 ^ length t + value_from 0 t
unfolding value_from
value_from-acc acc [] = omega arith
value_from-acc acc (c ∷ t) =
    value_from-acc (acc * 36 + digit_value c) t
    ∙ regroup acc (digit_value c) (36 ^ length t) (value_from 0 t)
    ∙ ap₂ (λ p v. acc * p + v) (sym (pow-suc 36 (length t)))
        (sym (value_from-acc (0 * 36 + digit_value c) t ∙ omega arith))

value_from-cons :
    (c : ℕ) (t : Str) → value_from 0 (c ∷ t) ≡ digit_value c * 36 ^ length t + value_from 0 t
unfolding value_from
value_from-cons c t = value_from-acc (0 * 36 + digit_value c) t ∙ omega arith

value_from-lt : (t : Str) → all_digits t ≡ true → value_from 0 t < 36 ^ length t
unfolding value_from all_digits
value_from-lt [] h = omega arith
value_from-lt (c ∷ t) h =
    let digits : is_digit c ≡ true = ground arith in
    let rest : all_digits t ≡ true = ground arith in
    rw (value_from-cons c t)
      (grind (arith, digit_value-lt c digits, value_from-lt t rest, pow-suc 36 (length t)))

mul_gap : (d e p : ℕ) → d < e → d * p + p ≤ e * p
mul_gap d e p h = grind arith

-- d * p + v against e * p + w, for v and w below p.
compare_digits :
    (d e p v w : ℕ)
    → v < p
    → w < p
    → leb (e * p + w) (d * p + v) ≡ (if d == e then leb w v else ltb e d)
compare_digits d e p v w h k =
    ground (arith, mul_gap d e p, mul_gap e d p, ap (λ (x : ℕ). x * p) {x = d} {y = e})

-- On texts of digits of the same length, the order of texts is the order of values.
str_ge-value_from :
    (s t : Str)
    → length s ≡ length t
    → all_digits s ≡ true
    → all_digits t ≡ true
    → str_ge s t ≡ leb (value_from 0 t) (value_from 0 s)
unfolding str_ge all_digits
str_ge-value_from [] [] e h k = unfold value_from in refl
str_ge-value_from [] (d ∷ t) e h k = absurd (omega arith)
str_ge-value_from (c ∷ s) [] e h k = absurd (omega arith)
str_ge-value_from (c ∷ s) (d ∷ t) e h k =
    let same : length t ≡ length s = omega arith in
    let digits : (is_digit c ≡ true) × (is_digit d ≡ true) = ground arith in
    let rest : (all_digits s ≡ true) × (all_digits t ≡ true) = ground arith in
    let below : value_from 0 t < 36 ^ length s =
      subst (λ n. value_from 0 t < 36 ^ n) same (value_from-lt t rest.1) in
    let values : leb (value_from 0 (d ∷ t)) (value_from 0 (c ∷ s))
        ≡ leb (digit_value d * 36 ^ length s + value_from 0 t)
            (digit_value c * 36 ^ length s + value_from 0 s) =
      ap₂ leb (value_from-cons d t ∙ ap (λ n. digit_value d * 36 ^ n + value_from 0 t) same)
        (value_from-cons c s) in
    ground (
      arith,
      values,
      compare_digits (digit_value c) (digit_value d) (36 ^ length s) (value_from 0 s)
          (value_from 0 t) (value_from-lt s rest.0) below,
      digit_value_mono c d digits.0 digits.1,
      digit_value_mono d c digits.1 digits.0,
      str_ge-value_from s t (omega arith) rest.0 rest.1,
    )

-- Valid ranks compare as texts the way their values compare.
pub str_ge-rank_value :
    (a b : Str)
    → is_valid_rank a ≡ true
    → is_valid_rank b ≡ true
    → str_ge a b ≡ leb (rank_value b) (rank_value a)
unfolding is_valid_rank rank_value
str_ge-rank_value a b h k = str_ge-value_from a b (ground arith) (ground arith) (ground arith)
