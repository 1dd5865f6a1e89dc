-- ===== src/NostrDb/Crdt/Ranks.antt =====
-- crdt.js, the order ranks: eight base-36 digits, as texts, with their values and their spacing.
pub mod Format
pub mod Spacing
pub mod Order
use billion.Common.{
  ℕ, zero, suc, ◌+◌, ◌-◌, ◌*◌, ◌/◌, ◌%◌, ◌^◌, ◌≤◌, ◌<◌, ◌≡◌, refl, ◌∙◌, ap, inl, inr, Bool, true,
  false, ◌&&◌, ◌||◌, Option, none, some, List, [], ◌∷◌, ◌++◌, arith, ltb, leb, ◌==◌, if◌then◌else◌,
  length, length-append, Bool-cases, if_cases,
}
use billion.Common.Text.{Str, str_ge}

abbrev pub rank_space : ℕ
rank_space = 36 ^ 8

digit : ℕ → ℕ
digit d = if ltb d 10 then b'0' + d else b'a' + (d - 10)

-- `parseInt(char, 36)`
digit_value : ℕ → ℕ
digit_value c = if leb c b'9' then c - b'0' else c - b'a' + 10

is_digit : ℕ → Bool
is_digit c = (leb b'0' c && leb c b'9') || (leb b'a' c && leb c b'z')

all_digits : Str → Bool
unfolding is_digit
all_digits [] = true
all_digits (c ∷ cs) = is_digit c && all_digits cs

-- `/^[0-9a-z]{8}$/`
unfoldable pub is_valid_rank : Str → Bool
unfolding all_digits
is_valid_rank rank = length rank == 8 && all_digits rank

base36_digits : ℕ → ℕ → Str → Str
unfolding digit
base36_digits zero n rest = rest
base36_digits (suc fuel) n rest =
    let longer = base36_digits fuel (n / 36) (digit (n % 36) ∷ rest) in
    if ltb n 36 then digit n ∷ rest else longer

-- `value.toString(36)`; the fuel exceeds the number of digits.
base36 : ℕ → Str
unfolding base36_digits
base36 n = base36_digits (suc n) n []

zeros : ℕ → Str → Str
zeros zero text = text
zeros (suc n) text = b'0' ∷ zeros n text

drop : ℕ → Str → Str
drop zero text = text
drop (suc n) [] = []
drop (suc n) (c ∷ cs) = drop n cs

-- `padStart(8, '0').slice(-8)`
unfoldable pub format_rank : ℕ → Str
unfolding base36 zeros drop
format_rank n =
    let padded = zeros (8 - length (base36 n)) (base36 n) in drop (length padded - 8) padded

value_from : ℕ → Str → ℕ
unfolding digit_value
value_from value [] = value
value_from value (c ∷ cs) = value_from (value * 36 + digit_value c) cs

unfoldable pub rank_value : Str → ℕ
unfolding value_from
rank_value rank = value_from 0 rank

rebalance_from : ℕ → ℕ → ℕ → List Str
rebalance_from step index zero = []
rebalance_from step index (suc n) =
    format_rank (step * (index + 1)) ∷ rebalance_from step (index + 1) n

unfoldable pub rebalance_ranks : ℕ → List Str
unfolding rebalance_from
rebalance_ranks count = rebalance_from (rank_space / (count + 1)) 0 count

increasing_from : Option ℕ → List (Option Str) → Bool
increasing_from previous [] = true
increasing_from previous (none ∷ ranks) = false
increasing_from none (some rank ∷ ranks) =
    is_valid_rank rank && increasing_from (some (rank_value rank)) ranks
increasing_from (some p) (some rank ∷ ranks) =
    (is_valid_rank rank && ltb p (rank_value rank))
    && increasing_from (some (rank_value rank)) ranks

-- `hasStrictlyIncreasingRanks`, on the ranks of the actions.
unfoldable pub has_strictly_increasing_ranks : List (Option Str) → Bool
unfolding increasing_from
has_strictly_increasing_ranks ranks = increasing_from none ranks

rank_test :
    (format_rank 0 ≡ b'0' ∷ b'0' ∷ b'0' ∷ b'0' ∷ b'0' ∷ b'0' ∷ b'0' ∷ b'0' ∷ [])
    × (rank_value (format_rank 78364164095) ≡ 78364164095)
unfolding format_rank rank_value
rank_test = (refl, refl)
