-- ===== src/Accounts/Coverage.antt =====
-- src/services/account-event-coverage.js, `mergeCoverage`, `missingCoverage` and `sameCoverage`, and the
-- test of intervals in `invalidAccountCoverageKeys` (src/services/storage-audit/audit.js). A range is a
-- pair of seconds with both ends in it; `validateRange` lets no other numbers than natural safe integers in.
pub mod Faults
pub mod Merging
pub mod Missing
pub mod Records
mod Tests
use mathlib.Core.List.{reverse}
use billion.Common.{
  ℕ, ◌+◌, ◌-◌, max, Bool, true, false, ◌&&◌, ◌||◌, not, List, [], ◌∷◌, ◌++◌, ltb, leb, ◌==◌,
  if◌then◌else◌,
}
use billion.Common.Decimal.{max_safe_integer}
use billion.Common.Sorting.{sort}

abbrev pub Range : Type 0
Range = ℕ × ℕ

abbrev pub starts_no_later : Range → Range → Bool
starts_no_later a b = leb a.0 b.0

-- The loop of `mergeCoverage`, with `result.at(-1)` apart.
pub merge_from : Range → List Range → List Range
merge_from last [] = last ∷ []
merge_from last (r ∷ rest) = elim (leb r.0 (last.1 + 1)) [
  | true ↦ merge_from (last.0, max last.1 r.1) rest
  | false ↦ last ∷ merge_from r rest
]

merge_sorted : List Range → List Range
unfolding merge_from
merge_sorted [] = []
merge_sorted (r ∷ rest) = merge_from r rest

pub merge_coverage : List Range → List Range
unfolding merge_sorted
merge_coverage ranges = merge_sorted (sort starts_no_later ranges)

-- What is left behind the last interval.
rest_of : ℕ → ℕ → List Range
rest_of since until = if leb since until then (since, until) ∷ [] else []

gap_before : ℕ → ℕ → List Range
gap_before since start = if ltb since start then (since, start - 1) ∷ [] else []

-- The loop of `missingCoverage`: the gaps in ascending order.
pub gaps : List Range → ℕ → ℕ → List Range
unfolding rest_of gap_before
gaps [] since until = rest_of since until
gaps (r ∷ rest) since until = elim (ltb r.1 since) [
  | true ↦ gaps rest since until
  | false ↦ elim (ltb until r.0) [
    | true ↦ rest_of since until
    | false ↦ gap_before since r.0 ++ gaps rest (max since (r.1 + 1)) until
  ]
]

pub missing_coverage : List Range → ℕ → ℕ → List Range
missing_coverage intervals since until = reverse (gaps intervals since until)

-- `sameCoverage`
pub same_coverage : List Range → List Range → Bool
same_coverage [] [] = true
same_coverage [] (b ∷ bs) = false
same_coverage (a ∷ as_) [] = false
same_coverage (a ∷ as_) (b ∷ bs) = a.0 == b.0 && a.1 == b.1 && same_coverage as_ bs

-- The ranges that `invalidAccountCoverageKeys` finds fault with, where `floor` is `previous + 2`.
-- `Number.isSafeInteger` of a natural number.
pub is_safe_integer : ℕ → Bool
is_safe_integer n = leb n max_safe_integer

pub bad_from : ℕ → List Range → Bool
unfolding is_safe_integer
bad_from floor [] = false
bad_from floor (r ∷ rest) =
    not (is_safe_integer r.0)
    || not (is_safe_integer r.1)
    || ltb r.1 r.0
    || ltb r.0 floor
    || bad_from (r.1 + 2) rest

pub has_bad_range : List Range → Bool
unfolding bad_from
has_bad_range ranges = bad_from 0 ranges

pub contains : Range → ℕ → Bool
contains r t = leb r.0 t && leb t r.1

-- Whether a second lies in one of the ranges.
pub covers : List Range → ℕ → Bool
unfolding contains
covers [] t = false
covers (r ∷ rest) t = contains r t || covers rest t
