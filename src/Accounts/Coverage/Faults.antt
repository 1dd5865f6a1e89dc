-- ===== src/Accounts/Coverage/Faults.antt =====
-- account-event-coverage.js and storage-audit/audit.js: when the audit finds no fault with ranges.
use billion.Common.{
  ℕ, ◌≤◌, ◌+◌, ◌≡◌, refl, inl, inr, max, false, List, [], ◌∷◌, arith, leb, Bool-cases, All,
}
use billion.Common.Decimal.{max_safe_integer}
use billion.Common.Sorting.{sort, All-sort}
use billion.Accounts.Coverage.{
  Range, starts_no_later, is_safe_integer, bad_from, has_bad_range, merge_from, merge_sorted,
  merge_coverage,
}
use billion.Accounts.Coverage.Merging.{Proper, unordered_from, unordered_from-merge_coverage}

-- Each range ends at a safe integer.
abbrev pub Safe : List Range → Type 0
Safe = All (λ r. r.1 ≤ max_safe_integer)

unordered_from-bad_from :
    (floor : ℕ) (ranges : List Range)
    → bad_from floor ranges ≡ false
    → unordered_from floor ranges ≡ false
unfolding bad_from unordered_from
unordered_from-bad_from floor [] h = refl
unordered_from-bad_from floor (r ∷ rest) h = ground (arith, unordered_from-bad_from (r.1 + 2) rest)

Proper-bad_from : (floor : ℕ) (ranges : List Range) → bad_from floor ranges ≡ false → Proper ranges
unfolding bad_from
Proper-bad_from floor [] h = tt
Proper-bad_from floor (r ∷ rest) h = (ground arith, Proper-bad_from (r.1 + 2) rest (ground arith))

Safe-bad_from : (floor : ℕ) (ranges : List Range) → bad_from floor ranges ≡ false → Safe ranges
unfolding bad_from is_safe_integer
Safe-bad_from floor [] h = tt
Safe-bad_from floor (r ∷ rest) h = (ground arith, Safe-bad_from (r.1 + 2) rest (ground arith))

bad_from-unordered_from :
    (floor : ℕ) (ranges : List Range)
    → unordered_from floor ranges ≡ false
    → Safe ranges
    → bad_from floor ranges ≡ false
unfolding bad_from unordered_from is_safe_integer
bad_from-unordered_from floor [] h s = refl
bad_from-unordered_from floor (r ∷ rest) h s =
    ground (arith, s.0, bad_from-unordered_from (r.1 + 2) rest (ground arith) s.1)

-- Ranges that the audit finds no fault with are ascending.
pub unordered_from-has_bad_range :
    (ranges : List Range) → has_bad_range ranges ≡ false → unordered_from 0 ranges ≡ false
unfolding has_bad_range
unordered_from-has_bad_range ranges h = unordered_from-bad_from 0 ranges h

pub Proper-has_bad_range : (ranges : List Range) → has_bad_range ranges ≡ false → Proper ranges
unfolding has_bad_range
Proper-has_bad_range ranges h = Proper-bad_from 0 ranges h

pub Safe-has_bad_range : (ranges : List Range) → has_bad_range ranges ≡ false → Safe ranges
unfolding has_bad_range
Safe-has_bad_range ranges h = Safe-bad_from 0 ranges h

Safe-merge_from :
    (last : Range) (rest : List Range) → Safe (last ∷ rest) → Safe (merge_from last rest)
unfolding merge_from
Safe-merge_from last [] s = s
Safe-merge_from last (r ∷ rest) s = elim (Bool-cases (leb r.0 (last.1 + 1))) [
  | inl e ↦
      rw (e, merge_from)
        (Safe-merge_from (last.0, max last.1 r.1) rest (ground (arith, s.0, s.1.0), s.1.1))
  | inr e ↦ rw (e, merge_from) (s.0, Safe-merge_from r rest s.1)
]

Safe-merge_sorted : (ranges : List Range) → Safe ranges → Safe (merge_sorted ranges)
unfolding merge_sorted
Safe-merge_sorted [] s = tt
Safe-merge_sorted (r ∷ rest) s = Safe-merge_from r rest s

-- The audit finds no fault with what `mergeCoverage` makes of ranges that end no earlier than they
-- start, at a safe integer.
pub has_bad_range-merge_coverage :
    (ranges : List Range)
    → Proper ranges
    → Safe ranges
    → has_bad_range (merge_coverage ranges) ≡ false
unfolding has_bad_range merge_coverage
has_bad_range-merge_coverage ranges p s =
    bad_from-unordered_from 0 (merge_coverage ranges) (unordered_from-merge_coverage ranges p) (
      Safe-merge_sorted (sort starts_no_later ranges)
        (All-sort starts_no_later (λ (r : Range). r.1 ≤ max_safe_integer) ranges s))
