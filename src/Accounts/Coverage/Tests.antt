-- ===== src/Accounts/Coverage/Tests.antt =====
-- Coverage at concrete inputs, and a theorem about it.
use billion.Common.{◌≡◌, refl, true, false, List, [], ◌∷◌, ◌++◌}
use billion.Common.Sorting.{sort, insert}
use billion.Accounts.Coverage.{
  Range, merge_coverage, merge_sorted, merge_from, missing_coverage, gaps, gap_before, rest_of,
  has_bad_range, bad_from, is_safe_integer,
}
use billion.Accounts.Coverage.Missing.{missing_coverage-merge_coverage}

abbrev pieces : List Range
pieces = (40, 50) ∷ (0, 9) ∷ (10, 12) ∷ (45, 60) ∷ []

merged : merge_coverage pieces ≡ (0, 12) ∷ (40, 60) ∷ []
unfolding merge_coverage merge_sorted merge_from sort insert
merged = refl

missing : missing_coverage ((0, 12) ∷ (40, 60) ∷ []) 5 99 ≡ (61, 99) ∷ (13, 39) ∷ []
unfolding missing_coverage gaps gap_before rest_of
missing = refl

sound : has_bad_range ((0, 12) ∷ (40, 60) ∷ []) ≡ false
unfolding has_bad_range bad_from is_safe_integer
sound = refl

-- An interval that ends above the safe integers is a fault.
unsafe : has_bad_range ((0, 9007199254740992) ∷ []) ≡ true
unfolding has_bad_range bad_from is_safe_integer
unsafe = refl

missing_coverage-merge_coverage_example :
    missing_coverage
      (merge_coverage
        (((0, 12) ∷ (40, 60) ∷ []) ++ missing_coverage ((0, 12) ∷ (40, 60) ∷ []) 5 99))
      5
      99
    ≡ []
missing_coverage-merge_coverage_example =
    missing_coverage-merge_coverage ((0, 12) ∷ (40, 60) ∷ []) 5 99 sound
