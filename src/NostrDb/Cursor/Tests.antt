-- ===== src/NostrDb/Cursor/Tests.antt =====
-- recovery-cursor.js: scans of an index of numbers, and the theorems about them at a concrete input.
use billion.Common.{
  ℕ, zero, suc, ◌+◌, ◌%◌, ◌≡◌, ◌<◌, ◌≢◌, refl, ap, ◌∙◌, Bool, false, List, [], ◌∷◌, ltb, ◌==◌,
  if◌then◌else◌, if_true, if_false, length, All, arith,
}
use billion.NostrDb.Cursor.{
  Order, before, same, after, next, directed, or_else, Row, Position, position_of, compare_position,
  Status, Total, finished, out_of_fuel, scan_recovery_cursor_chunks, scan_loop, scan_chunk,
  scan_resumed, scan_rows, matched_by, add_chunk, no_rows, is_resumed,
}
use billion.NostrDb.Cursor.Chunks.{needed, matches}
use billion.NostrDb.Cursor.Equivalence.{IsSorted, scan-needed, scan-Stops}

compare : ℕ → ℕ → Order
compare m n = if ltb m n then before else if ltb n m then after else same

compare_same : (n : ℕ) → compare n n ≡ same
unfolding compare
compare_same n =
    if_false {b = ltb n n} before _ (ground arith)
    ∙ if_false {b = ltb n n} after same (ground arith)

abbrev row : ℕ → Row ℕ ℕ
row n = record { key = n; primary_key = 0; value = n }

abbrev rows_from : ℕ → ℕ → List (Row ℕ ℕ)
rows_from start zero = []
rows_from start (suc n) = row start ∷ rows_from (start + 1) n

abbrev order : Row ℕ ℕ → Position ℕ → Order
order r c = compare_position compare next r c

rows_from-All :
    (a b n : ℕ)
    → a < b
    → All (λ (s : Row ℕ ℕ). order (row a) (position_of s) ≡ before) (rows_from b n)
unfolding compare_position directed or_else position_of compare
rows_from-All a b zero h = tt
rows_from-All a b (suc n) h = (
  ap (λ o. or_else o (compare 0 0))
      (if_true {b = ltb a b} before (if ltb b a then after else same) (ground (arith, h))),
  rows_from-All a (b + 1) n (omega (arith, h)),
)

rows_from-IsSorted : (start n : ℕ) → IsSorted order (rows_from start n)
rows_from-IsSorted start zero = tt
rows_from-IsSorted start (suc n) =
    (rows_from-All start (start + 1) n (omega arith), rows_from-IsSorted (start + 1) n)

-- Every other number matches.
abbrev is_even : ℕ → Bool
is_even n = n % 2 == 0

abbrev never : ℕ → Bool
never n = false

-- Two chunks.
abbrev run : Status × Total ℕ ℕ
run = scan_recovery_cursor_chunks is_even order never 33 (rows_from 0 70)

two_chunks : run.0 ≡ finished
unfolding scan_recovery_cursor_chunks scan_loop scan_chunk scan_resumed scan_rows matched_by
    add_chunk no_rows is_resumed compare_position directed or_else compare position_of
two_chunks = refl

two_chunks_examined : run.1.examined ≡ 65
unfolding scan_recovery_cursor_chunks scan_loop scan_chunk scan_resumed scan_rows matched_by
    add_chunk no_rows is_resumed compare_position directed or_else compare position_of
two_chunks_examined = refl

scan-needed_example :
    (run.1.seen ≡ needed is_even 33 (rows_from 0 70))
    × (run.1.examined ≡ length (needed is_even 33 (rows_from 0 70)))
    × (run.1.matched ≡ matches is_even (needed is_even 33 (rows_from 0 70)))
scan-needed_example =
    scan-needed compare compare_same next is_even never 33 (rows_from 0 70)
      (rows_from-IsSorted 0 70) two_chunks

scan-Stops_example : run.0 ≢ out_of_fuel
scan-Stops_example =
    scan-Stops compare compare_same next is_even never 33 (rows_from 0 70) (rows_from-IsSorted 0 70)
