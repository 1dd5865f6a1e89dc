-- ===== src/NostrDb/Cursor/Equivalence.antt =====
-- recovery-cursor.js: the chunks together pass the rows that one scan of the whole index would pass.
use mathlib.Core.Path.{subst}
use mathlib.Core.List.{append_assoc}
use billion.Common.{
  ℕ, zero, suc, ◌+◌, ◌-◌, ◌<◌, ◌≡◌, ◌≢◌, refl, sym, ap, ◌∙◌, Bool, ◌||◌, Option, none, some, List,
  [], ◌∷◌, ◌++◌, leb, ◌==◌, if◌then◌else◌, if_cases, length, length-append, count_if,
  count_if-append, All, arith,
}
use billion.NostrDb.Cursor.{
  Order, before, same, after, Row, Position, Chunk, Direction, next, prev, directed, reverse,
  or_else, compare_position, Status, finished, aborted, out_of_fuel, Total, position_of, no_rows,
  add_chunk, scan_rows, scan_resumed, scan_chunk, scan_loop, scan_recovery_cursor_chunks,
}
use billion.NostrDb.Cursor.Chunks.{needed, matches, Part, last, more, scan_rows-Part}

module _ {K V : Type 0} (order : Row K V → Position K → Order) where
  -- The rows as the cursor finds them, each at a place of its own.
  abbrev pub IsSorted : List (Row K V) → Type 0
  IsSorted [] = Unit
  IsSorted (r ∷ rs) = All (λ (s : Row K V). order r (position_of s) ≡ before) rs × IsSorted rs

  All-at :
      (P : Row K V → Type 0) (xs : List (Row K V)) (x : Row K V) (ys : List (Row K V))
      → All P (xs ++ x ∷ ys)
      → P x
  All-at P [] x ys h = h.0
  All-at P (z ∷ xs) x ys h = All-at P xs x ys h.1

  module _ (stored : V → Bool) (at_place : (r : Row K V) → order r (position_of r) ≡ same) where
    resumed_by : ℕ → Position K → Row K V → List (Row K V) → Order → Chunk K V
    resumed_by limit c r rs o = elim o [
      | before ↦ scan_resumed stored order limit c rs
      | same ↦ scan_rows stored limit 0 0 rs
      | after ↦ scan_rows stored limit 0 0 (r ∷ rs)
    ]

    -- The cursor passes the rows up to the checkpoint.
    scan_resumed-passes :
        (limit : ℕ) (xs : List (Row K V)) (x : Row K V) (ys : List (Row K V))
        → IsSorted (xs ++ x ∷ ys)
        → scan_resumed stored order limit (position_of x) (xs ++ x ∷ ys)
          ≡ scan_rows stored limit 0 0 ys
    unfolding scan_resumed resumed_by
    scan_resumed-passes limit [] x ys h = ap (resumed_by limit (position_of x) x ys) (at_place x)
    scan_resumed-passes limit (z ∷ xs) x ys h =
        ap (resumed_by limit (position_of x) z (xs ++ x ∷ ys))
          (All-at (λ (s : Row K V). order z (position_of s) ≡ before) xs x ys h.0)
        ∙ scan_resumed-passes limit xs x ys h.1

    module _ (is_aborted : ℕ → Bool) (limit : ℕ) (rows : List (Row K V))
        (sorted : IsSorted rows) where
      -- The rows after a checkpoint.
      data Resumes (resume : Option (Position K)) (ys : List (Row K V)) : Type 0 where
        starts : resume ≡ none → rows ≡ ys → Resumes resume ys
        goes_on :
            (xs : List (Row K V)) (x : Row K V)
            → resume ≡ some (position_of x)
            → rows ≡ xs ++ x ∷ ys
            → Resumes resume ys

      scan_chunk-Resumes :
          (missing : ℕ) (resume : Option (Position K)) (ys : List (Row K V))
          → Resumes resume ys
          → scan_chunk stored order missing resume rows ≡ scan_rows stored missing 0 0 ys
      unfolding scan_chunk
      scan_chunk-Resumes missing resume ys (starts e h) =
          ap (λ o. scan_chunk stored order missing o rows) e ∙ ap (scan_rows stored missing 0 0) h
      scan_chunk-Resumes missing resume ys (goes_on xs x e h) =
          ap (λ o. scan_chunk stored order missing o rows) e
          ∙ ap (scan_resumed stored order missing (position_of x)) h
          ∙ scan_resumed-passes missing xs x ys (subst IsSorted h sorted)

      Resumes-after :
          (resume onward : Option (Position K)) (ys : List (Row K V)) (zs : List (Row K V))
          (z : Row K V) (rest : List (Row K V))
          → Resumes resume ys
          → ys ≡ zs ++ z ∷ rest
          → onward ≡ some (position_of z)
          → Resumes onward rest
      Resumes-after resume onward ys zs z rest (starts e h) w n = goes_on zs z n (h ∙ w)
      Resumes-after resume onward ys zs z rest (goes_on xs x e h) w n =
          goes_on (xs ++ x ∷ zs) z n
            (h ∙ ap (λ l. xs ++ x ∷ l) w ∙ sym (append_assoc xs (x ∷ zs) (z ∷ rest)))

      -- How the loop ends, from a total and with the rows that it needs.
      data Ends (t : Total K V) (rest : List (Row K V)) (r : Status × Total K V) : Type 0 where
        was_aborted : r.0 ≡ aborted → Ends t rest r
        was_finished :
            r.0 ≡ finished
            → r.1.seen ≡ t.seen ++ rest
            → r.1.examined ≡ t.examined + length rest
            → r.1.matched ≡ t.matched + matches stored rest
            → Ends t rest r

      turn : ℕ → Option (Position K) → Total K V → Chunk K V → Status × Total K V
      turn rounds resume t c =
          if is_aborted t.chunks
          then (aborted, t)
          else if c.done || leb limit (add_chunk resume c t).matched
          then (finished, add_chunk resume c t)
          else scan_loop stored order is_aborted limit rows rounds c.resume (add_chunk resume c t)

      abbrev Loops : ℕ → Option (Position K) → Total K V → ℕ → List (Row K V) → Type 0
      Loops rounds resume t k ys =
          Ends t (needed stored (suc k) ys)
            (scan_loop stored order is_aborted limit rows rounds resume t)

      Ends-more :
          (resume : Option (Position K)) (c : Chunk K V) (t : Total K V) (rest : List (Row K V))
          (r : Status × Total K V)
          → c.examined ≡ length c.seen
          → c.matched ≡ matches stored c.seen
          → Ends (add_chunk resume c t) rest r
          → Ends t (c.seen ++ rest) r
      unfolding add_chunk
      Ends-more resume c t rest r he hm (was_aborted e) = was_aborted e
      Ends-more resume c t rest r he hm (was_finished e s x m) =
          was_finished e (s ∙ append_assoc t.seen c.seen rest)
            (omega (arith, x, he, length-append c.seen rest))
            (omega (arith, m, hm, count_if-append (λ (q : Row K V). stored q.value) c.seen rest))

      turn-Ends :
          (rounds k : ℕ) (resume : Option (Position K)) (t : Total K V) (ys : List (Row K V))
          (c : Chunk K V)
          → ((onward : Option (Position K)) (u : Total K V) (j : ℕ) (zs : List (Row K V))
              → Resumes onward zs
              → limit ≡ u.matched + suc j
              → length zs < rounds
              → Loops rounds onward u j zs)
          → Resumes resume ys
          → limit ≡ t.matched + suc k
          → length ys < suc rounds
          → Part stored (limit - t.matched) 0 0 k ys c
          → Ends t (needed stored (suc k) ys) (turn rounds resume t c)
      unfolding turn add_chunk
      turn-Ends rounds k resume t ys c ih at hl enough (last d s e m) =
          if_cases (Ends t (needed stored (suc k) ys)) (is_aborted t.chunks) _ _
            (λ g. was_aborted refl)
            (λ g.
              if_cases (Ends t (needed stored (suc k) ys))
                (c.done || leb limit (t.matched + c.matched)) _ _
                (λ h.
                  was_finished refl (ap (λ l. t.seen ++ l) s) (omega (arith, e, ap length s))
                    (omega (arith, m, ap (matches stored) s)))
                (λ h. absurd (ground (arith, h, d))))
      turn-Ends rounds k resume t ys c ih at hl enough (more xs x zs j d s p w n l e m) =
          if_cases (Ends t (needed stored (suc k) ys)) (is_aborted t.chunks) _ _
            (λ g. was_aborted refl)
            (λ g.
              if_cases (Ends t (needed stored (suc k) ys))
                (c.done || leb limit (t.matched + c.matched)) _ _
                (λ h. absurd (ground (arith, h, d, l, hl)))
                (λ h.
                  subst
                    (λ l. Ends t l (
                      scan_loop stored order is_aborted limit rows rounds c.resume
                        (add_chunk resume c t)))
                    (sym n)
                    (Ends-more resume c t (needed stored (suc j) zs) _ (omega (arith, e))
                      (omega (arith, m))
                      (ih c.resume (add_chunk resume c t) j zs
                        (Resumes-after resume c.resume ys xs x zs at w p) (omega (arith, l, hl))
                        (omega (arith, enough, ap length w, length-append xs (x ∷ zs)))))))

      scan_loop-Ends :
          (rounds k : ℕ) (resume : Option (Position K)) (t : Total K V) (ys : List (Row K V))
          → Resumes resume ys
          → limit ≡ t.matched + suc k
          → length ys < rounds
          → Loops rounds resume t k ys
      unfolding scan_loop turn
      scan_loop-Ends zero k resume t ys at hl enough = absurd (omega (arith, enough))
      scan_loop-Ends (suc rounds) k resume t ys at hl enough =
          let part : Part stored (limit - t.matched) 0 0 k ys
              (scan_rows stored (limit - t.matched) 0 0 ys) =
            scan_rows-Part stored (limit - t.matched) 0 0 k ys (omega (arith, hl)) (omega arith) in
          turn-Ends rounds k resume t ys _ (λ onward u j zs. scan_loop-Ends rounds j onward u zs) at
            hl enough
            (subst (Part stored (limit - t.matched) 0 0 k ys)
              (sym (scan_chunk-Resumes (limit - t.matched) resume ys at)) part)

    scan-Ends :
        (is_aborted : ℕ → Bool) (limit : ℕ) (rows : List (Row K V)) (sorted : IsSorted rows)
        → Ends is_aborted limit rows sorted no_rows
            (needed stored limit rows)
            (scan_recovery_cursor_chunks stored order is_aborted limit rows)
    unfolding scan_recovery_cursor_chunks no_rows needed count_if
    scan-Ends is_aborted zero rows sorted = was_finished refl refl (omega arith) (omega arith)
    scan-Ends is_aborted (suc k) rows sorted =
        if_cases (Ends is_aborted (suc k) rows sorted no_rows (needed stored (suc k) rows))
          (suc k == 0) _ _ (λ e. absurd (ground (arith, e)))
          (λ e.
            scan_loop-Ends is_aborted (suc k) rows sorted (suc (length rows)) k none no_rows rows
              (starts refl refl) (omega arith) (omega arith))

directed_same : (direction : Direction) → directed direction same ≡ same
unfolding directed reverse
directed_same next = refl
directed_same prev = refl

module _ {K V : Type 0} (compare : K → K → Order) (compare_same : (k : K) → compare k k ≡ same)
    (direction : Direction) (stored : V → Bool) (is_aborted : ℕ → Bool) where
  abbrev order : Row K V → Position K → Order
  order r c = compare_position compare direction r c

  at_place : (r : Row K V) → order r (position_of r) ≡ same
  unfolding compare_position or_else position_of
  at_place r =
      ap (λ o. directed direction (or_else o (compare r.primary_key r.primary_key)))
        (compare_same r.key)
      ∙ ap (directed direction) (compare_same r.primary_key)
      ∙ directed_same direction

  abbrev scan : ℕ → List (Row K V) → Status × Total K V
  scan limit rows = scan_recovery_cursor_chunks stored order is_aborted limit rows

  -- For an index whose rows stand in the order of the cursor, each at a place of its own, where a key
  -- compares as the same as itself: when the scan in chunks finishes, the rows that it passed to `onStored`
  -- are those of the index up to the one that is the last match of the limit, each once and in order; and it
  -- counts those rows, and the matches among them.
  pub scan-needed :
      (limit : ℕ) (rows : List (Row K V))
      → IsSorted order rows
      → (scan limit rows).0 ≡ finished
      → ((scan limit rows).1.seen ≡ needed stored limit rows)
        × ((scan limit rows).1.examined ≡ length (needed stored limit rows))
        × ((scan limit rows).1.matched ≡ matches stored (needed stored limit rows))
  unfolding no_rows
  scan-needed limit rows sorted done =
      elim (scan-Ends order stored at_place is_aborted limit rows sorted) [
        | was_aborted e ↦ absurd (ground (arith, e, done))
        | was_finished e s x m ↦ (s, omega (arith, x), omega (arith, m))
      ]

  -- For an index whose rows stand in the order of the cursor, each at a place of its own, where a key
  -- compares as the same as itself: the scan in chunks ends, finished or aborted, within one more round than
  -- the index has rows.
  pub scan-Stops :
      (limit : ℕ) (rows : List (Row K V)) → IsSorted order rows → (scan limit rows).0 ≢ out_of_fuel
  scan-Stops limit rows sorted =
      elim (scan-Ends order stored at_place is_aborted limit rows sorted) [
        | was_aborted e ↦ λ h. ground (arith, e, h)
        | was_finished e s x m ↦ λ h. ground (arith, e, h)
      ]
