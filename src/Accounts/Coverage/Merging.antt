-- ===== src/Accounts/Coverage/Merging.antt =====
-- account-event-coverage.js: `mergeCoverage` covers what its ranges cover, in separate ascending ranges.
use billion.Common.{
  ℕ, ◌+◌, Bool, ◌≤◌, ◌≡◌, refl, sym, ap, ◌∙◌, inl, inr, max, true, false, ◌||◌, List, [], ◌∷◌,
  arith, ltb, leb, All, Bool-cases, leb→le, count_if,
}
use billion.Common.Sorting.{sort, Sorted, sort-Sorted, count_if-sort, All-sort}
use billion.Accounts.Coverage.{
  Range, starts_no_later, merge_from, merge_sorted, merge_coverage, contains, covers,
}

-- Each range ends no earlier than it starts.
abbrev pub Proper : List Range → Type 0
Proper = All (λ r. r.0 ≤ r.1)

-- Whether a range ends before it starts, or starts below the floor or within a second of the range
-- before it.
unfoldable pub unordered_from : ℕ → List Range → Bool
unordered_from floor [] = false
unordered_from floor (r ∷ rest) = ltb r.1 r.0 || ltb r.0 floor || unordered_from (r.1 + 2) rest

covers-join :
    (last r : Range) (t : ℕ)
    → last.0 ≤ r.0
    → r.0 ≤ last.1 + 1
    → contains (last.0, max last.1 r.1) t ≡ (contains last t || contains r t)
unfolding contains
covers-join last r t low near = ground arith

-- A range in front that starts earlier may take the first one's place.
Sorted-replace :
    (first r : Range) (rest : List Range)
    → first.0 ≤ r.0
    → Sorted starts_no_later (r ∷ rest)
    → Sorted starts_no_later (first ∷ rest)
Sorted-replace first r [] low h = tt
Sorted-replace first r (q ∷ rest) low h = (ground (arith, h.0), h.1)

covers-merge_from :
    (last : Range) (rest : List Range) (t : ℕ)
    → Sorted starts_no_later (last ∷ rest)
    → covers (merge_from last rest) t ≡ (contains last t || covers rest t)
unfolding merge_from covers
covers-merge_from last [] t h = refl
covers-merge_from last (r ∷ rest) t h = elim (Bool-cases (leb r.0 (last.1 + 1))) [
  | inl e ↦
      rw (e, merge_from)
        (ground (
          arith,
          covers-merge_from (last.0, max last.1 r.1) rest t
              (Sorted-replace (last.0, max last.1 r.1) r rest (leb→le last.0 r.0 h.0) h.1),
          covers-join last r t (leb→le last.0 r.0 h.0) (leb→le r.0 (last.1 + 1) e),
        ))
  | inr e ↦ rw (e, merge_from) (ground (arith, covers-merge_from r rest t h.1))
]

-- Whether a second lies in a range of a sorted list.
covers-count :
    (ranges : List Range) (t : ℕ) → covers ranges t ≡ ltb 0 (count_if (λ r. contains r t) ranges)
unfolding covers count_if
covers-count [] t = refl
covers-count (r ∷ rest) t = ground (arith, covers-count rest t)

-- The order of the ranges does not matter.
covers-sort :
    (ranges : List Range) (t : ℕ) → covers (sort starts_no_later ranges) t ≡ covers ranges t
covers-sort ranges t =
    covers-count (sort starts_no_later ranges) t
    ∙ ap (ltb 0) (count_if-sort starts_no_later (λ r. contains r t) ranges)
    ∙ sym (covers-count ranges t)

covers-merge_sorted :
    (ranges : List Range) (t : ℕ)
    → Sorted starts_no_later ranges
    → covers (merge_sorted ranges) t ≡ covers ranges t
unfolding merge_sorted covers
covers-merge_sorted [] t h = refl
covers-merge_sorted (r ∷ rest) t h = covers-merge_from r rest t h

total : (a b : Range) → starts_no_later a b ≡ false → starts_no_later b a ≡ true
total a b h = ground arith

-- `mergeCoverage` covers exactly the seconds that its ranges cover.
pub covers-merge_coverage :
    (ranges : List Range) (t : ℕ) → covers (merge_coverage ranges) t ≡ covers ranges t
unfolding merge_coverage
covers-merge_coverage ranges t =
    covers-merge_sorted (sort starts_no_later ranges) t (sort-Sorted starts_no_later total ranges)
    ∙ covers-sort ranges t

unordered_from-merge_from :
    (floor : ℕ) (last : Range) (rest : List Range)
    → floor ≤ last.0
    → Sorted starts_no_later (last ∷ rest)
    → Proper (last ∷ rest)
    → unordered_from floor (merge_from last rest) ≡ false
unfolding merge_from unordered_from
unordered_from-merge_from floor last [] low h p = ground (arith, p.0)
unordered_from-merge_from floor last (r ∷ rest) low h p = elim (Bool-cases (leb r.0 (last.1 + 1))) [
  | inl e ↦
      rw (e, merge_from)
        (unordered_from-merge_from floor (last.0, max last.1 r.1) rest low
          (Sorted-replace (last.0, max last.1 r.1) r rest (leb→le last.0 r.0 h.0) h.1)
          (omega (arith, p.0), p.1.1))
  | inr e ↦
      rw (e, merge_from)
        (ground (arith, p.0, unordered_from-merge_from (last.1 + 2) r rest (ground arith) h.1 p.1))
]

unordered_from-merge_sorted :
    (ranges : List Range)
    → Sorted starts_no_later ranges
    → Proper ranges
    → unordered_from 0 (merge_sorted ranges) ≡ false
unfolding merge_sorted unordered_from
unordered_from-merge_sorted [] h p = refl
unordered_from-merge_sorted (r ∷ rest) h p = unordered_from-merge_from 0 r rest (omega arith) h p

-- What `mergeCoverage` makes of ranges that end no earlier than they start is ascending, with at least
-- one second between any two.
pub unordered_from-merge_coverage :
    (ranges : List Range) → Proper ranges → unordered_from 0 (merge_coverage ranges) ≡ false
unfolding merge_coverage
unordered_from-merge_coverage ranges p =
    unordered_from-merge_sorted (sort starts_no_later ranges)
      (sort-Sorted starts_no_later total ranges)
      (All-sort starts_no_later (λ (r : Range). r.0 ≤ r.1) ranges p)
