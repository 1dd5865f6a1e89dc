-- ===== src/Accounts/Coverage/Missing.antt =====
-- account-event-coverage.js: `missingCoverage` covers what the intervals leave of a range, latest first.
use mathlib.Core.Path.{subst}
use mathlib.Core.List.{reverse, reverse-cons}
use billion.Common.{
  ℕ, ◌+◌, ◌-◌, ◌≤◌, ◌<◌, ◌≡◌, refl, sym, ap, ◌∙◌, inl, inr, max, false, ◌&&◌, ◌||◌, not, List, [],
  ◌∷◌, ◌++◌, arith, ltb, leb, Bool-cases, All-append, if_cases, leb→le, ltb→lt,
}
use billion.Accounts.Coverage.Faults.{unordered_from-has_bad_range, Proper-has_bad_range}
use billion.Accounts.Coverage.Merging.{
  Proper, unordered_from, covers-merge_coverage, unordered_from-merge_coverage,
}
use billion.Accounts.Coverage.{
  Range, gaps, gap_before, rest_of, missing_coverage, merge_coverage, has_bad_range, contains,
  covers,
}

pub covers-append :
    (xs ys : List Range) (t : ℕ) → covers (xs ++ ys) t ≡ (covers xs t || covers ys t)
unfolding covers
covers-append [] ys t = refl
covers-append (x ∷ xs) ys t = ground (arith, covers-append xs ys t)

covers-rest_of : (since until t : ℕ) → covers (rest_of since until) t ≡ (leb since t && leb t until)
unfolding rest_of covers contains
covers-rest_of since until t = ground arith

covers-gap_before :
    (since start t : ℕ) → covers (gap_before since start) t ≡ (leb since t && ltb t start)
unfolding gap_before covers contains
covers-gap_before since start t = ground arith

-- Ranges above a floor do not cover what lies below it.
covers-below :
    (floor t : ℕ) (ranges : List Range)
    → unordered_from floor ranges ≡ false
    → t < floor
    → covers ranges t ≡ false
unfolding unordered_from covers contains
covers-below floor t [] h k = refl
covers-below floor t (r ∷ rest) h k = ground (arith, covers-below (r.1 + 2) t rest)

covers-gaps :
    (floor : ℕ) (intervals : List Range) (since until t : ℕ)
    → unordered_from floor intervals ≡ false
    → covers (gaps intervals since until) t
      ≡ (leb since t && leb t until && not (covers intervals t))
unfolding gaps covers unordered_from contains
covers-gaps floor [] since until t h = ground (arith, covers-rest_of since until t)
covers-gaps floor (r ∷ rest) since until t h = elim (Bool-cases (ltb r.1 since)) [
  | inl e ↦ rw (e, gaps) (ground (arith, covers-gaps (r.1 + 2) rest since until t))
  | inr e ↦ elim (Bool-cases (ltb until r.0)) [
    | inl f ↦
        rw (e, f, gaps)
          (ground (arith, covers-rest_of since until t, covers-below (r.1 + 2) t rest))
    | inr f ↦
        rw (e, f, gaps)
          (ground (
            arith,
            covers-append (gap_before since r.0) (gaps rest (max since (r.1 + 1)) until) t,
            covers-gap_before since r.0 t,
            covers-gaps (r.1 + 2) rest (max since (r.1 + 1)) until t,
            covers-below (r.1 + 2) t rest,
          ))
  ]
]

covers-reverse : (ranges : List Range) (t : ℕ) → covers (reverse ranges) t ≡ covers ranges t
unfolding covers
covers-reverse [] t = refl
covers-reverse (r ∷ rest) t =
    ap (λ l. covers l t) (reverse-cons r rest)
    ∙ covers-append (reverse rest) (r ∷ []) t
    ∙ ground (arith, covers-reverse rest t)

covers-missing :
    (intervals : List Range) (since until t : ℕ)
    → unordered_from 0 intervals ≡ false
    → covers (missing_coverage intervals since until) t
      ≡ (leb since t && leb t until && not (covers intervals t))
unfolding missing_coverage
covers-missing intervals since until t h =
    covers-reverse (gaps intervals since until) t ∙ covers-gaps 0 intervals since until t h

-- For intervals that the audit finds no fault with, `missingCoverage` covers exactly the seconds of the
-- range that no interval covers.
pub covers-missing_coverage :
    (intervals : List Range) (since until t : ℕ)
    → has_bad_range intervals ≡ false
    → covers (missing_coverage intervals since until) t
      ≡ (leb since t && leb t until && not (covers intervals t))
covers-missing_coverage intervals since until t h =
    covers-missing intervals since until t (unordered_from-has_bad_range intervals h)

Proper-gaps : (intervals : List Range) (since until : ℕ) → Proper (gaps intervals since until)
unfolding gaps rest_of gap_before
Proper-gaps [] since until =
    if_cases Proper (leb since until) _ _ (λ e. (leb→le since until e, tt)) (λ e. tt)
Proper-gaps (r ∷ rest) since until = elim (Bool-cases (ltb r.1 since)) [
  | inl e ↦ rw (e, gaps) (Proper-gaps rest since until)
  | inr e ↦ elim (Bool-cases (ltb until r.0)) [
    | inl f ↦
        rw (e, f, gaps)
          (if_cases Proper (leb since until) _ _ (λ g. (leb→le since until g, tt)) (λ g. tt))
    | inr f ↦
        rw (e, f, gaps)
          (All-append (λ (q : Range). q.0 ≤ q.1) (gap_before since r.0)
            (gaps rest (max since (r.1 + 1)) until)
            (if_cases Proper (ltb since r.0) ((since, r.0 - 1) ∷ []) []
              (λ g. (omega (arith, ltb→lt since r.0 g), tt)) (λ g. tt))
            (Proper-gaps rest (max since (r.1 + 1)) until))
  ]
]

Proper-reverse : (ranges : List Range) → Proper ranges → Proper (reverse ranges)
Proper-reverse [] p = tt
Proper-reverse (r ∷ rest) p = subst Proper (sym (reverse-cons r rest)) (
    All-append (λ (q : Range). q.0 ≤ q.1) (reverse rest) (r ∷ []) (Proper-reverse rest p.1)
      (p.0, tt))

pub Proper-missing_coverage :
    (intervals : List Range) (since until : ℕ) → Proper (missing_coverage intervals since until)
unfolding missing_coverage
Proper-missing_coverage intervals since until =
    Proper-reverse (gaps intervals since until) (Proper-gaps intervals since until)

covers-nothing :
    (ranges : List Range) → Proper ranges → ((t : ℕ) → covers ranges t ≡ false) → ranges ≡ []
unfolding covers contains
covers-nothing [] p h = refl
covers-nothing (r ∷ rest) p h = ground (arith, p.0, h r.0)

-- Once the missing ranges are merged in, nothing of the range is missing: for intervals that the audit
-- finds no fault with.
pub missing_coverage-merge_coverage :
    (intervals : List Range) (since until : ℕ)
    → has_bad_range intervals ≡ false
    → missing_coverage
        (merge_coverage (intervals ++ missing_coverage intervals since until))
        since
        until
      ≡ []
missing_coverage-merge_coverage intervals since until h =
    let missing : List Range = missing_coverage intervals since until in
    let filled : List Range = merge_coverage (intervals ++ missing) in
    let sound : unordered_from 0 filled ≡ false =
      unordered_from-merge_coverage (intervals ++ missing) (
        All-append (λ (q : Range). q.0 ≤ q.1) intervals missing (Proper-has_bad_range intervals h)
          (Proper-missing_coverage intervals since until)) in
    covers-nothing (missing_coverage filled since until)
      (Proper-missing_coverage filled since until)
      (λ t. ground (
        arith,
        covers-missing filled since until t sound,
        covers-merge_coverage (intervals ++ missing) t,
        covers-append intervals missing t,
        covers-missing_coverage intervals since until t h,
      ))
