-- ===== src/NostrDb/Scheduler/Stores.antt =====
-- access-scheduler.js: `normalizeStores`. A store that is no string or a list that is no array fails
-- as an empty one does; here both are typed.
use billion.Common.{
  ℕ, ◌+◌, ◌≡◌, refl, ap, ◌∙◌, ◌⊎◌, inl, inr, Bool, true, false, not, ◌||◌, Option, none, some, List,
  [], ◌∷◌, arith, ◌==◌, if◌then◌else◌, length, count_if, if_cases, Bool-cases,
}
use billion.Common.Text.{Str, is_nonempty, str_eq, str_eq_sound, str_ge, str_ge_total}
use billion.Common.Sorting.{sort, Sorted, count_if-sort, sort-Sorted}
use billion.NostrDb.Scheduler.Lanes.{contains}

without : Str → List Str → List Str
without x [] = []
without x (y ∷ ys) = let rest = without x ys in if str_eq y x then rest else y ∷ rest

-- `[...new Set(stores)]`
pub unique : List Str → List Str
unfolding without
unique [] = []
unique (x ∷ xs) = x ∷ without x (unique xs)

pub has_empty : List Str → Bool
has_empty [] = false
has_empty (x ∷ xs) = not (is_nonempty x) || has_empty xs

abbrev le : Str → Str → Bool
le x y = str_ge y x

-- `normalizeStores`, with none for the error.
pub normalize_stores : List Str → Option (List Str)
unfolding unique has_empty
normalize_stores xs = if length xs == 0 || has_empty xs then none else some (sort le (unique xs))

abbrev occurrences : Str → List Str → ℕ
occurrences st = count_if (λ x. str_eq x st)

occurrences-without :
    (x st : Str) (ys : List Str)
    → occurrences st (without x ys) ≡ (if str_eq x st then 0 else occurrences st ys)
unfolding without count_if
occurrences-without x st [] = ground arith
occurrences-without x st (y ∷ ys) =
    if_cases
      (λ l.
        occurrences st l
        ≡ (if str_eq x st then 0 else ((if str_eq y st then 1 else 0) + occurrences st ys)))
      (str_eq y x) _ _
      (λ e. ground (arith, occurrences-without x st ys, ap (λ z. str_eq z st) (str_eq_sound y x e)))
      (λ e. elim (Bool-cases (str_eq x st)) [
        | inl f ↦ ground (arith, occurrences-without x st ys, ap (str_eq y) (str_eq_sound x st f))
        | inr f ↦ ground (arith, occurrences-without x st ys)
      ])

occurrences-unique :
    (st : Str) (xs : List Str) → occurrences st (unique xs) ≡ (if contains xs st then 1 else 0)
unfolding unique count_if contains
occurrences-unique st [] = refl
occurrences-unique st (x ∷ xs) =
    ground (arith, occurrences-unique st xs, occurrences-without x st (unique xs))

-- The second list has the stores of the first once each, and no other, in ascending order.
pub record IsNormal (xs ys : List Str) : Type 0 where
  pub ascending : Sorted (λ x y. str_ge y x) ys
  pub once : (st : Str) → count_if (λ x. str_eq x st) ys ≡ (if contains xs st then 1 else 0)

abbrev pub is_refused : List Str → Bool
is_refused xs = length xs == 0 || has_empty xs

-- `normalizeStores` fails on no stores and on an empty name; else it returns each given store once, and
-- no other, in ascending order.
pub normalize_stores_lem :
    (xs : List Str)
    → ((is_refused xs ≡ true) × (normalize_stores xs ≡ none))
      ⊎ ((is_refused xs ≡ false)
          × ((ys : List Str) × (normalize_stores xs ≡ some ys) × IsNormal xs ys))
unfolding normalize_stores
normalize_stores_lem xs = elim (Bool-cases (is_refused xs)) [
  | inl e ↦ inl (e, rw e refl)
  | inr e ↦ inr (
    e,
    (
      sort le (unique xs),
      rw e refl,
      record {
        ascending = sort-Sorted le (λ a b h. str_ge_total b a h) (unique xs);
        once = λ st. count_if-sort le (λ x. str_eq x st) (unique xs) ∙ occurrences-unique st xs;
      },
    ),
  )
]
