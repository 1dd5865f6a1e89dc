-- ===== src/Common/Sorting.antt =====
-- `Array.prototype.sort` with a comparison, as a stable insertion sort.
use Prim.Native.Nat.{suc, ◌+◌}
use mathlib.Core.Path.{◌≡◌, refl}
use mathlib.Core.Bool.{Bool, true, false}
use mathlib.Core.List.{List, [], ◌∷◌}
use native.Mathlib.Omega.{arith}
use billion.Common.Tests.{if◌then◌else◌, if_cases}
use billion.Common.Lists.{length, All, count_if}

-- `le a b` is `compare(a, b) <= 0`.
module _ {ℓ} {A : Type ℓ} (le : A → A → Bool) where
  unfoldable pub insert : A → List A → List A
  insert a [] = a ∷ []
  insert a (b ∷ bs) = if le a b then a ∷ b ∷ bs else b ∷ insert a bs

  unfoldable pub sort : List A → List A
  unfolding insert
  sort [] = []
  sort (a ∷ xs) = insert a (sort xs)

  -- Each element stands no later than the next one.
  abbrev pub Sorted : List A → Type 0
  Sorted [] = Unit
  Sorted (a ∷ []) = Unit
  Sorted (a ∷ b ∷ bs) = (le a b ≡ true) × Sorted (b ∷ bs)

  count_if-insert :
      (p : A → Bool) (a : A) (xs : List A)
      → count_if p (insert a xs) ≡ (if p a then 1 else 0) + count_if p xs
  unfolding insert count_if
  count_if-insert p a [] = refl
  count_if-insert p a (x ∷ xs) = ground (arith, count_if-insert p a xs)

  -- Sorting loses and repeats nothing.
  pub count_if-sort : (p : A → Bool) (xs : List A) → count_if p (sort xs) ≡ count_if p xs
  unfolding sort count_if
  count_if-sort p [] = refl
  count_if-sort p (x ∷ xs) = omega (arith, count_if-insert p x (sort xs), count_if-sort p xs)

  length-insert : (a : A) (xs : List A) → length (insert a xs) ≡ suc (length xs)
  unfolding insert
  length-insert a [] = refl
  length-insert a (x ∷ xs) = ground (arith, length-insert a xs)

  pub length-sort : (xs : List A) → length (sort xs) ≡ length xs
  unfolding sort
  length-sort [] = refl
  length-sort (x ∷ xs) = omega (arith, length-insert x (sort xs), length-sort xs)

  module _ {κ} (P : A → Type κ) where
    All-insert : (a : A) (xs : List A) → P a → All P xs → All P (insert a xs)
    unfolding insert
    All-insert a [] h k = (h, tt)
    All-insert a (x ∷ xs) h k =
        if_cases (All P) (le a x) _ _ (λ low. (h, (k.0, k.1)))
          (λ high. (k.0, All-insert a xs h k.1))

    pub All-sort : (xs : List A) → All P xs → All P (sort xs)
    unfolding sort
    All-sort [] h = tt
    All-sort (x ∷ xs) h = All-insert x (sort xs) h.0 (All-sort xs h.1)

  module _ (total : (a b : A) → le a b ≡ false → le b a ≡ true) where
    Sorted-insert : (a : A) (xs : List A) → Sorted xs → Sorted (insert a xs)
    unfolding insert
    Sorted-insert a [] s = tt
    Sorted-insert a (x ∷ []) s = ground (arith, total a x)
    Sorted-insert a (x ∷ y ∷ xs) s = ground (arith, total a x, Sorted-insert a (y ∷ xs) s.1)

    pub sort-Sorted : (xs : List A) → Sorted (sort xs)
    unfolding sort
    sort-Sorted [] = tt
    sort-Sorted (x ∷ xs) = Sorted-insert x (sort xs) (sort-Sorted xs)
