-- ===== src/Common/Text.antt =====
-- JavaScript strings as lists of UTF-16 code units, with their equality and their order.
use Prim.Native.Nat.{ℕ}
use mathlib.Core.Path.{◌≡◌, refl, subst}
use mathlib.Core.Logic.{◌↔◌}
use mathlib.Core.Bool.{Bool, true, false, not, ◌&&◌}
use mathlib.Core.List.{List, [], ◌∷◌}
use native.Mathlib.Omega.{arith}
use Prim.Native.Char.{code}
use Prim.Native.String.{String}
use billion.Common.Tests.{◌==◌, ltb, if◌then◌else◌}

abbrev pub Str : Type 0
Str = List ℕ

-- A literal of the source as its code units (all of them are ASCII).
abbrev pub codes : String → Str
codes String.[] = []
codes (String.◌∷◌ c s) = code c ∷ codes s

-- Does the unit not occur in the text?
abbrev pub lacks : ℕ → Str → Bool
lacks s [] = true
lacks s (c ∷ cs) = not (c == s) && lacks s cs

abbrev pub is_nonempty : Str → Bool
is_nonempty [] = false
is_nonempty (c ∷ cs) = true

-- `a === b`
unfoldable pub str_eq : Str → Str → Bool
str_eq [] [] = true
str_eq [] (y ∷ ys) = false
str_eq (x ∷ xs) [] = false
str_eq (x ∷ xs) (y ∷ ys) = (x == y) && str_eq xs ys

-- `a >= b`: the lexicographic order of code units.
unfoldable pub str_ge : Str → Str → Bool
str_ge xs [] = true
str_ge [] (y ∷ ys) = false
str_ge (x ∷ xs) (y ∷ ys) = if x == y then str_ge xs ys else ltb y x

pub str_eq_sound : (xs ys : Str) → str_eq xs ys ≡ true → xs ≡ ys
unfolding str_eq
str_eq_sound [] [] h = refl
str_eq_sound [] (y ∷ ys) h = ground arith
str_eq_sound (x ∷ xs) [] h = ground arith
str_eq_sound (x ∷ xs) (y ∷ ys) h = ground (arith, str_eq_sound xs ys)

pub str_eq_refl : (xs : Str) → str_eq xs xs ≡ true
unfolding str_eq
str_eq_refl [] = refl
str_eq_refl (x ∷ xs) = ground (arith, str_eq_refl xs)

pub str_eq_iff : (xs ys : Str) → (str_eq xs ys ≡ true) ↔ (xs ≡ ys)
str_eq_iff xs ys = (str_eq_sound xs ys, λ e. subst (λ zs. str_eq xs zs ≡ true) e (str_eq_refl xs))

pub str_ge_refl : (xs : Str) → str_ge xs xs ≡ true
unfolding str_ge
str_ge_refl [] = refl
str_ge_refl (x ∷ xs) = ground (arith, str_ge_refl xs)

pub str_ge_antisymm : (xs ys : Str) → str_ge xs ys ≡ true → str_ge ys xs ≡ true → xs ≡ ys
unfolding str_ge
str_ge_antisymm [] [] h k = refl
str_ge_antisymm [] (y ∷ ys) h k = ground arith
str_ge_antisymm (x ∷ xs) [] h k = ground arith
str_ge_antisymm (x ∷ xs) (y ∷ ys) h k = ground (arith, str_ge_antisymm xs ys)

pub str_ge_total : (xs ys : Str) → str_ge xs ys ≡ false → str_ge ys xs ≡ true
unfolding str_ge
str_ge_total [] [] h = refl
str_ge_total [] (y ∷ ys) h = refl
str_ge_total (x ∷ xs) [] h = ground arith
str_ge_total (x ∷ xs) (y ∷ ys) h = ground (arith, str_ge_total xs ys)

pub str_ge_trans :
    (xs ys zs : Str) → str_ge xs ys ≡ true → str_ge ys zs ≡ true → str_ge xs zs ≡ true
unfolding str_ge
str_ge_trans [] [] [] h k = refl
str_ge_trans [] [] (z ∷ zs) h k = ground arith
str_ge_trans [] (y ∷ ys) [] h k = refl
str_ge_trans [] (y ∷ ys) (z ∷ zs) h k = ground arith
str_ge_trans (x ∷ xs) [] [] h k = refl
str_ge_trans (x ∷ xs) [] (z ∷ zs) h k = ground arith
str_ge_trans (x ∷ xs) (y ∷ ys) [] h k = refl
str_ge_trans (x ∷ xs) (y ∷ ys) (z ∷ zs) h k = ground (arith, str_ge_trans xs ys zs)

pub str_eq_comm : (xs ys : Str) → str_eq xs ys ≡ str_eq ys xs
unfolding str_eq
str_eq_comm [] [] = refl
str_eq_comm [] (y ∷ ys) = refl
str_eq_comm (x ∷ xs) [] = refl
str_eq_comm (x ∷ xs) (y ∷ ys) = ground (arith, str_eq_comm xs ys)
