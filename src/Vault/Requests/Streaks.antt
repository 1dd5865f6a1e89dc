-- ===== src/Vault/Requests/Streaks.antt =====
-- src/services/vault-request-queue.js: the counter `preferred`, and the starts since the last normal one.
use mathlib.Core.Path.{subst}
use billion.Common.{
  ℕ, suc, ◌≤◌, ◌<◌, ◌≡◌, refl, min, Bool, true, ◌&&◌, Option, none, some, List, [], ◌∷◌, ◌++◌,
  arith, if◌then◌else◌, length, count_if, All, find_passes_of, if_cases, count_if-le-length,
}
use billion.Vault.Requests.Jobs.{Job}
use billion.Vault.Requests.Draining.{advance-induction}
use billion.Vault.Requests.Places.{IsPlaced, normal_candidate-found}
use billion.Vault.Requests.{
  State, Start, Reply, Caller, settle, start, advance, pick, choose, normal_candidate, is_there,
  is_settled,
}

-- How many priority requests started since the last normal one; the newest start comes first.
unfoldable pub streak : List Start → ℕ
streak [] = 0
streak (x ∷ xs) = if x.priority then suc (streak xs) else 0

-- A request passed an eligible normal one below the limit only.
unfoldable pub BelowLimit : List Start → Type 0
BelowLimit [] = Unit
BelowLimit (x ∷ xs) = (if x.passes then suc (streak xs) else 0) ≤ 3 × BelowLimit xs

-- The counter of the code counts the streak up to three.
pub record IsFair (s : State) : Type 0 where
  pub counted : s.preferred ≡ min 3 (streak s.started)
  pub below : BelowLimit s.started

pub settle-IsFair : (s : State) (j : Job) (r : Reply) → IsFair s → IsFair (settle s j r)
unfolding settle
settle-IsFair s j r v =
    if_cases IsFair (is_settled j.id s.settled) s _ (λ e. v)
      (λ e. record { counted = v.counted; below = v.below })

-- With a normal job at hand, a priority job is picked below the limit only.
pick-below_limit :
    (s : State) (m j : Job)
    → IsPlaced s
    → normal_candidate s ≡ some m
    → pick s ≡ some j
    → j.priority ≡ true
    → s.preferred < 3
unfolding pick choose
pick-below_limit s m j v hm h high =
    ground
      (arith, find_passes_of _ _ s.waiting_normal m v.normal_lane (normal_candidate-found s m hm))

new_start-below :
    (s : State) (j : Job) (o : Option Job)
    → IsPlaced s
    → IsFair s
    → pick s ≡ some j
    → normal_candidate s ≡ o
    → (if j.priority && is_there o then suc (streak s.started) else 0) ≤ 3
unfolding is_there
new_start-below s j none v fair h e = ground arith
new_start-below s j (some m) v fair h e = ground (arith, pick-below_limit s m j v e h, fair.counted)

start-IsFair : (s : State) (j : Job) → IsPlaced s → IsFair s → pick s ≡ some j → IsFair (start s j)
unfolding start streak BelowLimit
start-IsFair s j v fair h = record {
  counted = ground (arith, fair.counted);
  below = (new_start-below s j (normal_candidate s) v fair h refl, fair.below);
}

pub advance-IsFair :
    (caller : Caller) (p now : ℕ) (s : State) (j : Job)
    → IsPlaced s
    → IsFair s
    → pick s ≡ some j
    → IsFair (advance caller p now s j)
advance-IsFair caller p now s j v fair h =
    let begun : IsFair (start s j) = start-IsFair s j v fair h in
    advance-induction caller p now IsFair s j (λ r. settle-IsFair s j r fair) begun
      (λ r. settle-IsFair (start s j) j r begun)

-- A list of starts behind another one's.
below-append : (xs ys : List Start) → BelowLimit (xs ++ ys) → BelowLimit ys
unfolding BelowLimit
below-append [] ys h = h
below-append (x ∷ xs) ys h = below-append xs ys h.1

abbrev pub HasPriority : Start → Type 0
HasPriority x = x.priority ≡ true

abbrev pub passing : Start → Bool
passing x = x.passes

length-le-streak : (xs ys : List Start) → All HasPriority xs → length xs ≤ streak (xs ++ ys)
unfolding streak
length-le-streak [] ys h = omega arith
length-le-streak (x ∷ xs) ys h = ground (arith, length-le-streak xs ys h.1, h.0)

passes-le-three :
    (xs ys : List Start) → All HasPriority xs → BelowLimit (xs ++ ys) → count_if passing xs ≤ 3
unfolding BelowLimit count_if
passes-le-three [] ys h below = omega arith
passes-le-three (x ∷ xs) ys h below = ground (
  arith,
  below.0,
  passes-le-three xs ys h.1 below.1,
  length-le-streak xs ys h.1,
  count_if-le-length passing xs,
)

-- Among starts of priority requests alone, three pass an eligible normal request at most.
pub passes-IsFair :
    (s : State) (newer window older : List Start)
    → IsFair s
    → s.started ≡ newer ++ (window ++ older)
    → All HasPriority window
    → count_if passing window ≤ 3
passes-IsFair s newer window older v e h =
    passes-le-three window older h
      (below-append newer (window ++ older) (subst BelowLimit e v.below))
