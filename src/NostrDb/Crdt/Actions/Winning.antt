-- ===== src/NostrDb/Crdt/Actions/Winning.antt =====
-- crdt.js, `winningAction` and `setWinningAction`: of all actions on one identity, a newest one
-- survives, whatever the order in which they are set.
use billion.Common.{
  ◌<◌, ◌≡◌, refl, ◌∙◌, ap, inl, inr, ◌⊎◌, true, Option, none, some, List, [], ◌∷◌, arith,
  if◌then◌else◌, All, Bool-cases,
}
use billion.Common.Text.{
  Str, str_eq, str_ge, str_eq_iff, str_ge_refl, str_ge_total, str_ge_trans, str_ge_antisymm,
}
use billion.NostrDb.Crdt.Actions.{
  Action, or_winner, winning_action, get, put, set_winning_action, set_all,
}

-- `w` is newer than `a`, or as new with a payload that is no smaller.
abbrev pub Beats : Action → Action → Type 0
Beats w a =
    (a.timestamp < w.timestamp)
    ⊎ ((a.timestamp ≡ w.timestamp) × (str_ge w.payload a.payload ≡ true))

pub Beats-refl : (a : Action) → Beats a a
Beats-refl a = inr (refl, str_ge_refl a.payload)

pub Beats-trans : (a b c : Action) → Beats a b → Beats b c → Beats a c
Beats-trans a b c h k = ground (arith, str_ge_trans a.payload b.payload c.payload)

pub winning_action-Beats :
    (a b : Action) → Beats (winning_action a b) a × Beats (winning_action a b) b
unfolding winning_action
winning_action-Beats a b =
    ground (arith, str_ge_refl a.payload, str_ge_refl b.payload, str_ge_total a.payload b.payload)

pub winning_action-one : (a b : Action) → (winning_action a b ≡ a) ⊎ (winning_action a b ≡ b)
unfolding winning_action
winning_action-one a b = ground arith

-- Which of two actions stands first makes no difference to the time and the payload of the winner.
pub winning_action_comm :
    (a b : Action)
    → ((winning_action a b).timestamp ≡ (winning_action b a).timestamp)
      × ((winning_action a b).payload ≡ (winning_action b a).payload)
unfolding winning_action
winning_action_comm a b = ground (
  arith,
  str_ge_antisymm a.payload b.payload,
  str_ge_total a.payload b.payload,
  str_ge_total b.payload a.payload,
)

pub get-put :
    (a : Action) (m : List Action) (k : Str)
    → get k (put a m) ≡ (if str_eq a.key k then some a else get k m)
unfolding get put
get-put a [] k = refl
get-put a (b ∷ m) k =
    ground (arith, get-put a m k, str_eq_iff b.key a.key, str_eq_iff a.key k, str_eq_iff b.key k)

pub get-key : (k : Str) (m : List Action) (a : Action) → get k m ≡ some a → a.key ≡ k
unfolding get
get-key k [] a h = ground arith
get-key k (b ∷ m) a h = ground (arith, get-key k m a, str_eq_iff b.key k)

-- What a map holds for a key is at least as new as `a`.
abbrev pub Covers : List Action → Action → Type 0
Covers m a = (w : Action) × (get a.key m ≡ some w) × Beats w a

or_winner-Beats : (o : Option Action) (b : Action) → Beats (or_winner winning_action o b) b
or_winner-Beats none b = Beats-refl b
or_winner-Beats (some a) b = (winning_action-Beats a b).1

or_winner-key :
    (o : Option Action) (b : Action)
    → ((a : Action) → o ≡ some a → a.key ≡ b.key)
    → (or_winner winning_action o b).key ≡ b.key
or_winner-key none b h = refl
or_winner-key (some a) b h = elim (winning_action-one a b) [
  | inl e ↦ ap (λ x. x.key) e ∙ h a refl
  | inr e ↦ ap (λ x. x.key) e
]

winner_key : (m : List Action) (b : Action) → (or_winner winning_action (get b.key m) b).key ≡ b.key
winner_key m b = or_winner-key (get b.key m) b (λ a e. get-key b.key m a e)

pub get-set_winning_action :
    (m : List Action) (b : Action) (k : Str)
    → get k (set_winning_action m b)
      ≡ (if str_eq b.key k then some (or_winner winning_action (get b.key m) b) else get k m)
unfolding set_winning_action
get-set_winning_action m b k =
    ground (arith, get-put (or_winner winning_action (get b.key m) b) m k, winner_key m b)

-- The action just set is covered.
pub set_winning_action-Covers_self :
    (m : List Action) (b : Action) → Covers (set_winning_action m b) b
set_winning_action-Covers_self m b = (
  or_winner winning_action (get b.key m) b,
  ground (arith, get-set_winning_action m b b.key, str_eq_iff b.key b.key),
  or_winner-Beats (get b.key m) b,
)

-- What was covered stays covered.
pub set_winning_action-Covers :
    (m : List Action) (b a : Action) → Covers m a → Covers (set_winning_action m b) a
set_winning_action-Covers m b a (w, held, beats) = elim (Bool-cases (str_eq b.key a.key)) [
  | inl same ↦
      let key : b.key ≡ a.key = (str_eq_iff b.key a.key).0 same in
      (
        winning_action w b,
        ground (arith, get-set_winning_action m b a.key, ap (λ k. get k m) key),
        Beats-trans (winning_action w b) w a (winning_action-Beats w b).0 beats,
      )
  | inr other ↦ (w, ground (arith, get-set_winning_action m b a.key), beats)
]

pub set_all-Covers : (bs m : List Action) (a : Action) → Covers m a → Covers (set_all m bs) a
unfolding set_all
set_all-Covers [] m a h = h
set_all-Covers (b ∷ bs) m a h = set_all-Covers bs _ a (set_winning_action-Covers m b a h)

-- After a run of `setWinningAction`, the map holds for each action that was set one that beats it.
pub set_all-All : (bs m : List Action) → All (Covers (set_all m bs)) bs
unfolding set_all
set_all-All [] m = tt
set_all-All (b ∷ bs) m =
    (set_all-Covers bs _ b (set_winning_action-Covers_self m b), set_all-All bs _)
