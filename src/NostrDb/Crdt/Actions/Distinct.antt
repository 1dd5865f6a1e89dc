-- ===== src/NostrDb/Crdt/Actions/Distinct.antt =====
-- crdt.js: a `Map` of actions holds each key once.
use billion.Common.{◌≡◌, refl, sym, ◌∙◌, ap, none, List, [], ◌∷◌, arith, if_cases}
use billion.Common.Text.{str_eq, str_eq_iff}
use billion.NostrDb.Crdt.Actions.{Action, get, put, set_winning_action, set_all}
use billion.NostrDb.Crdt.Actions.Winning.{get-put}

abbrev pub Distinct : List Action → Type 0
Distinct [] = Unit
Distinct (a ∷ m) = (get a.key m ≡ none) × Distinct m

put-Distinct : (a : Action) (m : List Action) → Distinct m → Distinct (put a m)
unfolding put
put-Distinct a [] d = (unfold get in refl, tt)
put-Distinct a (b ∷ m) d =
    if_cases Distinct (str_eq b.key a.key) _ _
      (λ same. (ap (λ k. get k m) (sym ((str_eq_iff b.key a.key).0 same)) ∙ d.0, d.1))
      (λ other. (
        ground (arith, get-put a m b.key, d.0, str_eq_iff a.key b.key, str_eq_iff b.key a.key),
        put-Distinct a m d.1,
      ))

pub set_winning_action-Distinct :
    (m : List Action) (a : Action) → Distinct m → Distinct (set_winning_action m a)
unfolding set_winning_action
set_winning_action-Distinct m a d = put-Distinct _ m d

pub set_all-Distinct : (bs m : List Action) → Distinct m → Distinct (set_all m bs)
unfolding set_all
set_all-Distinct [] m d = d
set_all-Distinct (b ∷ bs) m d = set_all-Distinct bs _ (set_winning_action-Distinct m b d)
