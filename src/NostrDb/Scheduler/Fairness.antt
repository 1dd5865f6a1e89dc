-- ===== src/NostrDb/Scheduler/Fairness.antt =====
-- access-scheduler.js: how long foreground and normal jobs may pass a job of a lower class.
use mathlib.Core.Path.{subst}
use billion.Common.{ℕ, suc, ◌+◌, ◌≤◌, ◌<◌, ◌≡◌, ◌≢◌, refl, inl, inr, ◌⊎◌, Option, none, some, arith}
use billion.NostrDb.Scheduler.Lanes.{
  Class, maintenance, background, normal, foreground, Job, Lane, take_from_lane, size,
}
use billion.NostrDb.Scheduler.Lanes.Scanning.{take_from_lane-IsTaken}
use billion.NostrDb.Scheduler.Taking.{
  take-cases, or_else-cases, from_background, from_maintenance, from_order,
}
use billion.NostrDb.Scheduler.{
  State, lane, set_lane, taken, runnable, into_state, take_class, take_in_order, take,
}

-- A job of a lower class may run.
abbrev pub LowerWaits : State → Type 0
LowerWaits s = (take_class background 0 s ≢ none) ⊎ (take_class maintenance 0 s ≢ none)

-- No job left a lane of a lower class.
abbrev pub Passed : State → State → Type 0
Passed s t =
    (size t.background_lane.consumers ≡ size s.background_lane.consumers)
    × (size t.maintenance_lane.consumers ≡ size s.maintenance_lane.consumers)

-- `Overtakes s n t`: from `s` to `t`, `take` returned `n` jobs one after another, each of them not of a
-- lower class although such a job could run. Between them the state may change in any way that leaves
-- `preferred` as it is, as all code but `take` does.
pub data Overtakes (s : State) : ℕ → State → Type 0 where
  here : Overtakes s 0 s
  meanwhile :
      {n : ℕ} {t : State}
      → Overtakes s n t
      → (u : State) → u.preferred ≡ t.preferred
      → Overtakes s n u
  next :
      {n : ℕ} {t : State}
      → Overtakes s n t
      → (j : Job) (u : State) → LowerWaits t
      → take t ≡ some (j, u)
      → Passed t u
      → Overtakes s (suc n) u

set_lane-lane : (c : Class) (l : Lane) (s : State) → lane c (set_lane c l s) ≡ l
set_lane-lane foreground l s = refl
set_lane-lane normal l s = refl
set_lane-lane background l s = refl
set_lane-lane maintenance l s = refl

-- A job leaves its lane, and `preferred` gets its new value.
abbrev Leaves : Class → ℕ → State → State → Type 0
Leaves c preferred s t =
    (t.preferred ≡ preferred) × (size (lane c t).consumers + 1 ≡ size (lane c s).consumers)

taken-Leaves :
    (c : Class) (preferred : ℕ) (s : State) (l : Lane)
    → size l.consumers + 1 ≡ size (lane c s).consumers
    → Leaves c preferred s (taken c l preferred s)
taken-Leaves foreground preferred s l h = (refl, h)
taken-Leaves normal preferred s l h = (refl, h)
taken-Leaves background preferred s l h = (refl, h)
taken-Leaves maintenance preferred s l h = (refl, h)

into_state-Leaves :
    (c : Class) (preferred : ℕ) (s : State) (o : Option (Job × Lane)) (j : Job) (t : State)
    → take_from_lane (runnable s) (lane c s) ≡ o
    → into_state c preferred s o ≡ some (j, t)
    → Leaves c preferred s t
unfolding into_state
into_state-Leaves c preferred s none j t e h = ground arith
into_state-Leaves c preferred s (some (i, l)) j t e h =
    subst (Leaves c preferred s) (cc h) (
      taken-Leaves c preferred s l (take_from_lane-IsTaken (runnable s) (lane c s) i l e).size_less)

take_class-Leaves :
    (c : Class) (preferred : ℕ) (s : State) (j : Job) (t : State)
    → take_class c preferred s ≡ some (j, t)
    → Leaves c preferred s t
unfolding take_class
take_class-Leaves c preferred s j t h = into_state-Leaves c preferred s _ j t refl h

-- Past the second class `take_in_order` returns a job of a lower class.
take_in_order-preferred :
    (s : State) (j : Job) (t : State)
    → take_in_order s ≡ some (j, t)
    → Passed s t
    → t.preferred ≡ s.preferred + 1
unfolding take_in_order
take_in_order-preferred s j t h same =
    elim (or_else-cases (take_class foreground (s.preferred + 1) s) _ (j, t) h) [
      | inl first ↦ (take_class-Leaves foreground (s.preferred + 1) s j t first).0
      | inr (_, h2) ↦ elim (or_else-cases (take_class normal (s.preferred + 1) s) _ (j, t) h2) [
        | inl second ↦ (take_class-Leaves normal (s.preferred + 1) s j t second).0
        | inr (_, h3) ↦
            elim (or_else-cases (take_class background 0 s) (take_class maintenance 0 s) (j, t)
              h3) [
                | inl third ↦ omega (arith, same, (take_class-Leaves background 0 s j t third).1)
                | inr (_, fourth) ↦
                    omega (arith, same, (take_class-Leaves maintenance 0 s j t fourth).1)
              ]
      ]
    ]

-- While a job of a lower class may run, another passes it below the limit only.
pass-preferred :
    (s : State) (j : Job) (t : State)
    → LowerWaits s
    → take s ≡ some (j, t)
    → Passed s t
    → (s.preferred < 3) × (t.preferred ≡ s.preferred + 1)
pass-preferred s j t waits h same = elim (take-cases s (j, t) h) [
  | inl (below, o) ↦ (below, take_in_order-preferred s j t o same)
  | inr (from_background e) ↦ omega (arith, same, (take_class-Leaves background 0 s j t e).1)
  | inr (from_maintenance _ e) ↦ omega (arith, same, (take_class-Leaves maintenance 0 s j t e).1)
  | inr (from_order no_background no_maintenance _) ↦ elim waits [
    | inl some_background ↦ elim (some_background no_background) [ ]
    | inr some_maintenance ↦ elim (some_maintenance no_maintenance) [ ]
  ]
]

Overtakes-preferred :
    (s : State) {n : ℕ} {t : State}
    → Overtakes s n t
    → (t.preferred ≡ s.preferred + n) × ((n ≡ 0) ⊎ (t.preferred ≤ 3))
Overtakes-preferred s here = (omega arith, inl refl)
Overtakes-preferred s (meanwhile before u e) =
    let (total, limit) = Overtakes-preferred s before in
    (omega (arith, total, e), elim limit [ inl z ↦ inl z | inr l ↦ inr (omega (arith, l, e)) ])
Overtakes-preferred s (next {t = t} before j u waits h same) =
    let (total, limit) = Overtakes-preferred s before in
    let (below, one) = pass-preferred t j u waits h same in
    (omega (arith, total, one), inr (omega (arith, below, one)))

-- At most three jobs in a row that are not of a lower class are taken while a job of a lower class
-- may run, whatever happens between them that leaves `preferred` as it is.
pub Overtakes-le-three : (s : State) (n : ℕ) (t : State) → Overtakes s n t → n ≤ 3
Overtakes-le-three s n t passes =
    let (total, limit) = Overtakes-preferred s passes in ground (arith, total, limit)
