-- ===== src/NostrDb/Scheduler/Taking.antt =====
-- access-scheduler.js: what `take` and `pump` do: each start is of a waiting job that may run, and the
-- rounds of `pump` end with none left to take.
use billion.Common.{
  ℕ, zero, suc, ◌+◌, ◌<◌, ◌≡◌, refl, inl, inr, ◌⊎◌, Option, none, some, arith, leb, Bool-cases,
}
use billion.NostrDb.Scheduler.Lanes.{
  Class, maintenance, background, normal, foreground, Job, Lane, take_from_lane,
}
use billion.NostrDb.Scheduler.{
  State, lane, runnable, taken, into_state, take_class, or_else, take_in_order, take, start,
  pump_loop, pump, starvation_limit,
}

-- The job was taken off the lane of a class.
pub data TakesFrom (s : State) (j : Job) (t : State) : Type 0 where
  from :
      (c : Class) (preferred : ℕ) (l : Lane)
      → take_from_lane (runnable s) (lane c s) ≡ some (j, l)
      → taken c l preferred s ≡ t
      → TakesFrom s j t

into_state-TakesFrom :
    (c : Class) (preferred : ℕ) (s : State) (o : Option (Job × Lane)) (j : Job) (t : State)
    → take_from_lane (runnable s) (lane c s) ≡ o
    → into_state c preferred s o ≡ some (j, t)
    → TakesFrom s j t
unfolding into_state
into_state-TakesFrom c preferred s none j t e h = ground arith
into_state-TakesFrom c preferred s (some (i, l)) j t e h = from c preferred l (cc (e, h)) (cc h)

take_class-TakesFrom :
    (c : Class) (preferred : ℕ) (s : State) (j : Job) (t : State)
    → take_class c preferred s ≡ some (j, t)
    → TakesFrom s j t
unfolding take_class
take_class-TakesFrom c preferred s j t h = into_state-TakesFrom c preferred s _ j t refl h

pub or_else-cases :
    (first later : Option (Job × State)) (r : Job × State)
    → or_else first later ≡ some r
    → (first ≡ some r) ⊎ ((first ≡ none) × (later ≡ some r))
unfolding or_else
or_else-cases none later r h = inr (refl, h)
or_else-cases (some q) later r h = inl h

take_in_order-TakesFrom :
    (s : State) (j : Job) (t : State) → take_in_order s ≡ some (j, t) → TakesFrom s j t
unfolding take_in_order
take_in_order-TakesFrom s j t h =
    elim (or_else-cases (take_class foreground (s.preferred + 1) s) _ (j, t) h) [
      | inl first ↦ take_class-TakesFrom foreground (s.preferred + 1) s j t first
      | inr (_, h2) ↦ elim (or_else-cases (take_class normal (s.preferred + 1) s) _ (j, t) h2) [
        | inl second ↦ take_class-TakesFrom normal (s.preferred + 1) s j t second
        | inr (_, h3) ↦
            elim (or_else-cases (take_class background 0 s) (take_class maintenance 0 s) (j, t)
              h3) [
                | inl third ↦ take_class-TakesFrom background 0 s j t third
                | inr (_, fourth) ↦ take_class-TakesFrom maintenance 0 s j t fourth
              ]
      ]
    ]

-- What `take` found past the starvation limit.
pub data Starved (s : State) (r : Job × State) : Type 0 where
  from_background : take_class background 0 s ≡ some r → Starved s r
  from_maintenance :
      take_class background 0 s ≡ none → take_class maintenance 0 s ≡ some r → Starved s r
  from_order :
      take_class background 0 s ≡ none
      → take_class maintenance 0 s ≡ none
      → take_in_order s ≡ some r
      → Starved s r

pub take-cases :
    (s : State) (r : Job × State)
    → take s ≡ some r
    → ((s.preferred < starvation_limit) × (take_in_order s ≡ some r)) ⊎ Starved s r
unfolding take
take-cases s r h = elim (Bool-cases (leb starvation_limit s.preferred)) [
  | inl e ↦
      elim (or_else-cases (take_class background 0 s)
        (or_else (take_class maintenance 0 s) (take_in_order s)) r (ground arith)) [
          | inl first ↦ inr (from_background first)
          | inr (no_first, h2) ↦
              elim (or_else-cases (take_class maintenance 0 s) (take_in_order s) r h2) [
                | inl second ↦ inr (from_maintenance no_first second)
                | inr (no_second, h3) ↦ inr (from_order no_first no_second h3)
              ]
        ]
  | inr e ↦ inl (ground arith, ground arith)
]

pub take-TakesFrom : (s : State) (j : Job) (t : State) → take s ≡ some (j, t) → TakesFrom s j t
take-TakesFrom s j t h = elim (take-cases s (j, t) h) [
  | inl (_, o) ↦ take_in_order-TakesFrom s j t o
  | inr (from_background e) ↦ take_class-TakesFrom background 0 s j t e
  | inr (from_maintenance _ e) ↦ take_class-TakesFrom maintenance 0 s j t e
  | inr (from_order _ _ e) ↦ take_in_order-TakesFrom s j t e
]

module _ (P : State → Type 0)
    (keeps : (s : State) (j : Job) (t : State) → P s → take s ≡ some (j, t) → P (start j t)) where
  -- What each start keeps holds after `pump`.
  pump_loop-induction : (rounds : ℕ) (s : State) → P s → P (pump_loop rounds s)
  unfolding pump_loop
  pump_loop-induction zero s v = v
  pump_loop-induction (suc rounds) s v =
      (elim (take s)
          as (λ o.
            take s ≡ o → P (elim o [ none ↦ s | some (j, t) ↦ pump_loop rounds (start j t) ])) [
              | none ↦ λ e. v
              | some (j, t) ↦ λ e. pump_loop-induction rounds (start j t) (keeps s j t v e)
            ])
        refl

  pub pump-induction : (s : State) → P s → P (pump s)
  unfolding pump
  pump-induction s v = pump_loop-induction s.waiting s v
