-- ===== src/NostrDb/Scheduler/Idle.antt =====
-- access-scheduler.js: `pump` runs until no waiting job may run.
use mathlib.Core.Path.{subst}
use billion.Common.{ℕ, zero, suc, ◌+◌, ◌≤◌, ◌≡◌, refl, inl, inr, none, some, arith, Option-cases}
use billion.NostrDb.Scheduler.Lanes.{Job}
use billion.NostrDb.Scheduler.Lanes.Scanning.{take_from_lane-IsTaken}
use billion.NostrDb.Scheduler.Taking.{TakesFrom, from, take-TakesFrom}
use billion.NostrDb.Scheduler.{pump_loop, State, lane, take, start, pump, runnable}
use billion.NostrDb.Scheduler.Places.{IsPlaced, waiting_jobs-set_lane, start-IsPlaced}

taken-waiting :
    (s : State) (j : Job) (t : State) → IsPlaced s → TakesFrom s j t → t.waiting + 1 ≡ s.waiting
taken-waiting s j t v (from c preferred l h e) =
    let fact = take_from_lane-IsTaken (runnable s) (lane c s) j l h in
    let some_wait = waiting_jobs-set_lane c l s in
    subst (λ u. u.waiting + 1 ≡ s.waiting) e (omega (arith, v.counted, some_wait, fact.size_less))

pump_loop-Idle :
    (rounds : ℕ) (s : State) → IsPlaced s → s.waiting ≤ rounds → take (pump_loop rounds s) ≡ none
unfolding pump_loop start
pump_loop-Idle zero s v enough = elim (Option-cases (take s)) [
  | inl e ↦ e
  | inr ((j, t), e) ↦ ground (arith, enough, taken-waiting s j t v (take-TakesFrom s j t e))
]
pump_loop-Idle (suc rounds) s v enough =
    (elim (take s)
        as (λ o.
          take s ≡ o
          → take (elim o [ none ↦ s | some (j, t) ↦ pump_loop rounds (start j t) ]) ≡ none) [
            | none ↦ λ e. e
            | some (j, t) ↦ λ e.
                let off = take-TakesFrom s j t e in
                pump_loop-Idle rounds (start j t) (start-IsPlaced s j t v off)
                  (omega (arith, enough, taken-waiting s j t v off))
          ])
      refl

-- After `pump` no waiting job may run.
pub pump-Idle : (s : State) → IsPlaced s → take (pump s) ≡ none
unfolding pump
pump-Idle s v = pump_loop-Idle s.waiting s v (omega arith)
