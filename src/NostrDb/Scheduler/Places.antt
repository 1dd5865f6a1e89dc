-- ===== src/NostrDb/Scheduler/Places.antt =====
-- access-scheduler.js: where a job is. Each one that was run stands in exactly one place: a queue, the
-- active set, or the settled promises; and `waiting` counts the queues.
use mathlib.Core.Path.{subst}
use billion.Common.{
  ℕ, ◌+◌, ◌≡◌, refl, some, List, [], ◌∷◌, arith, ltb, ◌==◌, if◌then◌else◌, count_if,
  count_if-append,
}
use billion.NostrDb.Scheduler.Lanes.{
  Class, maintenance, background, normal, foreground, Job, Lane, take_from_lane, queued, size,
  occurrences,
}
use billion.NostrDb.Scheduler.Lanes.Scanning.{take_from_lane-IsTaken}
use billion.NostrDb.Scheduler.Taking.{TakesFrom, from, take-TakesFrom, pump-induction}
use billion.NostrDb.Scheduler.{State, Ending, lane, set_lane, taken, start, pump, runnable}

-- How often an id waits in any class.
abbrev pub queued_anywhere : ℕ → State → ℕ
queued_anywhere k s =
    queued k s.foreground_lane.consumers
    + queued k s.normal_lane.consumers
    + queued k s.background_lane.consumers
    + queued k s.maintenance_lane.consumers

-- How many jobs wait.
abbrev pub waiting_jobs : State → ℕ
waiting_jobs s =
    size s.foreground_lane.consumers
    + size s.normal_lane.consumers
    + size s.background_lane.consumers
    + size s.maintenance_lane.consumers

abbrev pub endings : ℕ → List (ℕ × Ending) → ℕ
endings k = count_if (λ e. e.0 == k)

-- How often an id stands anywhere.
abbrev pub places : ℕ → State → ℕ
places k s = queued_anywhere k s + occurrences k s.active + endings k s.ended

-- Ids below `next_id` stand in one place, others in none; `waiting` is the number of waiting jobs.
pub record IsPlaced (s : State) : Type 0 where
  pub each : (k : ℕ) → places k s ≡ (if ltb k s.next_id then 1 else 0)
  pub counted : s.waiting ≡ waiting_jobs s

pub queued_anywhere-set_lane :
    (k : ℕ) (c : Class) (l : Lane) (s : State)
    → queued_anywhere k (set_lane c l s) + queued k (lane c s).consumers
      ≡ queued_anywhere k s + queued k l.consumers
queued_anywhere-set_lane k foreground l s = omega arith
queued_anywhere-set_lane k normal l s = omega arith
queued_anywhere-set_lane k background l s = omega arith
queued_anywhere-set_lane k maintenance l s = omega arith

pub waiting_jobs-set_lane :
    (c : Class) (l : Lane) (s : State)
    → waiting_jobs (set_lane c l s) + size (lane c s).consumers ≡ waiting_jobs s + size l.consumers
waiting_jobs-set_lane foreground l s = omega arith
waiting_jobs-set_lane normal l s = omega arith
waiting_jobs-set_lane background l s = omega arith
waiting_jobs-set_lane maintenance l s = omega arith

pub set_lane-rest :
    (c : Class) (l : Lane) (s : State)
    → ((set_lane c l s).active ≡ s.active)
      × ((set_lane c l s).ended ≡ s.ended)
      × ((set_lane c l s).next_id ≡ s.next_id)
      × ((set_lane c l s).waiting ≡ s.waiting)
      × ((set_lane c l s).intents ≡ s.intents)
set_lane-rest foreground l s = (refl, refl, refl, refl, refl)
set_lane-rest normal l s = (refl, refl, refl, refl, refl)
set_lane-rest background l s = (refl, refl, refl, refl, refl)
set_lane-rest maintenance l s = (refl, refl, refl, refl, refl)

-- A taken job has left its lane for the active set.
start-taken-IsPlaced :
    (s : State) (j : Job) (c : Class) (preferred : ℕ) (l : Lane)
    → IsPlaced s
    → take_from_lane (runnable s) (lane c s) ≡ some (j, l)
    → IsPlaced (start j (taken c l preferred s))
unfolding start count_if
start-taken-IsPlaced s j c preferred l v h =
    let fact = take_from_lane-IsTaken (runnable s) (lane c s) j l h in
    let (active, ended, next_id, waiting, _) = set_lane-rest c l s in
    record {
      each = λ k.
          rw (active, ended, next_id)
            (omega (
              arith,
              queued_anywhere-set_lane k c l s,
              fact.queued_once k,
              v.each k,
              count_if-append (λ (i : Job). i.id == k) s.active (j ∷ []),
            ));
      counted = omega (arith, v.counted, waiting, waiting_jobs-set_lane c l s, fact.size_less);
    }

pub start-IsPlaced :
    (s : State) (j : Job) (t : State) → IsPlaced s → TakesFrom s j t → IsPlaced (start j t)
start-IsPlaced s j t v (from c preferred l h e) =
    subst (λ u. IsPlaced (start j u)) e (start-taken-IsPlaced s j c preferred l v h)

pub pump-IsPlaced : (s : State) → IsPlaced s → IsPlaced (pump s)
pump-IsPlaced =
    pump-induction IsPlaced (λ s j t v h. start-IsPlaced s j t v (take-TakesFrom s j t h))
