-- ===== src/NostrDb/Scheduler/Events.antt =====
-- access-scheduler.js: what holds after every sequence of calls.
use billion.Common.{ℕ, ◌≤◌, ◌≡◌, ◌≢◌, refl, length, true, Bool, List, [], ◌∷◌, arith, count_if}
use billion.Common.Text.{Str}
use billion.NostrDb.Scheduler.Lanes.{Class, queued, size, empty_lane}
use billion.NostrDb.Scheduler.Places.{IsPlaced}
use billion.NostrDb.Scheduler.Blocking.{IsIdle, take-IsIdle}
use billion.NostrDb.Scheduler.Calls.{
  run-Idle, complete-Idle, release_foreground_intent-Idle, complete-IsPlaced, remove-IsPlaced,
  run-IsPlaced, add_foreground_intent-IsPlaced, release_foreground_intent-IsPlaced,
}
use billion.NostrDb.Scheduler.Cancelling.{cancel_accesses-IsPlaced}
use billion.NostrDb.Scheduler.Exclusion.{
  users, IsExclusive, complete-IsExclusive, remove-IsExclusive, run-IsExclusive,
  add_foreground_intent-IsExclusive, release_foreground_intent-IsExclusive,
  cancel_accesses-IsExclusive,
}
use billion.NostrDb.Scheduler.{
  State, Event, runs, completes, removes, adds_intent, releases_intent, cancels, init, run,
  complete, release_foreground_intent, without_intent, is_active, step, run_all,
}

-- The invariant of the scheduler.
pub record IsValid (s : State) : Type 0 where
  pub placed : IsPlaced s
  pub exclusive : IsExclusive s

init-IsValid : IsValid init
unfolding init empty_lane queued size count_if
init-IsValid = record {
  placed = record { each = λ k. ground arith; counted = refl };
  exclusive = λ st. omega arith;
}

pub step-IsValid : (s : State) (e : Event) → IsValid s → IsValid (step s e)
unfolding step
step-IsValid s (runs stores c readonly consumer preemptible) v = record {
  placed = run-IsPlaced stores c readonly consumer preemptible s v.placed;
  exclusive = run-IsExclusive stores c readonly consumer preemptible s v.exclusive;
}
step-IsValid s (completes k) v = record {
  placed = complete-IsPlaced k s v.placed;
  exclusive = complete-IsExclusive k s v.exclusive;
}
step-IsValid s (removes j) v = record {
  placed = remove-IsPlaced j s v.placed;
  exclusive = remove-IsExclusive j s v.exclusive;
}
step-IsValid s (adds_intent intent) v = record {
  placed = add_foreground_intent-IsPlaced intent s v.placed;
  exclusive = add_foreground_intent-IsExclusive intent s v.exclusive;
}
step-IsValid s (releases_intent k) v = record {
  placed = release_foreground_intent-IsPlaced k s v.placed;
  exclusive = release_foreground_intent-IsExclusive k s v.exclusive;
}
step-IsValid s cancels v = record {
  placed = cancel_accesses-IsPlaced s v.placed;
  exclusive = cancel_accesses-IsExclusive s v.exclusive;
}

run_all-from : (s : State) (es : List Event) → IsValid s → IsValid (run_all s es)
unfolding run_all
run_all-from s [] v = v
run_all-from s (e ∷ es) v = run_all-from (step s e) es (step-IsValid s e v)

pub run_all-IsValid : (es : List Event) → IsValid (run_all init es)
run_all-IsValid es = run_all-from init es init-IsValid

-- After every sequence of calls on a new scheduler, at most one active job uses a store.
pub run_all-IsExclusive : (es : List Event) (st : Str) → users st (run_all init es).active ≤ 1
run_all-IsExclusive es st = (run_all-IsValid es).exclusive st

-- After every sequence of calls on a new scheduler, a job that was run stands in exactly one queue,
-- the active set or the settled promises, once, an id not given out yet stands in none, and `waiting`
-- is the number of jobs in the queues.
pub run_all-IsPlaced : (es : List Event) → IsPlaced (run_all init es)
run_all-IsPlaced es = (run_all-IsValid es).placed

-- After every sequence of calls and the run of another job, no consumer of any class has a first job
-- that may run.
pub run_all-run-IsIdle :
    (es : List Event) (stores : List Str) (c : Class) (readonly : Bool) (consumer : Str)
    (preemptible : Bool)
    → IsIdle (run stores c readonly consumer preemptible (run_all init es))
run_all-run-IsIdle es stores c readonly consumer preemptible =
    take-IsIdle _ (run-Idle stores c readonly consumer preemptible _ (run_all-IsPlaced es))

-- After every sequence of calls and the end of a job that is active then, no consumer of any class has
-- a first job that may run.
pub run_all-complete-IsIdle :
    (es : List Event) (k : ℕ)
    → is_active k (run_all init es).active ≡ true
    → IsIdle (complete k (run_all init es))
run_all-complete-IsIdle es k h = take-IsIdle _ (complete-Idle k _ (run_all-IsPlaced es) h)

-- After every sequence of calls and the release of an intent that is held then, no consumer of any
-- class has a first job that may run.
pub run_all-release-IsIdle :
    (es : List Event) (k : ℕ)
    → length (without_intent k (run_all init es).intents) ≢ length (run_all init es).intents
    → IsIdle (release_foreground_intent k (run_all init es))
run_all-release-IsIdle es k h =
    take-IsIdle _ (release_foreground_intent-Idle k _ (run_all-IsPlaced es) h)
