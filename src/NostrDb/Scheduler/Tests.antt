-- ===== src/NostrDb/Scheduler/Tests.antt =====
-- Runs of the scheduler, and the theorems about it at concrete inputs.
use billion.Common.{
  ◌⊎◌, length, ◌≤◌, ◌≡◌, ◌≢◌, refl, true, false, none, some, List, [], ◌∷◌, map, count_if, inl,
  arith,
}
use billion.NostrDb.Scheduler.Stores.{is_refused, IsNormal, normalize_stores, normalize_stores_lem}
use billion.Common.Text.{Str, str_eq}
use billion.NostrDb.Scheduler.Lanes.{
  background, normal, foreground, Job, empty_lane, intersects, push, head_at, take_from_lane,
  queue_of,
}
use billion.NostrDb.Scheduler.Places.{IsPlaced}
use billion.NostrDb.Scheduler.Exclusion.{users}
use billion.NostrDb.Scheduler.Blocking.{IsIdle}
use billion.NostrDb.Scheduler.Events.{
  run_all-IsExclusive, run_all-IsPlaced, run_all-complete-IsIdle, run_all-release-IsIdle,
}
use billion.NostrDb.Scheduler.Fairness.{Overtakes, here, next, Overtakes-le-three}
use billion.NostrDb.Scheduler.{
  State, Event, runs, completes, removes, adds_intent, init, runnable, take_class, or_else,
  take_in_order, take, start, pump_loop, pump, run, without_active, is_active, complete, remove,
  step, run_all, completed, aborted, active_stores, intent_stores, into_state, without_intent,
  release_foreground_intent, add_foreground_intent, preempts, is_preempted, cancel_accesses,
  waiting_ids,
}

abbrev events : Str
events = 101 ∷ []

abbrev tags : Str
tags = 116 ∷ []

abbrev app : Str
app = 97 ∷ []

abbrev other_app : Str
other_app = 98 ∷ []

-- Two writers of one store, a reader of another that comes under an intent, and an abort.
abbrev script : List Event
script =
    runs (events ∷ []) normal false app false
    ∷ runs (events ∷ tags ∷ []) foreground false other_app false
    ∷ runs (events ∷ []) background false app false
    ∷ adds_intent (record { id = 8; stores = tags ∷ [] })
    ∷ runs (tags ∷ []) background true other_app true
    ∷ completes 0
    ∷ removes (record {
      id = 2;
      stores = events ∷ [];
      class = background;
      readonly = false;
      consumer = app;
      preemptible = false;
    })
    ∷ []

-- What the file's functions unfold to.
scheduler : Unit {0}
unfolding run_all step run complete remove pump pump_loop start take take_in_order take_class
    or_else into_state runnable active_stores intent_stores without_active is_active without_intent
    release_foreground_intent add_foreground_intent preempts is_preempted cancel_accesses
    waiting_ids init count_if
scheduler = tt

script_active : map (λ j. j.id) (run_all init script).active ≡ 1 ∷ []
unfolding scheduler queue_of take_from_lane empty_lane push head_at intersects str_eq
script_active = refl

script_ended : (run_all init script).ended ≡ (0, completed) ∷ (2, aborted) ∷ []
unfolding scheduler queue_of take_from_lane empty_lane push head_at intersects str_eq
script_ended = refl

run_all-IsExclusive_example : users events (run_all init script).active ≤ 1
run_all-IsExclusive_example = run_all-IsExclusive script events

run_all-IsPlaced_example : IsPlaced (run_all init script)
run_all-IsPlaced_example = run_all-IsPlaced script

one_is_active : is_active 1 (run_all init script).active ≡ true
unfolding scheduler queue_of take_from_lane empty_lane push head_at intersects str_eq
one_is_active = refl

run_all-complete-IsIdle_example : IsIdle (complete 1 (run_all init script))
run_all-complete-IsIdle_example = run_all-complete-IsIdle script 1 one_is_active

intent_is_held :
    length (without_intent 8 (run_all init script).intents) ≢ length (run_all init script).intents
unfolding scheduler queue_of take_from_lane empty_lane push head_at intersects str_eq
intent_is_held e = ground arith

run_all-release-IsIdle_example : IsIdle (release_foreground_intent 8 (run_all init script))
run_all-release-IsIdle_example = run_all-release-IsIdle script 8 intent_is_held

abbrev named_twice : List Str
named_twice = tags ∷ events ∷ tags ∷ []

normalize_stores_lem_example :
    ((is_refused named_twice ≡ true) × (normalize_stores named_twice ≡ none))
    ⊎ ((is_refused named_twice ≡ false)
        × ((ys : List Str) × (normalize_stores named_twice ≡ some ys) × IsNormal named_twice ys))
normalize_stores_lem_example = normalize_stores_lem named_twice

abbrev front : Job
front = record {
  id = 0;
  stores = events ∷ [];
  class = foreground;
  readonly = false;
  consumer = app;
  preemptible = false;
}

abbrev back : Job
back = record {
  id = 1;
  stores = tags ∷ [];
  class = background;
  readonly = true;
  consumer = app;
  preemptible = true;
}

-- A job of the foreground and one of the background wait.
abbrev both : State
both = record init {
  foreground_lane = record {
    consumers = record { name = app; queue = front ∷ [] } ∷ [];
    cursor = 0;
  };
  background_lane = record {
    consumers = record { name = app; queue = back ∷ [] } ∷ [];
    cursor = 0;
  };
  waiting = 2;
  next_id = 2;
}

abbrev after_front : State
after_front = record both { foreground_lane = empty_lane; preferred = 1; waiting = 1 }

both-take : take both ≡ some (front, after_front)
unfolding scheduler queue_of take_from_lane empty_lane push head_at intersects str_eq
both-take = refl

back_waits : take_class background 0 both ≢ none
unfolding scheduler queue_of take_from_lane empty_lane push head_at intersects str_eq
back_waits e = ground arith

one_pass : Overtakes both 1 after_front
one_pass = next here front after_front (inl back_waits) both-take (refl, refl)

Overtakes-le-three_example : 1 ≤ 3
Overtakes-le-three_example = Overtakes-le-three both 1 after_front one_pass
