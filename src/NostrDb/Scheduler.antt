-- ===== src/NostrDb/Scheduler.antt =====
-- src/services/idb/nostrdb/access-scheduler.js: accesses to the event store run one at a time on each
-- store, in four classes. `createScheduler` is one owner's scheduler: each of its methods is a
-- function on the state. A job's operation is the caller's: its end is a call of `complete`.
-- `performance` records are left out, and so is the registry of schedulers by owner.
pub mod Lanes
pub mod Stores
pub mod Taking
pub mod Places
pub mod Blocking
pub mod Idle
pub mod Calls
pub mod Cancelling
pub mod Events
pub mod Exclusion
pub mod Fairness
mod Tests
use billion.Common.{
  ℕ, zero, suc, ◌+◌, ◌-◌, Bool, true, false, ◌&&◌, ◌||◌, not, Option, none, some, List, [], ◌∷◌,
  ◌++◌, map, ltb, leb, ◌==◌, if◌then◌else◌, length,
}
use billion.Common.Text.{Str}
use Lanes.{
  Class, maintenance, background, normal, foreground, Job, Consumer, Lane, empty_lane, intersects,
  push, take_from_lane, remove_from_lane, size, contains, queue_of, occurrences,
}

pub record Intent : Type 0 where
  pub id : ℕ
  pub stores : List Str

-- How a promise was settled without running its operation to the end.
pub data Ending : Type 0 where
  completed cancelled aborted : Ending

pub record State : Type 0 where
  pub foreground_lane : Lane
  pub normal_lane : Lane
  pub background_lane : Lane
  pub maintenance_lane : Lane
  pub active : List Job
  pub intents : List Intent
  pub preferred : ℕ
  pub waiting : ℕ
  pub next_id : ℕ
  pub preempted : List ℕ
  pub ended : List (ℕ × Ending)

abbrev pub starvation_limit : ℕ
starvation_limit = 3

pub init : State
init = record {
  foreground_lane = empty_lane;
  normal_lane = empty_lane;
  background_lane = empty_lane;
  maintenance_lane = empty_lane;
  active = [];
  intents = [];
  preferred = 0;
  waiting = 0;
  next_id = 0;
  preempted = [];
  ended = [];
}

abbrev pub lane : Class → State → Lane
lane foreground s = s.foreground_lane
lane normal s = s.normal_lane
lane background s = s.background_lane
lane maintenance s = s.maintenance_lane

abbrev pub set_lane : Class → Lane → State → State
set_lane foreground l s = record s { foreground_lane = l }
set_lane normal l s = record s { normal_lane = l }
set_lane background l s = record s { background_lane = l }
set_lane maintenance l s = record s { maintenance_lane = l }

pub active_stores : List Job → List Str
active_stores [] = []
active_stores (j ∷ js) = j.stores ++ active_stores js

pub intent_stores : List Intent → List Str
intent_stores [] = []
intent_stores (i ∷ is) = i.stores ++ intent_stores is

pub runnable : State → Job → Bool
unfolding intent_stores active_stores
runnable s j =
    not (j.readonly && intersects j.stores (intent_stores s.intents))
    && not (intersects j.stores (active_stores s.active))

-- The state once a job has left its lane.
abbrev pub taken : Class → Lane → ℕ → State → State
taken c l preferred s = record (set_lane c l s) { preferred = preferred; waiting = s.waiting - 1 }

into_state : Class → ℕ → State → Option (Job × Lane) → Option (Job × State)
into_state c preferred s none = none
into_state c preferred s (some (j, l)) = some (j, taken c l preferred s)

-- `takeFromClass` in the state, and the new value of `preferred`.
pub take_class : Class → ℕ → State → Option (Job × State)
unfolding into_state
take_class c preferred s = into_state c preferred s (take_from_lane (runnable s) (lane c s))

pub or_else : Option (Job × State) → Option (Job × State) → Option (Job × State)
or_else none later = later
or_else (some found) later = some found

-- The second loop of `take`, in the order of the classes.
pub take_in_order : State → Option (Job × State)
unfolding take_class or_else
take_in_order s = or_else (take_class foreground (s.preferred + 1) s) (
    or_else (take_class normal (s.preferred + 1) s)
      (or_else (take_class background 0 s) (take_class maintenance 0 s)))

pub take : State → Option (Job × State)
unfolding take_in_order
take s =
    if leb starvation_limit s.preferred
    then or_else (take_class background 0 s)
        (or_else (take_class maintenance 0 s) (take_in_order s))
    else take_in_order s

-- `start`, up to the call of the operation.
pub start : Job → State → State
start j s = record s { active = s.active ++ j ∷ [] }

pub pump_loop : ℕ → State → State
unfolding start
pump_loop zero s = s
pump_loop (suc rounds) s = elim (take s) [ none ↦ s | some (j, t) ↦ pump_loop rounds (start j t) ]

-- Each round starts a waiting job, so their number bounds the rounds.
pub pump : State → State
pump s = pump_loop s.waiting s

-- `run`, for a job with the next id.
pub run : List Str → Class → Bool → Str → Bool → State → State
run stores class readonly consumer preemptible s =
    let job : Job = record {
      id = s.next_id;
      stores = stores;
      class = class;
      readonly = readonly;
      consumer = consumer;
      preemptible = preemptible;
    } in
    let l = lane class s in
    pump (record (set_lane class (record l { consumers = push job l.consumers }) s) {
      waiting = s.waiting + 1;
      next_id = suc s.next_id;
    })

pub without_active : ℕ → List Job → List Job
without_active k [] = []
without_active k (j ∷ js) = if j.id == k then js else j ∷ without_active k js

pub is_active : ℕ → List Job → Bool
is_active k [] = false
is_active k (j ∷ js) = j.id == k || is_active k js

-- The end of a job's operation, whatever its result.
pub complete : ℕ → State → State
unfolding without_active is_active
complete k s =
    if is_active k s.active
    then pump
        (record s { active = without_active k s.active; ended = s.ended ++ (k, completed) ∷ [] })
    else s

-- `remove`, called by the abort of a job's signal: a job that no longer waits is left alone.
pub remove : Job → State → State
remove j s =
    if occurrences j.id (queue_of j.consumer (lane j.class s).consumers) == 0
    then s
    else record (set_lane j.class (remove_from_lane j (lane j.class s)) s) {
      waiting = s.waiting - 1;
      ended = s.ended ++ (j.id, aborted) ∷ [];
    }

is_preempted : ℕ → List ℕ → Bool
is_preempted k [] = false
is_preempted k (i ∷ is) = i == k || is_preempted k is

-- The active jobs that an intent preempts, but for those told to stop before.
preempts : List Str → List ℕ → List Job → List ℕ
unfolding is_preempted
preempts stores before [] = []
preempts stores before (j ∷ js) =
    let rest = preempts stores before js in
    if ((j.preemptible && j.readonly) && intersects j.stores stores)
      && not (is_preempted j.id before)
    then j.id ∷ rest
    else rest

pub add_foreground_intent : Intent → State → State
unfolding preempts
add_foreground_intent intent s = record s {
  intents = s.intents ++ intent ∷ [];
  preempted = s.preempted ++ preempts intent.stores s.preempted s.active;
}

pub without_intent : ℕ → List Intent → List Intent
without_intent k [] = []
without_intent k (i ∷ is) = if i.id == k then is else i ∷ without_intent k is

pub release_foreground_intent : ℕ → State → State
unfolding without_intent
release_foreground_intent k s =
    if length (without_intent k s.intents) == length s.intents
    then s
    else pump (record s { intents = without_intent k s.intents })

pub waiting_ids : List Consumer → List ℕ
waiting_ids [] = []
waiting_ids (c ∷ cs) = map (λ j. j.id) c.queue ++ waiting_ids cs

-- `cancelNostrDbAccesses`: `cancelWaiting`, then `clearForegroundIntents`. The rejected jobs are
-- listed class by class.
pub cancel_accesses : State → State
unfolding waiting_ids
cancel_accesses s =
    let ids =
      waiting_ids s.foreground_lane.consumers
      ++ (waiting_ids s.normal_lane.consumers
          ++ (waiting_ids s.background_lane.consumers
              ++ waiting_ids s.maintenance_lane.consumers)) in
    record s {
      foreground_lane = empty_lane;
      normal_lane = empty_lane;
      background_lane = empty_lane;
      maintenance_lane = empty_lane;
      waiting = s.waiting - length ids;
      intents = [];
      ended = s.ended ++ map (λ k. (k, cancelled)) ids;
    }

-- One call from outside.
pub data Event : Type 0 where
  runs : List Str → Class → Bool → Str → Bool → Event
  completes : ℕ → Event
  removes : Job → Event
  adds_intent : Intent → Event
  releases_intent : ℕ → Event
  cancels : Event

pub step : State → Event → State
step s (runs stores class readonly consumer preemptible) =
    run stores class readonly consumer preemptible s
step s (completes k) = complete k s
step s (removes j) = remove j s
step s (adds_intent intent) = add_foreground_intent intent s
step s (releases_intent k) = release_foreground_intent k s
step s cancels = cancel_accesses s

pub run_all : State → List Event → State
run_all s [] = s
run_all s (e ∷ es) = run_all (step s e) es
