-- ===== src/Vault/Requests.antt =====
-- src/services/vault-request-queue.js: the queue that sends requests to the vault, at most five at
-- a time, in a priority and a normal lane. Each entry point is a function on the queue's state. The
-- clock is an argument of each call. `send` and `beforeSend` are the caller's, hence parameters;
-- diagnostics (`onDebug`) are left out. A nested `drain` returns at once while one runs, so the loop
-- below settles jobs by `settle`, and only `finish` drains again.
pub mod Jobs
pub mod Places
pub mod Limits
pub mod Idle
pub mod Cancel
pub mod Streaks
pub mod Fairness
pub mod Draining
pub mod Events
mod Tests
use billion.Common.{
  ℕ, suc, zero, ◌+◌, ◌-◌, Bool, true, false, not, ◌&&◌, ◌||◌, Option, none, some, List, [], ◌∷◌,
  ◌++◌, ltb, leb, ◌==◌, min, if◌then◌else◌, length, count_if, find,
}
use Jobs.{Job, remove}

-- Why a request failed.
pub data Failure : Type 0 where
  timed_out canceled connection_changed queue_closed : Failure
  thrown : ℕ → Failure

-- What the promise of a request resolves with.
pub data Reply : Type 0 where
  result : ℕ → Reply
  failure : Failure → Reply

-- A call of the caller's code, which may throw.
pub data Attempt {ℓ} (A : Type ℓ) : Type ℓ where
  returned : A → Attempt A
  threw : ℕ → Attempt A

-- `beforeSend` may answer early; `send` gets the port and the time left, and its promise settles
-- later, by `finish`.
pub record Caller : Type 0 where
  pub before_send : Job → Attempt (Option Reply)
  pub send : ℕ → Job → Option ℕ → Attempt (Unit {0})

-- A start, as it is recorded: whether the job has priority, and whether a normal one was eligible then.
pub record Start : Type 0 where
  pub priority : Bool
  pub passes : Bool

-- `settled` lists the promises resolved so far, oldest first: a job is `done` if its id is there.
-- `started` records the starts, newest first; the code keeps no such list, and no test reads it.
pub record State : Type 0 where
  pub waiting_normal : List Job
  pub waiting_priority : List Job
  pub running : List Job
  pub port : Option ℕ
  pub closed : Bool
  pub preferred : ℕ
  pub next_id : ℕ
  pub settled : List (ℕ × Reply)
  pub started : List Start

pub init : State
init = record {
  waiting_normal = [];
  waiting_priority = [];
  running = [];
  port = none;
  closed = false;
  preferred = 0;
  next_id = 0;
  settled = [];
  started = [];
}

abbrev pub is_settled : ℕ → List (ℕ × Reply) → Bool
is_settled id [] = false
is_settled id ((k, r) ∷ rest) = k == id || is_settled id rest

-- `finish`, up to its call of `drain`.
pub settle : State → Job → Reply → State
settle s j r = if is_settled j.id s.settled then s else record s {
  running = remove j.id s.running;
  waiting_normal = if j.priority then s.waiting_normal else remove j.id s.waiting_normal;
  waiting_priority = if j.priority then remove j.id s.waiting_priority else s.waiting_priority;
  settled = s.settled ++ (j.id, r) ∷ [];
}

pub eligible : List Job → Job → Bool
eligible active j =
    (not j.chunk || ltb (count_if (λ a. a.chunk) active) 2)
    && (not j.archive || ltb (count_if (λ a. a.archive) active) 2)

pub normal_candidate : State → Option Job
normal_candidate s =
    if ltb (count_if (λ a. not a.priority) s.running) 4
    then find (eligible s.running) s.waiting_normal
    else none

pub priority_candidate : State → Option Job
priority_candidate s = find (eligible s.running) s.waiting_priority

-- `normal && (!priority || preferred >= 3) ? normal : priority || normal`
pub choose : ℕ → Option Job → Option Job → Option Job
choose preferred none priority = priority
choose preferred (some n) none = some n
choose preferred (some n) (some p) = if leb 3 preferred then some n else some p

pub pick : State → Option Job
pick s = choose s.preferred (normal_candidate s) (priority_candidate s)

pub is_expired : ℕ → Option ℕ → Bool
is_expired now none = false
is_expired now (some d) = leb d now

time_left : ℕ → Option ℕ → Option ℕ
time_left now none = none
time_left now (some d) = some (d - now)

is_there : Option Job → Bool
is_there none = false
is_there (some j) = true

-- The chosen job leaves its lane and runs.
pub start : State → Job → State
unfolding is_there
start s j = record s {
  waiting_normal = if j.priority then s.waiting_normal else remove j.id s.waiting_normal;
  waiting_priority = if j.priority then remove j.id s.waiting_priority else s.waiting_priority;
  running = s.running ++ j ∷ [];
  preferred = if j.priority then min 3 (s.preferred + 1) else 0;
  started =
      record { priority = j.priority; passes = j.priority && is_there (normal_candidate s) }
      ∷ s.started;
}

-- The jobs that `cancel` takes a snapshot of.
abbrev pub jobs : State → List Job
jobs s = s.running ++ s.waiting_normal ++ s.waiting_priority

pub settle_all : List Job → Reply → State → State
settle_all [] r s = s
settle_all (j ∷ js) r s = settle_all js r (settle s j r)

-- With no port, the drains of `finish` do nothing.
pub cancel : Failure → State → State
cancel why s =
    let quiet : State = record s { port = none } in
    let emptied = settle_all (jobs s) (failure why) quiet in record emptied { port = s.port }

same_port : Option ℕ → Option ℕ → Bool
same_port none none = true
same_port none (some q) = false
same_port (some p) none = false
same_port (some p) (some q) = p == q

replace_port : Option ℕ → State → State
replace_port none s = s
replace_port (some p) s = cancel connection_changed s

pub close : State → State
close s = record (cancel queue_closed (record s { closed = true })) { port = none }

module _ (caller : Caller) where
  open caller use {before_send, send}

  send_now : ℕ → ℕ → State → Job → State
  unfolding time_left
  send_now p now s j = elim (send p j (time_left now j.deadline)) [
    | returned _ ↦ s
    | threw e ↦ settle s j (failure (thrown e))
  ]

  pub launch : ℕ → ℕ → State → Job → State
  unfolding send_now
  launch p now s j = elim (before_send j) [
    | threw e ↦ settle s j (failure (thrown e))
    | returned (some early) ↦ settle s j early
    | returned none ↦ send_now p now s j
  ]

  -- One round of the loop of `drain`, for the job that it picked.
  pub advance : ℕ → ℕ → State → Job → State
  advance p now s j =
      if is_expired now j.deadline
      then settle s j (failure timed_out)
      else launch p now (start s j) j

  pub drain_loop : ℕ → ℕ → ℕ → State → State
  drain_loop zero p now s = s
  drain_loop (suc fuel) p now s = elim (ltb (length s.running) 5) [
    | false ↦ s
    | true ↦ elim (pick s) [ none ↦ s | some j ↦ drain_loop fuel p now (advance p now s j) ]
  ]

  -- Each round takes a job off a lane, so the waiting jobs bound the rounds.
  pub drain_when : Bool → Option ℕ → ℕ → State → State
  drain_when true port now s = s
  drain_when false none now s = s
  drain_when false (some p) now s =
      drain_loop (length s.waiting_normal + length s.waiting_priority) p now s

  pub drain : ℕ → State → State
  drain now s = drain_when s.closed s.port now s

  -- The callbacks of a timer and of a promise hold the job; one that is in no list is done.
  pub finish : ℕ → State → ℕ → Reply → State
  finish now s id r = elim (find (λ j. j.id == id) (jobs s)) [
    | none ↦ s
    | some j ↦ if is_settled j.id s.settled then s else drain now (settle s j r)
  ]

  -- `ask`, not instant: the classification is an argument, and the id stands for the promise.
  pub ask : ℕ → Bool → Bool → Bool → Option ℕ → State → State
  ask now priority chunk archive timeout s =
      if s.closed
      then s
      else let job : Job = record {
        id = s.next_id;
        priority = priority;
        chunk = chunk;
        archive = archive;
        deadline = elim timeout [ none ↦ none | some t ↦ some (now + t) ];
      } in
        drain now (record s {
          next_id = suc s.next_id;
          waiting_normal = if priority then s.waiting_normal else s.waiting_normal ++ job ∷ [];
          waiting_priority =
              if priority then s.waiting_priority ++ job ∷ [] else s.waiting_priority;
        })

  pub set_port : ℕ → Option ℕ → State → State
  set_port now next s =
      if same_port next s.port || s.closed
      then s
      else drain now (record (replace_port s.port s) { port = next })

-- One call from outside: by an app (`ask`), by a timer or a settled promise (`finish`), by the
-- connection (`setPort`), or by the launcher.
pub data Event : Type 0 where
  asks : Bool → Bool → Bool → Option ℕ → Event
  finishes : ℕ → Reply → Event
  sets_port : Option ℕ → Event
  cancels closes : Event

module _ (caller : Caller) where
  pub step : State → ℕ × Event → State
  step s (now, asks priority chunk archive timeout) =
      ask caller now priority chunk archive timeout s
  step s (now, finishes id r) = finish caller now s id r
  step s (now, sets_port next) = set_port caller now next s
  step s (now, cancels) = cancel canceled s
  step s (now, closes) = close s

  pub run : State → List (ℕ × Event) → State
  run s [] = s
  run s (e ∷ es) = run (step s e) es
