-- ===== src/Network/Retry.antt =====
-- src/services/connectivity-retry.js: `ConnectivityRetryCoordinator`. Waiters hold promises that the
-- return of the network resolves; tasks run with a bound on how many run at once. A promise is known
-- by an id, an abort signal by a number, `settled` lists what became of each promise.
pub mod Places
pub mod Waiters
pub mod Bounds
pub mod Listening
pub mod Events
mod Tests
use billion.Common.{
  ℕ, suc, ◌+◌, ◌-◌, ◌≤◌, Bool, true, false, ◌&&◌, ◌||◌, not, Option, none, some, List, [], ◌∷◌,
  ◌++◌, map, ltb, ◌==◌, if◌then◌else◌, length,
}

pub data Reply : Type 0 where
  online timed_out aborted : Reply
  result : ℕ → Reply

pub record Waiter : Type 0 where
  pub id : ℕ
  pub signal : Option ℕ

pub record Item : Type 0 where
  pub id : ℕ
  pub signal : Option ℕ
  pub timeout : Option ℕ

-- `active` are the items that hold a slot, `late` those whose timer freed the slot before their end.
pub record State : Type 0 where
  pub waiters : List Waiter
  pub queue : List Item
  pub running : ℕ
  pub active : List Item
  pub late : List Item
  pub listening : Bool
  pub checking : Bool
  pub last_online_at : ℕ
  pub aborted_signals : List ℕ
  pub next_id : ℕ
  pub settled : List (ℕ × Reply)

pub init : State
init = record {
  waiters = [];
  queue = [];
  running = 0;
  active = [];
  late = [];
  listening = false;
  checking = false;
  last_online_at = 0;
  aborted_signals = [];
  next_id = 0;
  settled = [];
}

pub is_in : ℕ → List ℕ → Bool
is_in k [] = false
is_in k (i ∷ is) = i == k || is_in k is

-- `signal?.aborted`
pub is_aborted : Option ℕ → List ℕ → Bool
unfolding is_in
is_aborted none is = false
is_aborted (some k) is = is_in k is

-- The answer of `confirmOnline`, where it does not depend on the check in flight.
pub data Confirmation : Type 0 where
  known : Bool → Confirmation
  checks : Confirmation

-- `confirmOnline`, with `navigator.onLine`.
pub confirm_online : Bool → Bool → ℕ → State → Confirmation × State
confirm_online navigator_online force now s =
    if not navigator_online
    then (known false, s)
    else if not force && ltb (now - s.last_online_at) 5000
    then (known true, s)
    else (checks, record s { checking = true })

-- The end of the check in flight; a check that throws answers no.
pub end_check : Bool → ℕ → State → State
end_check is_online now s = record s {
  checking = false;
  last_online_at = if is_online then now else s.last_online_at;
}

pub is_empty : List Waiter → Bool
is_empty [] = true
is_empty (w ∷ ws) = false

pub stop_if_idle : State → State
unfolding is_empty
stop_if_idle s = if is_empty s.waiters then record s { listening = false } else s

-- `waitUntilOnline`, then `startMonitor`.
pub wait_until_online : Option ℕ → State → State
unfolding is_aborted
wait_until_online signal s =
    if is_aborted signal s.aborted_signals
    then record s { next_id = suc s.next_id; settled = s.settled ++ (s.next_id, aborted) ∷ [] }
    else record s {
      next_id = suc s.next_id;
      waiters = s.waiters ++ record { id = s.next_id; signal = signal } ∷ [];
      listening = true;
    }

-- `releaseWaiters`
pub release_waiters : ℕ → State → State
unfolding stop_if_idle
release_waiters now s = stop_if_idle (record s {
  last_online_at = now;
  waiters = [];
  settled = s.settled ++ map (λ w. (w.id, online)) s.waiters;
})

pub without_waiter : ℕ → List Waiter → List Waiter
without_waiter k [] = []
without_waiter k (w ∷ ws) = if w.id == k then ws else w ∷ without_waiter k ws

-- `onAbort` of a waiter.
pub abort_waiter : ℕ → State → State
unfolding without_waiter stop_if_idle
abort_waiter k s =
    stop_if_idle
      (record s { waiters = without_waiter k s.waiters; settled = s.settled ++ (k, aborted) ∷ [] })

has_signal : ℕ → Option ℕ → Bool
has_signal k none = false
has_signal k (some i) = i == k

-- The listeners of a signal, in the order in which they came.
pub listeners : ℕ → List Waiter → List ℕ
unfolding has_signal
listeners k [] = []
listeners k (w ∷ ws) =
    let rest = listeners k ws in if has_signal k w.signal then w.id ∷ rest else rest

pub abort_all : List ℕ → State → State
abort_all [] s = s
abort_all (i ∷ is) s = abort_all is (abort_waiter i s)

-- The abort of a signal. Items of the queue look at it when their turn comes.
pub abort_signal : ℕ → State → State
unfolding abort_all listeners
abort_signal k s =
    abort_all (listeners k s.waiters) (record s { aborted_signals = k ∷ s.aborted_signals })

pub without_item : ℕ → List Item → List Item
without_item k [] = []
without_item k (i ∷ is) = if i.id == k then is else i ∷ without_item k is

pub find_item : ℕ → List Item → Option Item
find_item k [] = none
find_item k (i ∷ is) = if i.id == k then some i else find_item k is

-- One round of the loop of `drainQueue`, for an item that left the queue.
pub begin : Item → State → State
begin item s =
    if is_aborted item.signal s.aborted_signals
    then record s { settled = s.settled ++ (item.id, aborted) ∷ [] }
    else record s { running = s.running + 1; active = s.active ++ item ∷ [] }

-- `timeoutMs != null && timeoutMs > 0`
pub has_timer : Option ℕ → Bool
has_timer none = false
has_timer (some ms) = ltb 0 ms

module _ (concurrency : ℕ) where
  -- The loop of `drainQueue`, on the items of the queue.
  pub drain_items : List Item → State → State
  unfolding begin
  drain_items [] s = record s { queue = [] }
  drain_items (item ∷ rest) s =
      if ltb s.running concurrency
      then drain_items rest (begin item s)
      else record s { queue = item ∷ rest }

  pub drain_queue : State → State
  drain_queue s = drain_items s.queue s

  -- `run`
  pub run : Option ℕ → Option ℕ → State → State
  run signal timeout s =
      if is_aborted signal s.aborted_signals
      then record s { next_id = suc s.next_id; settled = s.settled ++ (s.next_id, aborted) ∷ [] }
      else drain_queue (record s {
        next_id = suc s.next_id;
        queue = s.queue ++ record { id = s.next_id; signal = signal; timeout = timeout } ∷ [];
      })

  -- An item leaves its slot with a reply.
  pub free : Item → Reply → State → State
  unfolding without_item
  free item r s = drain_queue (record s {
    settled = s.settled ++ (item.id, r) ∷ [];
    running = s.running - 1;
    active = without_item item.id s.active;
  })

  expire : Option Item → State → State
  unfolding has_timer
  expire none s = s
  expire (some item) s =
      if has_timer item.timeout
      then free item timed_out (record s { late = s.late ++ item ∷ [] })
      else s

  -- The timer of an item.
  pub time_out : ℕ → State → State
  unfolding find_item expire
  time_out k s = expire (find_item k s.active) s

  end_task : ℕ → Reply → Option Item → State → State
  end_task k r none s = record s { late = without_item k s.late }
  end_task k r (some item) s = free item r s

  -- The end of an item's task; that of a late one changes nothing more.
  pub finish : ℕ → Reply → State → State
  unfolding end_task
  finish k r s = end_task k r (find_item k s.active) s

-- One call from outside.
pub data Event : Type 0 where
  waits : Option ℕ → Event
  runs : Option ℕ → Option ℕ → Event
  comes_online : ℕ → Event
  aborts : ℕ → Event
  times_out : ℕ → Event
  finishes : ℕ → Reply → Event

module _ (concurrency : ℕ) where
  pub step : State → Event → State
  step s (waits signal) = wait_until_online signal s
  step s (runs signal timeout) = run concurrency signal timeout s
  step s (comes_online now) = if s.listening then release_waiters now s else s
  step s (aborts k) = abort_signal k s
  step s (times_out k) = time_out concurrency k s
  step s (finishes k r) = finish concurrency k r s

  pub run_all : State → List Event → State
  run_all s [] = s
  run_all s (e ∷ es) = run_all (step s e) es
