-- ===== src/NostrDb/Scheduler/Lanes.antt =====
-- src/services/idb/nostrdb/access-scheduler.js: jobs, and the waiting jobs of one class, queued by
-- consumer.
pub mod Scanning
pub mod Searching
use billion.Common.{
  ℕ, zero, suc, ◌+◌, ◌-◌, ◌%◌, ◌≤◌, ◌<◌, ◌≡◌, refl, Bool, true, false, ◌&&◌, ◌||◌, not, Option,
  none, some, List, [], ◌∷◌, ◌++◌, arith, ltb, ◌==◌, if◌then◌else◌, length, count_if, Option-cases,
  Bool-cases, inl, inr,
}
use billion.Common.Text.{Str, str_eq}

pub data Class : Type 0 where
  maintenance background normal foreground : Class

-- The id stands for the identity of the source's object.
pub record Job : Type 0 where
  pub id : ℕ
  pub stores : List Str
  pub class : Class
  pub readonly : Bool
  pub consumer : Str
  pub preemptible : Bool

pub record Consumer : Type 0 where
  pub name : Str
  pub queue : List Job

-- `queues`, `consumers` and `cursors` of one class: the consumers in the order of the array, each
-- with its queue.
pub record Lane : Type 0 where
  pub consumers : List Consumer
  pub cursor : ℕ

unfoldable pub empty_lane : Lane
empty_lane = record { consumers = []; cursor = 0 }

unfoldable pub contains : List Str → Str → Bool
contains [] s = false
contains (x ∷ xs) s = str_eq x s || contains xs s

-- `left.some(store => right.includes(store))`
unfoldable pub intersects : List Str → List Str → Bool
unfolding contains
intersects [] right = false
intersects (s ∷ left) right = contains right s || intersects left right

-- `consumerQueue(className, consumerId).push(job)`
unfoldable pub push : Job → List Consumer → List Consumer
push j [] = record { name = j.consumer; queue = j ∷ [] } ∷ []
push j (c ∷ cs) =
    if str_eq c.name j.consumer then record c { queue = c.queue ++ j ∷ [] } ∷ cs else c ∷ push j cs

unfoldable pub head : List Job → Option Job
head [] = none
head (j ∷ js) = some j

unfoldable pub tail : List Job → List Job
tail [] = []
tail (j ∷ js) = js

-- The first job of the consumer at a position.
unfoldable pub head_at : ℕ → List Consumer → Option Job
unfolding head
head_at i [] = none
head_at zero (c ∷ cs) = head c.queue
head_at (suc i) (c ∷ cs) = head_at i cs

unfoldable pub keep_consumer : Str → List Job → List Consumer → List Consumer
keep_consumer name [] cs = cs
keep_consumer name (j ∷ js) cs = record { name = name; queue = j ∷ js } ∷ cs

-- `queue.shift()` there; a consumer without jobs leaves.
unfoldable pub shift_at : ℕ → List Consumer → List Consumer
unfolding keep_consumer tail
shift_at i [] = []
shift_at zero (c ∷ cs) = keep_consumer c.name (tail c.queue) cs
shift_at (suc i) (c ∷ cs) = c ∷ shift_at i cs

-- The cursor once the consumer at `i` has been served: behind it, or where the consumer left, back by
-- one if it stood before the cursor.
unfoldable pub next_cursor : ℕ → ℕ → ℕ → ℕ → ℕ
next_cursor i stored before after =
    if before == after then (i + 1) % before else if ltb i stored then stored - 1 else stored

-- The lane once the consumer at a position has been served.
unfoldable pub served_at : ℕ → Lane → Lane
unfolding shift_at next_cursor
served_at i lane = record {
  consumers = shift_at i lane.consumers;
  cursor = next_cursor i lane.cursor (length lane.consumers) (length (shift_at i lane.consumers));
}

-- One round of the loop of `takeFromClass`: the job at hand, or what the later rounds find.
unfoldable pub try_at :
    (Job → Bool) → ℕ → Lane → Option Job → Option (Job × Lane) → Option (Job × Lane)
unfolding served_at
try_at runnable i lane none later = later
try_at runnable i lane (some j) later = if runnable j then some (j, served_at i lane) else later

-- The loop of `takeFromClass` from a position, with the rounds left.
unfoldable pub scan : (Job → Bool) → ℕ → ℕ → Lane → Option (Job × Lane)
unfolding try_at
scan runnable zero i lane = none
scan runnable (suc rounds) i lane =
    let later = scan runnable rounds ((i + 1) % length lane.consumers) lane in
    try_at runnable i lane (head_at i lane.consumers) later

-- `takeFromClass`
unfoldable pub take_from_lane : (Job → Bool) → Lane → Option (Job × Lane)
unfolding scan
take_from_lane runnable lane =
    scan runnable (length lane.consumers) (lane.cursor % length lane.consumers) lane

-- `splice(indexOf(job), 1)` on each queue.
unfoldable pub remove_job : ℕ → List Job → List Job
remove_job k [] = []
remove_job k (j ∷ js) = if j.id == k then js else j ∷ remove_job k js

-- The consumers without the job, and the position of the one that left, if one did.
unfoldable pub remove_from : Job → List Consumer → List Consumer
unfolding keep_consumer remove_job
remove_from j [] = []
remove_from j (c ∷ cs) =
    if str_eq c.name j.consumer
    then keep_consumer c.name (remove_job j.id c.queue) cs
    else c ∷ remove_from j cs

unfoldable pub position : Str → List Consumer → ℕ
position name [] = 0
position name (c ∷ cs) = if str_eq c.name name then 0 else suc (position name cs)

-- `removeJob`, for a job that waits in the lane.
unfoldable pub remove_from_lane : Job → Lane → Lane
unfolding position remove_from
remove_from_lane j lane =
    let rest = remove_from j lane.consumers in
    record {
      consumers = rest;
      cursor =
          if length rest == length lane.consumers
          then lane.cursor
          else if ltb (position j.consumer lane.consumers) lane.cursor
          then lane.cursor - 1
          else lane.cursor;
    }

abbrev pub occurrences : ℕ → List Job → ℕ
occurrences k = count_if (λ j. j.id == k)

-- `byConsumer.get(consumerId)`
unfoldable pub queue_of : Str → List Consumer → List Job
queue_of name [] = []
queue_of name (c ∷ cs) = if str_eq c.name name then c.queue else queue_of name cs

-- How often an id waits in the lane.
unfoldable pub queued : ℕ → List Consumer → ℕ
queued k [] = 0
queued k (c ∷ cs) = occurrences k c.queue + queued k cs

-- How many jobs wait in the lane.
unfoldable pub size : List Consumer → ℕ
size [] = 0
size (c ∷ cs) = length c.queue + size cs
