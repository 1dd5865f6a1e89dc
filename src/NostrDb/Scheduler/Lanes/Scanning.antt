-- ===== src/NostrDb/Scheduler/Lanes/Scanning.antt =====
-- access-scheduler.js: `takeFromClass` returns a waiting job that passes its test, off its queue, and
-- finds one if the head of a queue passes.
use billion.Common.{
  ℕ, zero, suc, ◌+◌, ◌<◌, ◌≡◌, inl, inr, ◌⊎◌, Bool, true, Option, none, some, List, [], ◌∷◌, arith,
  ◌==◌, if◌then◌else◌, length, count_if, if_cases, count_if-append, length-append,
}
use mathlib.Core.Path.{subst}
use billion.Common.Text.{Str, str_eq}
use billion.NostrDb.Scheduler.Lanes.{
  Job, Consumer, Lane, head, tail, head_at, keep_consumer, shift_at, served_at, try_at, scan,
  take_from_lane, queued, size, push, remove_from, remove_job, queue_of, remove_from_lane,
  occurrences,
}

-- A job left the lane, and it passes the test.
pub record IsTaken (test : Job → Bool) (before after : Lane) (j : Job) : Type 0 where
  pub passes : test j ≡ true
  pub queued_once :
      (k : ℕ) → queued k after.consumers + (if j.id == k then 1 else 0) ≡ queued k before.consumers
  pub size_less : size after.consumers + 1 ≡ size before.consumers

queued-keep_consumer :
    (k : ℕ) (name : Str) (q : List Job) (cs : List Consumer)
    → queued k (keep_consumer name q cs) ≡ occurrences k q + queued k cs
unfolding keep_consumer queued count_if
queued-keep_consumer k name [] cs = omega arith
queued-keep_consumer k name (j ∷ q) cs = omega arith

size-keep_consumer :
    (name : Str) (q : List Job) (cs : List Consumer)
    → size (keep_consumer name q cs) ≡ length q + size cs
unfolding keep_consumer size
size-keep_consumer name [] cs = omega arith
size-keep_consumer name (j ∷ q) cs = omega arith

occurrences-tail :
    (k : ℕ) (q : List Job) (j : Job)
    → head q ≡ some j
    → occurrences k (tail q) + (if j.id == k then 1 else 0) ≡ occurrences k q
unfolding head tail count_if
occurrences-tail k [] j h = ground arith
occurrences-tail k (i ∷ q) j h = ground arith

length-tail : (q : List Job) (j : Job) → head q ≡ some j → length (tail q) + 1 ≡ length q
unfolding head tail
length-tail [] j h = ground arith
length-tail (i ∷ q) j h = omega arith

queued-shift_at :
    (k i : ℕ) (cs : List Consumer) (j : Job)
    → head_at i cs ≡ some j
    → queued k (shift_at i cs) + (if j.id == k then 1 else 0) ≡ queued k cs
unfolding head_at shift_at queued
queued-shift_at k i [] j h = ground arith
queued-shift_at k zero (c ∷ cs) j h =
    omega (arith, queued-keep_consumer k c.name (tail c.queue) cs, occurrences-tail k c.queue j h)
queued-shift_at k (suc i) (c ∷ cs) j h = omega (arith, queued-shift_at k i cs j h)

size-shift_at :
    (i : ℕ) (cs : List Consumer) (j : Job)
    → head_at i cs ≡ some j
    → size (shift_at i cs) + 1 ≡ size cs
unfolding head_at shift_at size
size-shift_at i [] j h = ground arith
size-shift_at zero (c ∷ cs) j h =
    omega (arith, size-keep_consumer c.name (tail c.queue) cs, length-tail c.queue j h)
size-shift_at (suc i) (c ∷ cs) j h = omega (arith, size-shift_at i cs j h)

module _ (test : Job → Bool) (before : Lane) where
  served_at-IsTaken :
      (i : ℕ) (j : Job)
      → head_at i before.consumers ≡ some j
      → test j ≡ true
      → IsTaken test before (served_at i before) j
  unfolding served_at
  served_at-IsTaken i j h passes = record {
    passes = passes;
    queued_once = λ k. queued-shift_at k i before.consumers j h;
    size_less = size-shift_at i before.consumers j h;
  }

  try_at-cases :
      (i : ℕ) (o : Option Job) (later : Option (Job × Lane)) (j : Job) (after : Lane)
      → try_at test i before o later ≡ some (j, after)
      → (later ≡ some (j, after)) ⊎ ((o ≡ some j) × (test j ≡ true) × (served_at i before ≡ after))
  unfolding try_at
  try_at-cases i none later j after h = inl h
  try_at-cases i (some m) later j after h = ground arith

  scan-IsTaken :
      (rounds i : ℕ) (j : Job) (after : Lane)
      → scan test rounds i before ≡ some (j, after)
      → IsTaken test before after j
  unfolding scan
  scan-IsTaken zero i j after h = ground arith
  scan-IsTaken (suc rounds) i j after h =
      elim (try_at-cases i (head_at i before.consumers) _ j after h) [
        | inl later ↦ scan-IsTaken rounds _ j after later
        | inr (found, passes, served) ↦
            subst (λ l. IsTaken test before l j) served (served_at-IsTaken i j found passes)
      ]

  pub take_from_lane-IsTaken :
      (j : Job) (after : Lane)
      → take_from_lane test before ≡ some (j, after)
      → IsTaken test before after j
  unfolding take_from_lane
  take_from_lane-IsTaken j after h = scan-IsTaken _ _ j after h

pub queued-push :
    (k : ℕ) (j : Job) (cs : List Consumer)
    → queued k (push j cs) ≡ queued k cs + (if j.id == k then 1 else 0)
unfolding queued push count_if
queued-push k j [] = ground arith
queued-push k j (c ∷ cs) =
    if_cases (λ l. queued k l ≡ occurrences k c.queue + queued k cs + (if j.id == k then 1 else 0))
      (str_eq c.name j.consumer) _ _
      (λ e. omega (arith, count_if-append (λ (i : Job). i.id == k) c.queue (j ∷ [])))
      (λ e. omega (arith, queued-push k j cs))

pub size-push : (j : Job) (cs : List Consumer) → size (push j cs) ≡ size cs + 1
unfolding size push
size-push j [] = omega arith
size-push j (c ∷ cs) =
    if_cases (λ l. size l ≡ length c.queue + size cs + 1) (str_eq c.name j.consumer) _ _
      (λ e. omega (arith, length-append c.queue (j ∷ []))) (λ e. omega (arith, size-push j cs))

occurrences-remove_job :
    (i k : ℕ) (q : List Job)
    → 0 < occurrences i q
    → occurrences k (remove_job i q) + (if i == k then 1 else 0) ≡ occurrences k q
unfolding remove_job count_if
occurrences-remove_job i k [] h = omega (arith, h)
occurrences-remove_job i k (j ∷ q) h = ground (arith, occurrences-remove_job i k q)

length-remove_job :
    (i : ℕ) (q : List Job) → 0 < occurrences i q → length (remove_job i q) + 1 ≡ length q
unfolding remove_job count_if
length-remove_job i [] h = omega (arith, h)
length-remove_job i (j ∷ q) h = ground (arith, length-remove_job i q)

-- A job that waits in its consumer's queue.
abbrev pub Waits : Job → List Consumer → Type 0
Waits j cs = 0 < occurrences j.id (queue_of j.consumer cs)

queued-remove_from :
    (k : ℕ) (j : Job) (cs : List Consumer)
    → Waits j cs
    → queued k (remove_from j cs) + (if j.id == k then 1 else 0) ≡ queued k cs
unfolding queued remove_from queue_of count_if
queued-remove_from k j [] h = omega (arith, h)
queued-remove_from k j (c ∷ cs) h =
    if_cases (λ l. queued k l + (if j.id == k then 1 else 0) ≡ occurrences k c.queue + queued k cs)
      (str_eq c.name j.consumer) _ _
      (λ e. omega (
        arith,
        queued-keep_consumer k c.name (remove_job j.id c.queue) cs,
        occurrences-remove_job j.id k c.queue (ground arith),
      ))
      (λ e. omega (arith, queued-remove_from k j cs (ground arith)))

size-remove_from :
    (j : Job) (cs : List Consumer) → Waits j cs → size (remove_from j cs) + 1 ≡ size cs
unfolding size remove_from queue_of count_if
size-remove_from j [] h = omega (arith, h)
size-remove_from j (c ∷ cs) h =
    if_cases (λ l. size l + 1 ≡ length c.queue + size cs) (str_eq c.name j.consumer) _ _
      (λ e. omega (
        arith,
        size-keep_consumer c.name (remove_job j.id c.queue) cs,
        length-remove_job j.id c.queue (ground arith),
      ))
      (λ e. omega (arith, size-remove_from j cs (ground arith)))

pub queued-remove_from_lane :
    (k : ℕ) (j : Job) (lane : Lane)
    → Waits j lane.consumers
    → queued k (remove_from_lane j lane).consumers + (if j.id == k then 1 else 0)
      ≡ queued k lane.consumers
unfolding remove_from_lane
queued-remove_from_lane k j lane h = queued-remove_from k j lane.consumers h

pub size-remove_from_lane :
    (j : Job) (lane : Lane)
    → Waits j lane.consumers
    → size (remove_from_lane j lane).consumers + 1 ≡ size lane.consumers
unfolding remove_from_lane
size-remove_from_lane j lane h = size-remove_from j lane.consumers h
