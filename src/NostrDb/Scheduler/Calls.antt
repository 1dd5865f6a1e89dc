-- ===== src/NostrDb/Scheduler/Calls.antt =====
-- access-scheduler.js: each call keeps every job in one place.
use billion.Common.{
  ℕ, ◌≢◌, suc, ◌+◌, ◌-◌, ◌≡◌, refl, Bool, true, none, List, [], ◌∷◌, ◌++◌, arith, ◌==◌,
  if◌then◌else◌, length, count_if, count_if-append, if_cases,
}
use billion.NostrDb.Scheduler.Lanes.{
  Class, Job, Lane, occurrences, push, queue_of, remove_from_lane,
}
use billion.NostrDb.Scheduler.Lanes.Scanning.{
  queued-push, size-push, queued-remove_from_lane, size-remove_from_lane, Waits,
}
use billion.NostrDb.Scheduler.{
  State, Ending, completed, aborted, lane, set_lane, take, without_active, is_active, complete,
  remove, run, Intent, add_foreground_intent, release_foreground_intent, without_intent,
}
use billion.NostrDb.Scheduler.Places.{
  endings, IsPlaced, queued_anywhere-set_lane, waiting_jobs-set_lane, set_lane-rest, pump-IsPlaced,
}
use billion.NostrDb.Scheduler.Idle.{pump-Idle}
use billion.Common.Text.{Str}

endings-append :
    (k : ℕ) (xs : List (ℕ × Ending)) (i : ℕ) (r : Ending)
    → endings k (xs ++ (i, r) ∷ []) ≡ endings k xs + (if i == k then 1 else 0)
unfolding count_if
endings-append k xs i r =
    omega (arith, count_if-append (λ (e : ℕ × Ending). e.0 == k) xs ((i, r) ∷ []))

occurrences-without_active :
    (i k : ℕ) (js : List Job)
    → is_active i js ≡ true
    → occurrences k (without_active i js) + (if i == k then 1 else 0) ≡ occurrences k js
unfolding without_active is_active count_if
occurrences-without_active i k [] h = ground arith
occurrences-without_active i k (j ∷ js) h = ground (arith, occurrences-without_active i k js)

ended-IsPlaced :
    (k : ℕ) (r : Ending) (s : State)
    → IsPlaced s
    → is_active k s.active ≡ true
    → IsPlaced (record s { active = without_active k s.active; ended = s.ended ++ (k, r) ∷ [] })
ended-IsPlaced k r s v h = record {
  each = λ i.
      omega
        (arith, v.each i, occurrences-without_active k i s.active h, endings-append i s.ended k r);
  counted = v.counted;
}

pub complete-IsPlaced : (k : ℕ) (s : State) → IsPlaced s → IsPlaced (complete k s)
unfolding complete
complete-IsPlaced k s v =
    if_cases IsPlaced (is_active k s.active) _ _
      (λ h. pump-IsPlaced _ (ended-IsPlaced k completed s v h)) (λ h. v)

removed-IsPlaced :
    (j : Job) (s : State)
    → IsPlaced s
    → Waits j (lane j.class s).consumers
    → IsPlaced (record (set_lane j.class (remove_from_lane j (lane j.class s)) s) {
      waiting = s.waiting - 1;
      ended = s.ended ++ (j.id, aborted) ∷ [];
    })
removed-IsPlaced j s v h =
    let l = remove_from_lane j (lane j.class s) in
    let (active, ended, next_id, waiting, _) = set_lane-rest j.class l s in
    record {
      each = λ k.
          rw (active, next_id)
            (omega (
              arith,
              queued_anywhere-set_lane k j.class l s,
              queued-remove_from_lane k j (lane j.class s) h,
              v.each k,
              endings-append k s.ended j.id aborted,
            ));
      counted = omega (
        arith,
        v.counted,
        waiting_jobs-set_lane j.class l s,
        size-remove_from_lane j (lane j.class s) h,
      );
    }

pub remove-IsPlaced : (j : Job) (s : State) → IsPlaced s → IsPlaced (remove j s)
unfolding remove
remove-IsPlaced j s v =
    if_cases IsPlaced (occurrences j.id (queue_of j.consumer (lane j.class s).consumers) == 0) _ _
      (λ h. v) (λ h. removed-IsPlaced j s v (ground arith))

-- A job that comes to its queue.
pushed-IsPlaced :
    (j : Job) (s : State)
    → IsPlaced s
    → j.id ≡ s.next_id
    → IsPlaced
        (record (set_lane j.class
          (record (lane j.class s) { consumers = push j (lane j.class s).consumers })
          s) { waiting = s.waiting + 1; next_id = suc s.next_id })
pushed-IsPlaced j s v fresh =
    let l : Lane = record (lane j.class s) { consumers = push j (lane j.class s).consumers } in
    let (active, ended, _, _, _) = set_lane-rest j.class l s in
    record {
      each = λ k.
          rw (active, ended)
            (ground (
              arith,
              queued_anywhere-set_lane k j.class l s,
              queued-push k j (lane j.class s).consumers,
              v.each k,
              fresh,
            ));
      counted = omega (
        arith,
        v.counted,
        waiting_jobs-set_lane j.class l s,
        size-push j (lane j.class s).consumers,
      );
    }

pub run-IsPlaced :
    (stores : List Str) (c : Class) (readonly : Bool) (consumer : Str) (preemptible : Bool)
    (s : State)
    → IsPlaced s
    → IsPlaced (run stores c readonly consumer preemptible s)
unfolding run
run-IsPlaced stores c readonly consumer preemptible s v = pump-IsPlaced _ (
    pushed-IsPlaced
      (record {
        id = s.next_id;
        stores = stores;
        class = c;
        readonly = readonly;
        consumer = consumer;
        preemptible = preemptible;
      })
      s v refl)

pub intents-IsPlaced :
    (intents : List Intent) (preempted : List ℕ) (s : State)
    → IsPlaced s
    → IsPlaced (record s { intents = intents; preempted = preempted })
intents-IsPlaced intents preempted s v = record { each = v.each; counted = v.counted }

pub add_foreground_intent-IsPlaced :
    (intent : Intent) (s : State) → IsPlaced s → IsPlaced (add_foreground_intent intent s)
unfolding add_foreground_intent
add_foreground_intent-IsPlaced intent s v = intents-IsPlaced _ _ s v

pub release_foreground_intent-IsPlaced :
    (k : ℕ) (s : State) → IsPlaced s → IsPlaced (release_foreground_intent k s)
unfolding release_foreground_intent
release_foreground_intent-IsPlaced k s v =
    if_cases IsPlaced (length (without_intent k s.intents) == length s.intents) _ _ (λ h. v)
      (λ h. pump-IsPlaced _ (intents-IsPlaced (without_intent k s.intents) s.preempted s v))

pub run-Idle :
    (stores : List Str) (c : Class) (readonly : Bool) (consumer : Str) (preemptible : Bool)
    (s : State)
    → IsPlaced s
    → take (run stores c readonly consumer preemptible s) ≡ none
unfolding run
run-Idle stores c readonly consumer preemptible s v = pump-Idle _ (
    pushed-IsPlaced
      (record {
        id = s.next_id;
        stores = stores;
        class = c;
        readonly = readonly;
        consumer = consumer;
        preemptible = preemptible;
      })
      s v refl)

pub complete-Idle :
    (k : ℕ) (s : State) → IsPlaced s → is_active k s.active ≡ true → take (complete k s) ≡ none
unfolding complete
complete-Idle k s v h = rw h (pump-Idle _ (ended-IsPlaced k completed s v h))

pub release_foreground_intent-Idle :
    (k : ℕ) (s : State)
    → IsPlaced s
    → length (without_intent k s.intents) ≢ length s.intents
    → take (release_foreground_intent k s) ≡ none
unfolding release_foreground_intent
release_foreground_intent-Idle k s v h =
    if_cases (λ t. take t ≡ none) (length (without_intent k s.intents) == length s.intents) _ _
      (λ e. ground arith)
      (λ e. pump-Idle _ (intents-IsPlaced (without_intent k s.intents) s.preempted s v))
