-- ===== src/Network/Retry/Places.antt =====
-- connectivity-retry.js: where a promise is. Each one that was made is exactly once a waiter, in the
-- queue, in a slot, or settled.
use billion.Common.{
  ℕ, ◌+◌, ◌≡◌, refl, ◌∙◌, Option, none, some, List, [], ◌∷◌, ◌++◌, arith, ltb, ◌==◌, if◌then◌else◌,
  count_if, count_if-append, if_cases,
}
use billion.Network.Retry.{
  State, Reply, aborted, timed_out, Waiter, Item, is_aborted, without_item, find_item, begin,
  drain_items, drain_queue, run, free, time_out, expire, end_task, finish, has_timer,
}

abbrev pub waiting : ℕ → List Waiter → ℕ
waiting k = count_if (λ w. w.id == k)

abbrev pub occurrences : ℕ → List Item → ℕ
occurrences k = count_if (λ i. i.id == k)

abbrev pub settlements : ℕ → List (ℕ × Reply) → ℕ
settlements k = count_if (λ e. e.0 == k)

-- How often an id stands anywhere.
abbrev pub places : ℕ → State → ℕ
places k s =
    waiting k s.waiters + occurrences k s.queue + occurrences k s.active + settlements k s.settled

-- Ids below `next_id` stand in one place, others in none.
abbrev pub IsPlaced : State → Type 0
IsPlaced s = (k : ℕ) → places k s ≡ (if ltb k s.next_id then 1 else 0)

pub settlements-append :
    (k : ℕ) (xs : List (ℕ × Reply)) (i : ℕ) (r : Reply)
    → settlements k (xs ++ (i, r) ∷ []) ≡ settlements k xs + (if i == k then 1 else 0)
unfolding count_if
settlements-append k xs i r =
    omega (arith, count_if-append (λ (e : ℕ × Reply). e.0 == k) xs ((i, r) ∷ []))

occurrences-append :
    (k : ℕ) (xs : List Item) (i : Item)
    → occurrences k (xs ++ i ∷ []) ≡ occurrences k xs + (if i.id == k then 1 else 0)
unfolding count_if
occurrences-append k xs i = omega (arith, count_if-append (λ (e : Item). e.id == k) xs (i ∷ []))

occurrences-without_item :
    (i k : ℕ) (is : List Item) (item : Item)
    → find_item i is ≡ some item
    → occurrences k (without_item item.id is) + (if item.id == k then 1 else 0) ≡ occurrences k is
unfolding without_item find_item count_if
occurrences-without_item i k [] item h = ground arith
occurrences-without_item i k (j ∷ is) item h = ground (arith, occurrences-without_item i k is item)

-- What stands outside of the queue.
abbrev others : ℕ → State → ℕ
others k s = waiting k s.waiters + occurrences k s.active + settlements k s.settled

others-begin :
    (k : ℕ) (item : Item) (s : State)
    → others k (begin item s) ≡ others k s + (if item.id == k then 1 else 0)
unfolding begin
others-begin k item s =
    ground
      (arith, occurrences-append k s.active item, settlements-append k s.settled item.id aborted)

pub begin-rest :
    (item : Item) (s : State)
    → ((begin item s).next_id ≡ s.next_id)
      × ((begin item s).waiters ≡ s.waiters)
      × ((begin item s).listening ≡ s.listening)
unfolding begin
begin-rest item s =
    if_cases
      (λ (t : State).
        (t.next_id ≡ s.next_id) × (t.waiters ≡ s.waiters) × (t.listening ≡ s.listening))
      (is_aborted item.signal s.aborted_signals) _ _ (λ e. (refl, refl, refl))
      (λ e. (refl, refl, refl))

module _ (concurrency : ℕ) where
  places-drain_items :
      (k : ℕ) (items : List Item) (s : State)
      → places k (drain_items concurrency items s) ≡ others k s + occurrences k items
  unfolding drain_items count_if
  places-drain_items k [] s = omega arith
  places-drain_items k (item ∷ rest) s =
      if_cases
        (λ t. places k t ≡ others k s + ((if item.id == k then 1 else 0) + occurrences k rest))
        (ltb s.running concurrency) _ _
        (λ e. omega (arith, places-drain_items k rest (begin item s), others-begin k item s))
        (λ e. omega arith)

  pub drain_items-rest :
      (items : List Item) (s : State)
      → ((drain_items concurrency items s).next_id ≡ s.next_id)
        × ((drain_items concurrency items s).waiters ≡ s.waiters)
        × ((drain_items concurrency items s).listening ≡ s.listening)
  unfolding drain_items
  drain_items-rest [] s = (refl, refl, refl)
  drain_items-rest (item ∷ rest) s =
      if_cases
        (λ (t : State).
          (t.next_id ≡ s.next_id) × (t.waiters ≡ s.waiters) × (t.listening ≡ s.listening))
        (ltb s.running concurrency) _ _
        (λ e.
          let (a, b, c) = drain_items-rest rest (begin item s) in
          let (x, y, z) = begin-rest item s in (a ∙ x, b ∙ y, c ∙ z))
        (λ e. (refl, refl, refl))

  pub drain_queue-IsPlaced : (s : State) → IsPlaced s → IsPlaced (drain_queue concurrency s)
  unfolding drain_queue
  drain_queue-IsPlaced s v k =
      rw ((drain_items-rest s.queue s).0) (omega (arith, places-drain_items k s.queue s, v k))

  pub run-IsPlaced :
      (signal timeout : Option ℕ) (s : State)
      → IsPlaced s
      → IsPlaced (run concurrency signal timeout s)
  unfolding run
  run-IsPlaced signal timeout s v =
      if_cases IsPlaced (is_aborted signal s.aborted_signals) _ _
        (λ e k. ground (arith, v k, settlements-append k s.settled s.next_id aborted))
        (λ e. drain_queue-IsPlaced _ (λ k. ground (
          arith,
          v k,
          occurrences-append k s.queue
              (record { id = s.next_id; signal = signal; timeout = timeout }),
        )))

  free-IsPlaced :
      (i : ℕ) (item : Item) (r : Reply) (s : State)
      → IsPlaced s
      → find_item i s.active ≡ some item
      → IsPlaced (free concurrency item r s)
  unfolding free
  free-IsPlaced i item r s v h = drain_queue-IsPlaced _ (λ k. omega (
    arith,
    v k,
    occurrences-without_item i k s.active item h,
    settlements-append k s.settled item.id r,
  ))

  expire-IsPlaced :
      (k : ℕ) (o : Option Item) (s : State)
      → IsPlaced s
      → find_item k s.active ≡ o
      → IsPlaced (expire concurrency o s)
  unfolding expire
  expire-IsPlaced k none s v e = v
  expire-IsPlaced k (some item) s v e =
      if_cases IsPlaced (has_timer item.timeout) _ _
        (λ t. free-IsPlaced k item timed_out (record s { late = s.late ++ item ∷ [] }) v e) (λ t. v)

  pub time_out-IsPlaced : (k : ℕ) (s : State) → IsPlaced s → IsPlaced (time_out concurrency k s)
  unfolding time_out
  time_out-IsPlaced k s v = expire-IsPlaced k (find_item k s.active) s v refl

  end_task-IsPlaced :
      (k : ℕ) (r : Reply) (o : Option Item) (s : State)
      → IsPlaced s
      → find_item k s.active ≡ o
      → IsPlaced (end_task concurrency k r o s)
  unfolding end_task
  end_task-IsPlaced k r none s v e = v
  end_task-IsPlaced k r (some item) s v e = free-IsPlaced k item r s v e

  pub finish-IsPlaced :
      (k : ℕ) (r : Reply) (s : State) → IsPlaced s → IsPlaced (finish concurrency k r s)
  unfolding finish
  finish-IsPlaced k r s v = end_task-IsPlaced k r (find_item k s.active) s v refl
