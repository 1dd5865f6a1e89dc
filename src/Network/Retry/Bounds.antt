-- ===== src/Network/Retry/Bounds.antt =====
-- connectivity-retry.js: how many tasks hold a slot, and whether a task waits in vain.
use billion.Common.{
  ℕ, ◌+◌, ◌≤◌, ◌<◌, ◌≡◌, refl, sym, ap, map, ◌∙◌, ◌⊎◌, false, Option, none, some, List, [], ◌∷◌,
  ◌++◌, arith, ltb, length, length-append, if_cases, inl, inr, ltb→lt, ltb→ge,
}
use billion.Network.Retry.{
  State, Reply, timed_out, online, aborted, without_waiter, Item, is_aborted, is_empty,
  stop_if_idle, wait_until_online, release_waiters, abort_waiter, listeners, abort_all,
  abort_signal, without_item, find_item, begin, drain_items, drain_queue, run, free, time_out,
  expire, end_task, finish, has_timer,
}

-- `running` is the number of slots in use, at most `concurrency`.
pub record IsBounded (concurrency : ℕ) (s : State) : Type 0 where
  pub counted : s.running ≡ length s.active
  pub bounded : s.running ≤ concurrency

-- The queue is empty, or all slots are in use.
abbrev pub Quiet : ℕ → State → Type 0
Quiet concurrency s = (length s.queue ≡ 0) ⊎ (s.running ≡ concurrency)

length-without_item :
    (k : ℕ) (is : List Item) (item : Item)
    → find_item k is ≡ some item
    → length (without_item item.id is) + 1 ≡ length is
unfolding without_item find_item
length-without_item k [] item h = ground arith
length-without_item k (j ∷ is) item h = ground (arith, length-without_item k is item)

module _ (concurrency : ℕ) where
  begin-IsBounded :
      (item : Item) (s : State)
      → s.running < concurrency
      → IsBounded concurrency s
      → IsBounded concurrency (begin item s)
  unfolding begin
  begin-IsBounded item s low v =
      if_cases (IsBounded concurrency) (is_aborted item.signal s.aborted_signals) _ _
        (λ e. record { counted = v.counted; bounded = v.bounded })
        (λ e. record {
          counted = omega (arith, v.counted, length-append s.active (item ∷ []));
          bounded = omega (arith, low);
        })

  drain_items-IsBounded :
      (items : List Item) (s : State)
      → IsBounded concurrency s
      → IsBounded concurrency (drain_items concurrency items s)
  unfolding drain_items
  drain_items-IsBounded [] s v = record { counted = v.counted; bounded = v.bounded }
  drain_items-IsBounded (item ∷ rest) s v =
      if_cases (IsBounded concurrency) (ltb s.running concurrency) _ _
        (λ e.
          drain_items-IsBounded rest (begin item s)
            (begin-IsBounded item s (ltb→lt s.running concurrency e) v))
        (λ e. record { counted = v.counted; bounded = v.bounded })

  drain_items-Quiet :
      (items : List Item) (s : State)
      → IsBounded concurrency s
      → Quiet concurrency (drain_items concurrency items s)
  unfolding drain_items
  drain_items-Quiet [] s v = inl refl
  drain_items-Quiet (item ∷ rest) s v =
      if_cases (Quiet concurrency) (ltb s.running concurrency) _ _
        (λ e.
          drain_items-Quiet rest (begin item s)
            (begin-IsBounded item s (ltb→lt s.running concurrency e) v))
        (λ e. inr (omega (arith, v.bounded, ltb→ge s.running concurrency e)))

  -- What `drainQueue` leaves.
  abbrev pub IsSteady : State → Type 0
  IsSteady s = IsBounded concurrency s × Quiet concurrency s

  drain_queue-IsSteady :
      (s : State) → IsBounded concurrency s → IsSteady (drain_queue concurrency s)
  unfolding drain_queue
  drain_queue-IsSteady s v = (drain_items-IsBounded s.queue s v, drain_items-Quiet s.queue s v)

  pub run-IsSteady :
      (signal timeout : Option ℕ) (s : State)
      → IsSteady s
      → IsSteady (run concurrency signal timeout s)
  unfolding run
  run-IsSteady signal timeout s v =
      if_cases IsSteady (is_aborted signal s.aborted_signals) _ _
        (λ e. (record { counted = v.0.counted; bounded = v.0.bounded }, v.1))
        (λ e. drain_queue-IsSteady _ (record { counted = v.0.counted; bounded = v.0.bounded }))

  free-IsSteady :
      (k : ℕ) (item : Item) (r : Reply) (s : State)
      → IsSteady s
      → find_item k s.active ≡ some item
      → IsSteady (free concurrency item r s)
  unfolding free
  free-IsSteady k item r s v h = drain_queue-IsSteady _ (record {
    counted = omega (arith, v.0.counted, length-without_item k s.active item h);
    bounded = omega (arith, v.0.bounded);
  })

  expire-IsSteady :
      (k : ℕ) (o : Option Item) (s : State)
      → IsSteady s
      → find_item k s.active ≡ o
      → IsSteady (expire concurrency o s)
  unfolding expire
  expire-IsSteady k none s v e = v
  expire-IsSteady k (some item) s v e =
      if_cases IsSteady (has_timer item.timeout) _ _
        (λ t.
          free-IsSteady k item timed_out (record s { late = s.late ++ item ∷ [] })
            (record { counted = v.0.counted; bounded = v.0.bounded }, v.1) e)
        (λ t. v)

  pub time_out-IsSteady : (k : ℕ) (s : State) → IsSteady s → IsSteady (time_out concurrency k s)
  unfolding time_out
  time_out-IsSteady k s v = expire-IsSteady k (find_item k s.active) s v refl

  end_task-IsSteady :
      (k : ℕ) (r : Reply) (o : Option Item) (s : State)
      → IsSteady s
      → find_item k s.active ≡ o
      → IsSteady (end_task concurrency k r o s)
  unfolding end_task
  end_task-IsSteady k r none s v e = (record { counted = v.0.counted; bounded = v.0.bounded }, v.1)
  end_task-IsSteady k r (some item) s v e = free-IsSteady k item r s v e

  pub finish-IsSteady :
      (k : ℕ) (r : Reply) (s : State) → IsSteady s → IsSteady (finish concurrency k r s)
  unfolding finish
  finish-IsSteady k r s v = end_task-IsSteady k r (find_item k s.active) s v refl

  -- What leaves the tasks alone leaves them steady.
  frame :
      (s t : State)
      → t.running ≡ s.running
      → t.active ≡ s.active
      → t.queue ≡ s.queue
      → IsSteady s
      → IsSteady t
  frame s t running active queue v = (
    record {
      counted = running ∙ v.0.counted ∙ ap length (sym active);
      bounded = omega (arith, running, v.0.bounded);
    },
    elim v.1 [ inl e ↦ inl (ap length queue ∙ e) | inr e ↦ inr (running ∙ e) ],
  )

  stop_if_idle-IsSteady : (s : State) → IsSteady s → IsSteady (stop_if_idle s)
  unfolding stop_if_idle
  stop_if_idle-IsSteady s v =
      if_cases IsSteady (is_empty s.waiters) _ _
        (λ e. frame s (record s { listening = false }) refl refl refl v) (λ e. v)

  pub wait_until_online-IsSteady :
      (signal : Option ℕ) (s : State) → IsSteady s → IsSteady (wait_until_online signal s)
  unfolding wait_until_online
  wait_until_online-IsSteady signal s v =
      if_cases IsSteady (is_aborted signal s.aborted_signals) _ _ (λ e. frame s _ refl refl refl v)
        (λ e. frame s _ refl refl refl v)

  pub release_waiters-IsSteady :
      (now : ℕ) (s : State) → IsSteady s → IsSteady (release_waiters now s)
  unfolding release_waiters
  release_waiters-IsSteady now s v =
      let t : State = record s {
        last_online_at = now;
        waiters = [];
        settled = s.settled ++ map (λ w. (w.id, online)) s.waiters;
      } in
      stop_if_idle-IsSteady t (frame s t refl refl refl v)

  abort_waiter-IsSteady : (i : ℕ) (s : State) → IsSteady s → IsSteady (abort_waiter i s)
  unfolding abort_waiter
  abort_waiter-IsSteady i s v =
      let t : State = record s {
        waiters = without_waiter i s.waiters;
        settled = s.settled ++ (i, aborted) ∷ [];
      } in
      stop_if_idle-IsSteady t (frame s t refl refl refl v)

  abort_all-IsSteady : (is : List ℕ) (s : State) → IsSteady s → IsSteady (abort_all is s)
  unfolding abort_all
  abort_all-IsSteady [] s v = v
  abort_all-IsSteady (i ∷ is) s v =
      abort_all-IsSteady is (abort_waiter i s) (abort_waiter-IsSteady i s v)

  pub abort_signal-IsSteady : (k : ℕ) (s : State) → IsSteady s → IsSteady (abort_signal k s)
  unfolding abort_signal
  abort_signal-IsSteady k s v =
      abort_all-IsSteady (listeners k s.waiters) _ (frame s _ refl refl refl v)
