-- ===== src/Network/Retry/Listening.antt =====
-- connectivity-retry.js: the coordinator listens for the network exactly while somebody waits for it.
use billion.Common.{
  ℕ, ◌≡◌, refl, sym, ap, ◌∙◌, Bool, true, false, not, Option, none, some, List, [], ◌∷◌, ◌++◌, map,
  arith, if_cases,
}
use billion.Network.Retry.Places.{drain_items-rest}
use billion.Network.Retry.{
  State, Event, waits, runs, comes_online, aborts, times_out, finishes, Reply, online, timed_out,
  aborted, Waiter, Item, is_aborted, is_empty, stop_if_idle, wait_until_online, release_waiters,
  without_waiter, abort_waiter, listeners, abort_all, abort_signal, find_item, has_timer,
  drain_queue, run, free, expire, time_out, end_task, finish, init, step, run_all,
}

abbrev pub Listens : State → Type 0
Listens s = s.listening ≡ not (is_empty s.waiters)

same_waiters :
    (s t : State) → t.waiters ≡ s.waiters → t.listening ≡ s.listening → Listens s → Listens t
same_waiters s t waiters listening v = listening ∙ v ∙ ap (λ ws. not (is_empty ws)) (sym waiters)

stop_if_idle-Listens :
    (s : State) → (is_empty s.waiters ≡ false → s.listening ≡ true) → Listens (stop_if_idle s)
unfolding stop_if_idle
stop_if_idle-Listens s v =
    if_cases Listens (is_empty s.waiters) _ _ (λ e. ap not (sym e)) (λ e. v e ∙ ap not (sym e))

snoc_waits : (ws : List Waiter) (w : Waiter) → not (is_empty (ws ++ w ∷ [])) ≡ true
unfolding is_empty
snoc_waits [] w = refl
snoc_waits (x ∷ ws) w = refl

still_waits :
    (i : ℕ) (ws : List Waiter) → is_empty (without_waiter i ws) ≡ false → is_empty ws ≡ false
unfolding is_empty without_waiter
still_waits i [] h = h
still_waits i (w ∷ ws) h = refl

nobody : {b : Bool} → is_empty [] ≡ false → b ≡ true
unfolding is_empty
nobody h = ground arith

wait_until_online-Listens :
    (signal : Option ℕ) (s : State) → Listens s → Listens (wait_until_online signal s)
unfolding wait_until_online
wait_until_online-Listens signal s v =
    if_cases Listens (is_aborted signal s.aborted_signals) _ _ (λ e. v)
      (λ e. sym (snoc_waits s.waiters _))

release_waiters-Listens : (now : ℕ) (s : State) → Listens (release_waiters now s)
unfolding release_waiters
release_waiters-Listens now s =
    stop_if_idle-Listens
      (record s {
        last_online_at = now;
        waiters = [];
        settled = s.settled ++ map (λ w. (w.id, online)) s.waiters;
      })
      nobody

abort_waiter-Listens : (i : ℕ) (s : State) → Listens s → Listens (abort_waiter i s)
unfolding abort_waiter
abort_waiter-Listens i s v =
    stop_if_idle-Listens
      (record s { waiters = without_waiter i s.waiters; settled = s.settled ++ (i, aborted) ∷ [] })
      (λ e. v ∙ ap not (still_waits i s.waiters e))

abort_all-Listens : (is : List ℕ) (s : State) → Listens s → Listens (abort_all is s)
unfolding abort_all
abort_all-Listens [] s v = v
abort_all-Listens (i ∷ is) s v =
    abort_all-Listens is (abort_waiter i s) (abort_waiter-Listens i s v)

abort_signal-Listens : (k : ℕ) (s : State) → Listens s → Listens (abort_signal k s)
unfolding abort_signal
abort_signal-Listens k s v = abort_all-Listens (listeners k s.waiters) _ v

module _ (concurrency : ℕ) where
  drain_queue-Listens : (s : State) → Listens s → Listens (drain_queue concurrency s)
  unfolding drain_queue
  drain_queue-Listens s v =
      let rest = drain_items-rest concurrency s.queue s in
      same_waiters s (drain_queue concurrency s) rest.1 rest.2 v

  run-Listens :
      (signal timeout : Option ℕ) (s : State)
      → Listens s
      → Listens (run concurrency signal timeout s)
  unfolding run
  run-Listens signal timeout s v =
      if_cases Listens (is_aborted signal s.aborted_signals) _ _ (λ e. v)
        (λ e. drain_queue-Listens _ v)

  free-Listens :
      (item : Item) (r : Reply) (s : State) → Listens s → Listens (free concurrency item r s)
  unfolding free
  free-Listens item r s v = drain_queue-Listens _ v

  expire-Listens : (o : Option Item) (s : State) → Listens s → Listens (expire concurrency o s)
  unfolding expire
  expire-Listens none s v = v
  expire-Listens (some item) s v =
      if_cases Listens (has_timer item.timeout) _ _
        (λ t. free-Listens item timed_out (record s { late = s.late ++ item ∷ [] }) v) (λ t. v)

  end_task-Listens :
      (k : ℕ) (r : Reply) (o : Option Item) (s : State)
      → Listens s
      → Listens (end_task concurrency k r o s)
  unfolding end_task
  end_task-Listens k r none s v = v
  end_task-Listens k r (some item) s v = free-Listens item r s v

  step-Listens : (s : State) (e : Event) → Listens s → Listens (step concurrency s e)
  unfolding step time_out finish
  step-Listens s (waits signal) v = wait_until_online-Listens signal s v
  step-Listens s (runs signal timeout) v = run-Listens signal timeout s v
  step-Listens s (comes_online now) v =
      if_cases Listens s.listening _ _ (λ e. release_waiters-Listens now s) (λ e. v)
  step-Listens s (aborts k) v = abort_signal-Listens k s v
  step-Listens s (times_out k) v = expire-Listens (find_item k s.active) s v
  step-Listens s (finishes k r) v = end_task-Listens k r (find_item k s.active) s v

  run_all-from : (s : State) (es : List Event) → Listens s → Listens (run_all concurrency s es)
  unfolding run_all
  run_all-from s [] v = v
  run_all-from s (e ∷ es) v = run_all-from (step concurrency s e) es (step-Listens s e v)

  -- After every sequence of calls, the coordinator listens for the network if and only if somebody
  -- waits for it.
  pub run_all-Listens : (es : List Event) → Listens (run_all concurrency init es)
  unfolding init is_empty
  run_all-Listens es = run_all-from init es refl
