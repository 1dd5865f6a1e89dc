-- ===== src/Network/Retry/Events.antt =====
-- connectivity-retry.js: what holds after every sequence of calls.
use billion.Common.{ℕ, ◌≡◌, refl, inl, List, [], ◌∷◌, arith, ltb, if◌then◌else◌, count_if, if_cases}
use billion.Network.Retry.Places.{
  places, IsPlaced, run-IsPlaced, time_out-IsPlaced, finish-IsPlaced,
}
use billion.Network.Retry.Waiters.{
  wait_until_online-IsPlaced, release_waiters-IsPlaced, abort_signal-IsPlaced,
}
use billion.Network.Retry.Bounds.{
  IsBounded, Quiet, IsSteady, run-IsSteady, time_out-IsSteady, finish-IsSteady,
  wait_until_online-IsSteady, release_waiters-IsSteady, abort_signal-IsSteady,
}
use billion.Network.Retry.{
  State, Event, waits, runs, comes_online, aborts, times_out, finishes, init, step, run_all,
}

module _ (concurrency : ℕ) where
  -- The invariant of the coordinator.
  pub record IsValid (s : State) : Type 0 where
    pub placed : IsPlaced s
    pub steady : IsSteady concurrency s

  init-IsValid : IsValid init
  unfolding init count_if
  init-IsValid = record {
    placed = λ k. ground arith;
    steady = (record { counted = refl; bounded = omega arith }, inl refl);
  }

  step-IsValid : (s : State) (e : Event) → IsValid s → IsValid (step concurrency s e)
  unfolding step
  step-IsValid s (waits signal) v = record {
    placed = wait_until_online-IsPlaced signal s v.placed;
    steady = wait_until_online-IsSteady concurrency signal s v.steady;
  }
  step-IsValid s (runs signal timeout) v = record {
    placed = run-IsPlaced concurrency signal timeout s v.placed;
    steady = run-IsSteady concurrency signal timeout s v.steady;
  }
  step-IsValid s (comes_online now) v =
      if_cases IsValid s.listening _ _
        (λ e. record {
          placed = release_waiters-IsPlaced now s v.placed;
          steady = release_waiters-IsSteady concurrency now s v.steady;
        })
        (λ e. v)
  step-IsValid s (aborts k) v = record {
    placed = abort_signal-IsPlaced k s v.placed;
    steady = abort_signal-IsSteady concurrency k s v.steady;
  }
  step-IsValid s (times_out k) v = record {
    placed = time_out-IsPlaced concurrency k s v.placed;
    steady = time_out-IsSteady concurrency k s v.steady;
  }
  step-IsValid s (finishes k r) v = record {
    placed = finish-IsPlaced concurrency k r s v.placed;
    steady = finish-IsSteady concurrency k r s v.steady;
  }

  run_all-from : (s : State) (es : List Event) → IsValid s → IsValid (run_all concurrency s es)
  unfolding run_all
  run_all-from s [] v = v
  run_all-from s (e ∷ es) v = run_all-from (step concurrency s e) es (step-IsValid s e v)

  pub run_all-IsValid : (es : List Event) → IsValid (run_all concurrency init es)
  run_all-IsValid es = run_all-from init es init-IsValid

  -- After every sequence of calls, each promise that was made is exactly once a waiter, in the queue,
  -- in a slot, or settled, and an id not given out yet is nowhere.
  pub run_all-placed :
      (es : List Event) (k : ℕ)
      → places k (run_all concurrency init es)
        ≡ (if ltb k (run_all concurrency init es).next_id then 1 else 0)
  run_all-placed es k = (run_all-IsValid es).placed k

  -- After every sequence of calls, `running` is the number of tasks that hold a slot and at most
  -- `concurrency`, and tasks are left in the queue only while it is `concurrency`.
  pub run_all-steady :
      (es : List Event)
      → IsBounded concurrency (run_all concurrency init es)
        × Quiet concurrency (run_all concurrency init es)
  run_all-steady es = (run_all-IsValid es).steady
