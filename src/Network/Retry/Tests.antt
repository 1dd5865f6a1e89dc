-- ===== src/Network/Retry/Tests.antt =====
-- Runs of the coordinator, and the theorems about it at concrete inputs.
use billion.Common.{◌≡◌, refl, none, some, List, [], ◌∷◌, map}
use billion.Network.Retry.Bounds.{IsBounded, Quiet}
use billion.Network.Retry.Events.{run_all-steady}
use billion.Network.Retry.{
  Event, waits, runs, comes_online, aborts, times_out, finishes, online, timed_out, aborted, result,
  init, step, run_all, is_in, is_aborted, is_empty, stop_if_idle, wait_until_online,
  release_waiters, without_waiter, abort_waiter, has_signal, listeners, abort_all, abort_signal,
  without_item, find_item, begin, has_timer, drain_items, drain_queue, run, free, expire, time_out,
  end_task, finish,
}

-- Two slots: the first task times out, the third was aborted in the queue, the fourth takes its turn.
abbrev script : List Event
script =
    runs none (some 50)
    ∷ runs none none
    ∷ runs (some 7) none
    ∷ runs none none
    ∷ waits (some 7)
    ∷ waits none
    ∷ aborts 7
    ∷ times_out 0
    ∷ finishes 0 (result 4)
    ∷ comes_online 90
    ∷ []

coordinator : Unit {0}
unfolding run_all step is_in is_aborted is_empty stop_if_idle wait_until_online release_waiters
    without_waiter abort_waiter has_signal listeners abort_all abort_signal without_item find_item
    begin has_timer drain_items drain_queue run free expire time_out end_task finish init
coordinator = tt

script_active : map (λ i. i.id) (run_all 2 init script).active ≡ 1 ∷ 3 ∷ []
unfolding coordinator
script_active = refl

script_settled :
    (run_all 2 init script).settled
    ≡ (4, aborted) ∷ (0, timed_out) ∷ (2, aborted) ∷ (5, online) ∷ []
unfolding coordinator
script_settled = refl

run_all-steady_example : IsBounded 2 (run_all 2 init script) × Quiet 2 (run_all 2 init script)
run_all-steady_example = run_all-steady 2 script
