-- ===== src/Relay/Recovery/Tests.antt =====
-- connection-recovery.js: runs of a relay that fails, is probed, and recovers.
use billion.Common.{◌≡◌, refl, true, false, List, [], ◌∷◌, map, arith, ℕ}
use billion.Common.Text.{Str, str_eq}
use billion.Relay.Recovery.States.{
  Limits, State, UrlState, init, new_state, find_state, update, without_state, with_state, is_empty,
  is_in, without, is_some, holds, expire,
}
use billion.Relay.Recovery.Network.{
  has_demand, stop_network_if_idle, start_monitor, forget_failure, mark_offline, set_pending,
  start_probe, same_failure, is_pending, still_pending, backed_off, back_off_all, decide, end_probe,
  come_online,
}
use billion.Relay.Recovery.Sockets.{
  retain, released, release, idle_out, wait_of, defer, gate_state, deferred_by, gate_found, gate,
  attempted, attempt, add_once, opened_state, opened, stable_state, stabilize, closed_state, closed,
  failed_state, note_failure, failed_found, failed,
}
use billion.Relay.Recovery.{Event, retains, gates, attempts, fails, ends_probe, run_all}
use billion.Relay.Recovery.Backoff.{AllInRange}
use billion.Relay.Recovery.Backoff.Runs.{run_all-InRange}
use billion.Relay.Recovery.Coherence.{IsCoherent}
use billion.Relay.Recovery.Coherence.Runs.{run_all-IsCoherent}

abbrev limits : Limits
limits = record { backoff_enabled = true; backoff_max_ms = 3000 }

abbrev relay : Str
relay = 119 ∷ []

abbrev failing : List Event
failing =
    retains relay
    ∷ attempts relay 7
    ∷ fails true relay 7 0 5000
    ∷ gates true relay 8 5001
    ∷ ends_probe (λ url d. d) true
    ∷ attempts relay 8
    ∷ fails true relay 8 1 7000
    ∷ gates true relay 9 7001
    ∷ ends_probe (λ url d. d) true
    ∷ []

abbrev going_down : List Event
going_down = retains relay ∷ attempts relay 7 ∷ fails false relay 7 0 5000 ∷ []

-- Two failures that a probe decided on.
abbrev failing_once : State
failing_once =
    end_probe limits (λ url d. d) true
      (gate limits true relay 8 5001 (failed limits true relay 7 0 5000 (retain relay init))).1

failing_delays :
    map {B = ℕ × ℕ} (λ (u : UrlState). (u.delay, u.retry_at)) failing_once.states
    ≡ (2000, 6000) ∷ []
unfolding init new_state find_state update without_state with_state is_empty is_in without is_some
    holds expire has_demand stop_network_if_idle start_monitor forget_failure mark_offline
    set_pending start_probe same_failure is_pending still_pending backed_off back_off_all decide
    end_probe come_online retain released release idle_out wait_of defer gate_state deferred_by
    gate_found gate attempted attempt add_once opened_state opened stable_state stabilize
    closed_state closed failed_state note_failure failed_found failed str_eq
failing_delays = refl

run_all-InRange_example : AllInRange limits (run_all limits init failing)
run_all-InRange_example = run_all-InRange limits (omega arith) failing

run_all-IsCoherent_example : IsCoherent (run_all limits init going_down)
run_all-IsCoherent_example = run_all-IsCoherent limits going_down
