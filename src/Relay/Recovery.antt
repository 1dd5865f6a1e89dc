-- ===== src/Relay/Recovery.antt =====
-- src/services/relay-pool/connection-recovery.js: `ConnectionRecovery` admits the sockets of a relay after
-- a failure. Timers, the probe of the network and its monitor are events; calls of `wake` are counted.
-- Callers release what they retained, so the interests of a relay stay natural.
-- A serial number stands for the identity of a state object and of a failure object.
pub mod States
pub mod Network
pub mod Sockets
pub mod Helpers
pub mod Coherence
pub mod Backoff
mod Tests
use billion.Common.{
  ℕ, suc, ◌+◌, ◌-◌, ◌*◌, ◌≤◌, ◌<◌, min, max, Bool, true, false, ◌&&◌, ◌||◌, not, Option, none, some,
  List, [], ◌∷◌, ◌++◌, map, ltb, leb, ◌==◌, if◌then◌else◌, length,
}
use billion.Common.Text.{Str, str_eq}
use billion.Relay.Recovery.States.{
  Failure, UrlState, Pending, Counters, State, Limits, first_delay, init, new_state, find_state,
  update, without_state, with_state, wake, change, is_empty, is_in, without, is_some, holds, expire,
}
use billion.Relay.Recovery.Network.{
  has_demand, cancel_probe, stop_monitor, stop_network_if_idle, start_monitor, forget_failure,
  mark_offline, set_pending, start_probe, same_failure, is_pending, still_pending, backed_off,
  back_off_all, decide, end_probe, come_online,
}
use billion.Relay.Recovery.Sockets.{
  retain, released, release, idle_out, Wait, wait_of, defer, gate_state, deferred_by, gate_found,
  gate, attempted, attempt, add_once, opened_state, opened, stable_state, stabilize, closed_state,
  closed, failed_state, note_failure, failed_found, failed, offline, connectivity, probe, backoff,
}

pub cancelled_before_open : State → State
cancelled_before_open s = record s {
  counters = record s.counters { cancelled_before_open = s.counters.cancelled_before_open + 1 };
}

pub clear : State → State
clear s = record (stop_monitor (cancel_probe s)) { states = []; offline = false }

-- One call from outside.
pub data Event : Type 0 where
  retains : Str → Event
  releases : Str → ℕ → Event
  idles : Str → Event
  gates : Bool → Str → ℕ → ℕ → Event
  attempts : Str → ℕ → Event
  opens : Str → ℕ → ℕ → Event
  stabilizes : Str → Event
  fails : Bool → Str → ℕ → ℕ → ℕ → Event
  closes : Str → ℕ → Event
  ends_probe : (Str → ℕ → ℕ) → Bool → Event
  comes_online : Event
  cancels : Event
  clears : Event

pub step : Limits → State → Event → State
step limits s (retains url) = retain url s
step limits s (releases url now) = release url now s
step limits s (idles url) = idle_out url s
step limits s (gates on_line url id now) = (gate limits on_line url id now s).1
step limits s (attempts url id) = attempt url id s
step limits s (opens url id now) = opened url id now s
step limits s (stabilizes url) = stabilize url s
step limits s (fails on_line url id generation now) = failed limits on_line url id generation now s
step limits s (closes url id) = closed url id s
step limits s (ends_probe spread online) = end_probe limits spread online s
step limits s comes_online = come_online s
step limits s cancels = cancelled_before_open s
step limits s clears = clear s

pub run_all : Limits → State → List Event → State
run_all limits s [] = s
run_all limits s (e ∷ es) = run_all limits (step limits s e) es
