-- ===== src/Relay/Recovery/Sockets.antt =====
-- connection-recovery.js: the interests, admissions, openings, failures and ends of the sockets of a relay.
use billion.Common.{
  ℕ, suc, ◌+◌, ◌-◌, Bool, true, false, ◌&&◌, ◌||◌, not, Option, none, some, List, [], ◌∷◌, ◌++◌,
  ltb, ◌==◌, if◌then◌else◌,
}
use billion.Common.Text.{Str}
use billion.Relay.Recovery.States.{
  UrlState, State, Limits, first_delay, find_state, update, without_state, with_state, wake, change,
  is_empty, is_in, without, is_some, holds, expire,
}
use billion.Relay.Recovery.Network.{stop_network_if_idle, start_monitor, mark_offline, start_probe}

unfoldable pub retain : Str → State → State
unfolding with_state update
retain url s =
    change url
      (λ u. record u { interests = u.interests + 1; idle_since = none; idle_timer = false })
      (with_state url s)

-- One interest less; `#expire` once there is none.
unfoldable pub released : ℕ → UrlState → UrlState
unfolding expire
released now u =
    if u.interests == 1
    then expire (record u { interests = 0; idle_since = some now })
    else record u { interests = u.interests - 1 }

unfoldable pub release : Str → ℕ → State → State
unfolding released stop_network_if_idle
release url now s = elim (find_state url s.states) [
  | none ↦ s
  | some u ↦ stop_network_if_idle (change url (released now) s)
]

-- The idle timer of a state.
unfoldable pub idle_out : Str → State → State
unfolding without_state is_empty
idle_out url s = elim (find_state url s.states) [
  | none ↦ s
  | some u ↦
      if u.idle_timer && u.interests == 0 && is_empty u.healthy && not (is_some u.trial)
      then record s { states = without_state url s.states }
      else change url (λ v. record v { idle_timer = false }) s
]

pub data Wait : Type 0 where
  offline connectivity probe : Wait
  backoff : ℕ → Wait

-- The wait of a relay that is not offline, and has no failure.
unfoldable pub wait_of : ℕ → UrlState → Option Wait
wait_of now u =
    if is_empty u.healthy && ltb now u.retry_at
    then some (backoff u.retry_at)
    else if is_empty u.healthy && is_some u.trial
    then some probe
    else none

unfoldable pub defer : Str → ℕ → State → State
unfolding is_in
defer url id s = elim (find_state url s.states) [
  | none ↦ s
  | some u ↦
      if is_in id u.deferred
      then s
      else record (change url (λ v. record v { deferred = v.deferred ++ id ∷ [] }) s) {
        counters = record s.counters { deferred_connections = s.counters.deferred_connections + 1 };
      }
]

-- What `gate` decides for a relay that is there.
unfoldable pub gate_state : ℕ → UrlState → State → Option Wait × State
unfolding start_monitor start_probe wait_of
gate_state now u s = if s.offline then (some offline, start_monitor s) else elim u.failure [
  | some failure ↦ (some connectivity, start_probe u failure s)
  | none ↦ (wait_of now u, s)
]

unfoldable pub deferred_by : Str → ℕ → Option Wait × State → Option Wait × State
unfolding defer
deferred_by url id (none, s) = (none, s)
deferred_by url id (some w, s) = (some w, defer url id s)

unfoldable pub gate_found : Str → ℕ → ℕ → Option UrlState → State → Option Wait × State
unfolding gate_state deferred_by
gate_found url id now none s = (none, s)
gate_found url id now (some u) s = deferred_by url id (gate_state now u s)

-- `gate`, with `navigator.onLine`.
unfoldable pub gate : Limits → Bool → Str → ℕ → ℕ → State → Option Wait × State
unfolding gate_found mark_offline
gate limits on_line url id now s =
    if not limits.backoff_enabled
    then (none, s)
    else let there = with_state url s in
      let t : State = if on_line then there else mark_offline there in
      gate_found url id now (find_state url t.states) t

unfoldable pub attempted : ℕ → UrlState → UrlState
unfolding without
attempted id u =
    let v : UrlState = record u { deferred = without id u.deferred } in
    if v.recovering && is_empty v.healthy
    then record v { generation = v.generation + 1; trial = some id }
    else v

-- `attempt`; the generation that it returns is that of the state after it.
unfoldable pub attempt : Str → ℕ → State → State
unfolding attempted
attempt url id s =
    let t = change url (attempted id) (with_state url s) in
    record t {
      counters = record t.counters { physical_attempts = t.counters.physical_attempts + 1 };
    }

unfoldable pub add_once : ℕ → List ℕ → List ℕ
add_once k xs = if is_in k xs then xs else xs ++ k ∷ []

unfoldable pub opened_state : ℕ → ℕ → UrlState → UrlState
unfolding add_once holds
opened_state id now u = record u {
  healthy_since = if is_empty u.healthy then some now else u.healthy_since;
  healthy = add_once id u.healthy;
  failure = none;
  failed_generation = if is_some u.failure then none else u.failed_generation;
  trial = if holds id u.trial then none else u.trial;
  stable_timer = u.recovering || u.stable_timer;
}

unfoldable pub opened : Str → ℕ → ℕ → State → State
unfolding opened_state
opened url id now s = wake (change url (opened_state id now) (with_state url s))

unfoldable pub stable_state : UrlState → UrlState
stable_state u = record u {
  stable_timer = false;
  delay = first_delay;
  retry_at = 0;
  failed_generation = none;
  recovering = false;
}

-- The stable timer of a state.
unfoldable pub stabilize : Str → State → State
unfolding stable_state
stabilize url s = elim (find_state url s.states) [
  | none ↦ s
  | some u ↦
      if u.stable_timer
      then (if is_empty u.healthy
          then change url (λ v. record v { stable_timer = false }) s
          else wake (change url stable_state s))
      else s
]

unfoldable pub closed_state : ℕ → UrlState → UrlState
closed_state id u =
    let left = without id u.healthy in
    expire (record u {
      healthy = left;
      deferred = without id u.deferred;
      trial = if holds id u.trial then none else u.trial;
      healthy_since = if is_empty left then none else u.healthy_since;
      stable_timer = u.stable_timer && not (is_empty left);
    })

unfoldable pub closed : Str → ℕ → State → State
unfolding closed_state
closed url id s = elim (find_state url s.states) [
  | none ↦ s
  | some u ↦ wake (change url (closed_state id) s)
]

unfoldable pub failed_state : ℕ → UrlState → UrlState
failed_state generation u = record u { failed_generation = some generation; recovering = true }

-- The end of `failed`, for a relay without healthy sockets whose failure is new.
unfoldable pub note_failure : Bool → Str → ℕ → ℕ → State → State
unfolding failed_state
note_failure on_line url generation now s =
    let t = change url (failed_state generation) s in
    wake (
      if not t.offline && on_line
      then record (change url
          (λ u. record u { failure = some (record { serial = t.next_serial; at = now }) }) t) {
            next_serial = suc t.next_serial;
          }
      else mark_offline t)

unfoldable pub failed_found : Limits → Bool → Str → ℕ → ℕ → Option UrlState → State → State
unfolding note_failure
failed_found limits on_line url generation now none s = s
failed_found limits on_line url generation now (some u) s =
    if not limits.backoff_enabled
      || not (is_empty u.healthy)
      || holds generation u.failed_generation
    then s
    else note_failure on_line url generation now s

unfoldable pub failed : Limits → Bool → Str → ℕ → ℕ → ℕ → State → State
unfolding failed_found closed
failed limits on_line url id generation now s =
    let t = closed url id (with_state url s) in
    failed_found limits on_line url generation now (find_state url t.states) t
