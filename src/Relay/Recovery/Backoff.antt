-- ===== src/Relay/Recovery/Backoff.antt =====
-- connection-recovery.js: the delay of a relay stays between the first one and the limit.
pub mod Runs
use billion.Common.{
  ℕ, ◌≤◌, ◌≡◌, refl, Bool, false, ◌&&◌, ◌||◌, not, Option, none, some, List, [], ◌∷◌, arith, ltb,
  ◌==◌, if◌then◌else◌, if_cases, option_cases, All, All-append,
}
use billion.Common.Text.{Str}
use billion.Relay.Recovery.States.{
  Failure, UrlState, Pending, State, Limits, first_delay, init, new_state, find_state,
  without_state, with_state, change, is_empty, is_in, is_some, expire,
}
use billion.Relay.Recovery.Network.{
  has_demand, cancel_probe, stop_network_if_idle, start_monitor, forget_failure, mark_offline,
  start_probe, still_pending, backed_off, back_off_all, decide, end_probe, come_online,
  still_pending, backed_off, back_off_all, decide, end_probe, come_online,
}
use billion.Relay.Recovery.Sockets.{
  retain, released, release, idle_out, Wait, defer, gate_state, deferred_by, gate_found, gate,
  attempted, attempt, opened_state, opened, stable_state, stabilize, closed_state, closed,
  failed_state, note_failure, failed_found, failed,
}
use billion.Relay.Recovery.Helpers.{update-All, without_state-All, map-All}
use billion.Relay.Recovery.{
  cancelled_before_open, clear, Event, retains, releases, idles, gates, attempts, opens, stabilizes,
  fails, closes, ends_probe, comes_online, cancels, clears, step, run_all,
}

module _ (limits : Limits) where
  -- The delay of a relay.
  unfoldable pub InRange : UrlState → Type 0
  InRange u = (first_delay ≤ u.delay) × (u.delay ≤ limits.backoff_max_ms)

  abbrev pub AllInRange : State → Type 0
  AllInRange s = All InRange s.states

  module _ (enough : first_delay ≤ limits.backoff_max_ms) where
    pub with_state-InRange : (url : Str) (s : State) → AllInRange s → AllInRange (with_state url s)
    unfolding with_state new_state InRange
    with_state-InRange url s v =
        option_cases AllInRange (find_state url s.states) _ _
          (All-append InRange s.states _ v (omega (arith, enough))) (λ u e. v)

    -- A change that leaves the delay.
    pub same_delay :
        (url : Str) (f : UrlState → UrlState) (s : State)
        → ((u : UrlState) → (f u).delay ≡ u.delay)
        → AllInRange s
        → AllInRange (change url f s)
    unfolding InRange
    same_delay url f s same v =
        update-All InRange url f s.states (λ u h. omega (arith, same u, h)) v

    pub mark_offline-InRange : (s : State) → AllInRange s → AllInRange (mark_offline s)
    unfolding mark_offline start_monitor forget_failure InRange
    mark_offline-InRange s v =
        if_cases AllInRange _ _ _
          (λ e. map-All InRange InRange forget_failure s.states (λ u h. h) v)
          (λ e. map-All InRange InRange forget_failure s.states (λ u h. h) v)

    pub expire-delay : (u : UrlState) → (expire u).delay ≡ u.delay
    unfolding expire
    expire-delay u =
        if_cases (λ (w : UrlState). w.delay ≡ u.delay)
          (ltb 0 u.interests || not (is_some u.idle_since)) _ _ (λ e. refl) (λ e. refl)

    pub released-delay : (now : ℕ) (u : UrlState) → (released now u).delay ≡ u.delay
    unfolding released
    released-delay now u =
        if_cases (λ (w : UrlState). w.delay ≡ u.delay) (u.interests == 1) _ _
          (λ e. expire-delay (record u { interests = 0; idle_since = some now })) (λ e. refl)

    pub attempted-delay : (id : ℕ) (u : UrlState) → (attempted id u).delay ≡ u.delay
    unfolding attempted
    attempted-delay id u =
        if_cases (λ (w : UrlState). w.delay ≡ u.delay) (u.recovering && is_empty u.healthy) _ _
          (λ e. refl) (λ e. refl)

    pub closed_state-delay : (id : ℕ) (u : UrlState) → (closed_state id u).delay ≡ u.delay
    unfolding closed_state
    closed_state-delay id u = expire-delay _

    pub stop_network_if_idle-InRange :
        (s : State) → AllInRange s → AllInRange (stop_network_if_idle s)
    unfolding stop_network_if_idle
    stop_network_if_idle-InRange s v =
        if_cases AllInRange (has_demand s.states) _ _ (λ e. v) (λ e. v)

    pub start_monitor-InRange : (s : State) → AllInRange s → AllInRange (start_monitor s)
    unfolding start_monitor
    start_monitor-InRange s v =
        if_cases AllInRange (s.monitor || not (has_demand s.states)) _ _ (λ e. v) (λ e. v)

    pub start_probe-InRange :
        (u : UrlState) (f : Failure) (s : State) → AllInRange s → AllInRange (start_probe u f s)
    unfolding start_probe
    start_probe-InRange u f s v = option_cases AllInRange s.probe _ _ v (λ ps e. v)

    abbrev pub SecondInRange : Option Wait × State → Type 0
    SecondInRange r = AllInRange r.1

    pub gate_state-InRange :
        (now : ℕ) (u : UrlState) (s : State) → AllInRange s → SecondInRange (gate_state now u s)
    unfolding gate_state
    gate_state-InRange now u s v =
        if_cases SecondInRange s.offline _ _ (λ e. start_monitor-InRange s v)
          (λ e. option_cases SecondInRange u.failure _ _ v (λ f g. start_probe-InRange u f s v))

    pub defer-InRange :
        (url : Str) (id : ℕ) (s : State) → AllInRange s → AllInRange (defer url id s)
    unfolding defer
    defer-InRange url id s v = option_cases AllInRange (find_state url s.states) _ _ v (λ u e.
        if_cases AllInRange (is_in id u.deferred) _ _ (λ g. v)
          (λ g. same_delay url _ s (λ w. refl) v))

    pub deferred_by-InRange :
        (url : Str) (id : ℕ) (r : Option Wait × State)
        → SecondInRange r
        → SecondInRange (deferred_by url id r)
    unfolding deferred_by
    deferred_by-InRange url id (none, s) v = v
    deferred_by-InRange url id (some w, s) v = defer-InRange url id s v

    pub gate_found-InRange :
        (url : Str) (id now : ℕ) (o : Option UrlState) (s : State)
        → AllInRange s
        → SecondInRange (gate_found url id now o s)
    unfolding gate_found
    gate_found-InRange url id now none s v = v
    gate_found-InRange url id now (some u) s v =
        deferred_by-InRange url id _ (gate_state-InRange now u s v)

    pub gate-InRange :
        (on_line : Bool) (url : Str) (id now : ℕ) (s : State)
        → AllInRange s
        → SecondInRange (gate limits on_line url id now s)
    unfolding gate
    gate-InRange on_line url id now s v =
        let there : State = with_state url s in
        let t : State = if on_line then there else mark_offline there in
        let kept : AllInRange t =
          if_cases AllInRange on_line _ _ (λ g. with_state-InRange url s v)
            (λ g. mark_offline-InRange there (with_state-InRange url s v)) in
        if_cases SecondInRange (not limits.backoff_enabled) _ _ (λ e. v)
          (λ e. gate_found-InRange url id now (find_state url t.states) t kept)
