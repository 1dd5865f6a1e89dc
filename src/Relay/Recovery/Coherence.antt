-- ===== src/Relay/Recovery/Coherence.antt =====
-- connection-recovery.js: what holds while the network is down, and while it is up.
pub mod Runs
use billion.Common.{
  ℕ, ◌≡◌, refl, ◌∙◌, ◌⊎◌, inl, inr, Bool, true, false, ◌&&◌, ◌||◌, not, Option, none, some, List,
  [], ◌∷◌, arith, ltb, ◌==◌, if◌then◌else◌, if_cases, option_cases, All, All-append,
}
use billion.Common.Text.{Str}
use billion.Relay.Recovery.States.{
  Failure, UrlState, Pending, State, Limits, init, new_state, find_state, without_state, with_state,
  change, is_empty, is_in, is_some, expire,
}
use billion.Relay.Recovery.Network.{
  has_demand, cancel_probe, stop_network_if_idle, start_monitor, forget_failure, mark_offline,
  start_probe, still_pending, backed_off, back_off_all, decide, end_probe, come_online,
  still_pending, backed_off, back_off_all, decide, end_probe, come_online,
}
use billion.Relay.Recovery.Sockets.{
  retain, released, release, idle_out, Wait, defer, gate_state, deferred_by, gate_found, gate,
  attempted, attempt, opened_state, opened, stable_state, stabilize, closed_state, closed,
  failed_state, note_failure, failed_found, failed,
}
use billion.Relay.Recovery.Helpers.{update-All, without_state-All, map-holds}
use billion.Relay.Recovery.{
  cancelled_before_open, clear, Event, retains, releases, idles, gates, attempts, opens, stabilizes,
  fails, closes, ends_probe, comes_online, cancels, clears, step, run_all,
}

unfoldable pub Silent : UrlState → Type 0
Silent u = u.failure ≡ none

-- The network is up, and no monitor runs.
abbrev pub IsUp : State → Type 0
IsUp s = (s.offline ≡ false) × (s.monitor ≡ false)

-- The network is down: no probe runs, and no failure waits for one.
abbrev pub IsDown : State → Type 0
IsDown s = (s.offline ≡ true) × (s.probe ≡ none) × All Silent s.states

abbrev pub IsCoherent : State → Type 0
IsCoherent s = IsUp s ⊎ IsDown s

abbrev pub StaysCoherent : Option Wait × State → Type 0
StaysCoherent r = IsCoherent r.1

pub change-IsCoherent :
    (url : Str) (f : UrlState → UrlState) (s : State)
    → ((u : UrlState) → Silent u → Silent (f u))
    → IsCoherent s
    → IsCoherent (change url f s)
change-IsCoherent url f s silent (inl h) = inl h
change-IsCoherent url f s silent (inr h) =
    inr (h.0, h.1, update-All Silent url f s.states silent h.2)

pub with_state-IsCoherent : (url : Str) (s : State) → IsCoherent s → IsCoherent (with_state url s)
unfolding with_state new_state Silent
with_state-IsCoherent url s v =
    option_cases IsCoherent (find_state url s.states) _ _
      (elim v [
        | inl h ↦ inl h
        | inr h ↦ inr (h.0, h.1, All-append Silent s.states _ h.2 (refl, tt))
      ])
      (λ u e. v)

pub start_monitor-IsDown : (s : State) → IsDown s → IsDown (start_monitor s)
unfolding start_monitor
start_monitor-IsDown s v =
    if_cases IsDown (s.monitor || not (has_demand s.states)) _ _ (λ e. v) (λ e. v)

pub mark_offline-IsDown : (s : State) → IsDown (mark_offline s)
unfolding mark_offline forget_failure Silent
mark_offline-IsDown s =
    start_monitor-IsDown _ (refl, refl, map-holds Silent forget_failure s.states (λ u. refl))

pub stop_network_if_idle-IsCoherent :
    (s : State) → IsCoherent s → IsCoherent (stop_network_if_idle s)
unfolding stop_network_if_idle
stop_network_if_idle-IsCoherent s v =
    if_cases IsCoherent (has_demand s.states) _ _ (λ e. v)
      (λ e. elim v [ inl h ↦ inl (h.0, refl) | inr h ↦ inr (h.0, refl, h.2) ])

pub expire-failure : (u : UrlState) → (expire u).failure ≡ u.failure
unfolding expire
expire-failure u =
    if_cases (λ (w : UrlState). w.failure ≡ u.failure)
      (ltb 0 u.interests || not (is_some u.idle_since)) _ _ (λ e. refl) (λ e. refl)

pub released-Silent : (now : ℕ) (u : UrlState) → Silent u → Silent (released now u)
unfolding released Silent
released-Silent now u h =
    if_cases Silent (u.interests == 1) _ _
      (λ e. expire-failure (record u { interests = 0; idle_since = some now }) ∙ h) (λ e. h)

pub attempted-Silent : (id : ℕ) (u : UrlState) → Silent u → Silent (attempted id u)
unfolding attempted Silent
attempted-Silent id u h = if_cases Silent (u.recovering && is_empty u.healthy) _ _ (λ e. h) (λ e. h)

pub closed_state-Silent : (id : ℕ) (u : UrlState) → Silent u → Silent (closed_state id u)
unfolding closed_state Silent
closed_state-Silent id u h = expire-failure _ ∙ h

pub retain-IsCoherent : (url : Str) (s : State) → IsCoherent s → IsCoherent (retain url s)
unfolding retain Silent
retain-IsCoherent url s v =
    change-IsCoherent url _ (with_state url s) (λ u h. h) (with_state-IsCoherent url s v)

pub release-IsCoherent :
    (url : Str) (now : ℕ) (s : State) → IsCoherent s → IsCoherent (release url now s)
unfolding release
release-IsCoherent url now s v = option_cases IsCoherent (find_state url s.states) _ _ v (λ u e.
    stop_network_if_idle-IsCoherent (change url (released now) s)
      (change-IsCoherent url (released now) s (released-Silent now) v))

pub idle_out-IsCoherent : (url : Str) (s : State) → IsCoherent s → IsCoherent (idle_out url s)
unfolding idle_out Silent
idle_out-IsCoherent url s v = option_cases IsCoherent (find_state url s.states) _ _ v (λ u e.
    if_cases IsCoherent
      (u.idle_timer && u.interests == 0 && is_empty u.healthy && not (is_some u.trial))
      (record s { states = without_state url s.states })
      (change url (λ w. record w { idle_timer = false }) s)
      (λ g. elim v [
        | inl h ↦ inl h
        | inr h ↦ inr (h.0, h.1, without_state-All Silent url s.states h.2)
      ])
      (λ g. change-IsCoherent url _ s (λ w h. h) v))

pub clash : {A : Type 0} → (b : Bool) → b ≡ true → b ≡ false → A
clash b e g = ground arith

pub start_probe-IsUp : (u : UrlState) (f : Failure) (s : State) → IsUp s → IsUp (start_probe u f s)
unfolding start_probe
start_probe-IsUp u f s v = option_cases IsUp s.probe _ _ v (λ ps e. v)

pub gate_state-IsCoherent :
    (now : ℕ) (u : UrlState) (s : State) → IsCoherent s → StaysCoherent (gate_state now u s)
unfolding gate_state
gate_state-IsCoherent now u s (inl v) =
    if_cases StaysCoherent s.offline _ _ (λ e. clash s.offline e v.0)
      (λ e.
        option_cases StaysCoherent u.failure _ _ (inl v) (λ f g. inl (start_probe-IsUp u f s v)))
gate_state-IsCoherent now u s (inr v) =
    if_cases StaysCoherent s.offline _ _ (λ e. inr (start_monitor-IsDown s v))
      (λ e. clash s.offline v.0 e)

pub defer-IsCoherent : (url : Str) (id : ℕ) (s : State) → IsCoherent s → IsCoherent (defer url id s)
unfolding defer Silent
defer-IsCoherent url id s v = option_cases IsCoherent (find_state url s.states) _ _ v (λ u e.
    if_cases IsCoherent (is_in id u.deferred) _ _ (λ g. v)
      (λ g. change-IsCoherent url _ s (λ w h. h) v))

pub deferred_by-IsCoherent :
    (url : Str) (id : ℕ) (r : Option Wait × State)
    → StaysCoherent r
    → StaysCoherent (deferred_by url id r)
unfolding deferred_by
deferred_by-IsCoherent url id (none, s) v = v
deferred_by-IsCoherent url id (some w, s) v = defer-IsCoherent url id s v

pub gate_found-IsCoherent :
    (url : Str) (id now : ℕ) (o : Option UrlState) (s : State)
    → IsCoherent s
    → StaysCoherent (gate_found url id now o s)
unfolding gate_found
gate_found-IsCoherent url id now none s v = v
gate_found-IsCoherent url id now (some u) s v =
    deferred_by-IsCoherent url id _ (gate_state-IsCoherent now u s v)

pub cancelled : (s : State) → IsCoherent s → IsCoherent (cancel_probe s)
cancelled s (inl h) = inl h
cancelled s (inr h) = inr (h.0, refl, h.2)

pub not_offline : (down on_line : Bool) → not down && on_line ≡ true → down ≡ false
not_offline down on_line e = ground arith
