-- ===== src/Relay/Recovery/Network.antt =====
-- connection-recovery.js: the probe of the network, its monitor, and what they decide of the failures.
use billion.Common.{
  ℕ, ◌+◌, ◌*◌, min, Bool, true, false, ◌&&◌, ◌||◌, not, Option, none, some, List, [], ◌∷◌, map, ltb,
  ◌==◌, if◌then◌else◌,
}
use billion.Common.Text.{Str}
use billion.Relay.Recovery.States.{
  Failure, UrlState, Pending, State, Limits, find_state, wake, change, is_empty,
}

-- `#hasDemand`
unfoldable pub has_demand : List UrlState → Bool
has_demand [] = false
has_demand (u ∷ us) = ltb 0 u.interests || has_demand us

abbrev pub cancel_probe : State → State
cancel_probe s = record s { probe = none }

abbrev pub stop_monitor : State → State
stop_monitor s = record s { monitor = false }

-- `#stopNetworkIfIdle`
unfoldable pub stop_network_if_idle : State → State
unfolding has_demand
stop_network_if_idle s = if has_demand s.states then s else stop_monitor (cancel_probe s)

-- `#startMonitor`
unfoldable pub start_monitor : State → State
start_monitor s = if s.monitor || not (has_demand s.states) then s else record s { monitor = true }

unfoldable pub forget_failure : UrlState → UrlState
forget_failure u = record u { failure = none }

-- `#markOffline`
unfoldable pub mark_offline : State → State
unfolding forget_failure start_monitor
mark_offline s = start_monitor (
    cancel_probe (record s {
      offline = true;
      states = map forget_failure s.states;
      counters = record s.counters {
        offline_waits =
            if s.offline then s.counters.offline_waits else s.counters.offline_waits + 1;
      };
    }))

-- The failure of a relay joins the probe.
unfoldable pub set_pending : Pending → List Pending → List Pending
set_pending p [] = p ∷ []
set_pending p (q ∷ qs) = if q.state_serial == p.state_serial then p ∷ qs else q ∷ set_pending p qs

-- `#startProbe`
unfoldable pub start_probe : UrlState → Failure → State → State
unfolding set_pending
start_probe u failure s =
    let p : Pending = record { url = u.url; state_serial = u.serial; failure = failure } in
    elim s.probe [
      | none ↦ record s { probe = some (p ∷ []) }
      | some ps ↦ record s { probe = some (set_pending p ps) }
    ]

unfoldable pub same_failure : Failure → Option Failure → Bool
same_failure f none = false
same_failure f (some g) = g.serial == f.serial

-- Is the failure still the relay's?
unfoldable pub is_pending : List UrlState → Pending → Bool
unfolding same_failure
is_pending states p = elim (find_state p.url states) [
  | none ↦ false
  | some u ↦
      u.serial == p.state_serial
      && same_failure p.failure u.failure
      && is_empty u.healthy
      && ltb 0 u.interests
]

unfoldable pub still_pending : List UrlState → List Pending → List Pending
unfolding is_pending
still_pending states [] = []
still_pending states (p ∷ ps) =
    let rest = still_pending states ps in if is_pending states p then p ∷ rest else rest

-- `item.delay * (0.8 + random() * 0.4)`, rounded, is what `spread` makes of the relay and its delay.
unfoldable pub backed_off : Limits → (Str → ℕ → ℕ) → Failure → UrlState → UrlState
backed_off limits spread failure u = record u {
  failure = none;
  retry_at = failure.at + min limits.backoff_max_ms (spread u.url u.delay);
  delay = min (u.delay * 2) limits.backoff_max_ms;
}

unfoldable pub back_off_all : Limits → (Str → ℕ → ℕ) → List Pending → State → State
unfolding backed_off
back_off_all limits spread [] s = s
back_off_all limits spread (p ∷ ps) s =
    back_off_all limits spread ps (change p.url (backed_off limits spread p.failure) s)

unfoldable pub decide : Limits → (Str → ℕ → ℕ) → Bool → List Pending → State → State
unfolding back_off_all
decide limits spread online [] s = s
decide limits spread online (p ∷ ps) s =
    if online then back_off_all limits spread (p ∷ ps) s else mark_offline s

-- The end of the probe, with its answer and `navigator.onLine` in one.
unfoldable pub end_probe : Limits → (Str → ℕ → ℕ) → Bool → State → State
unfolding decide still_pending
end_probe limits spread online s = elim s.probe [
  | none ↦ s
  | some ps ↦ wake (decide limits spread online (still_pending s.states ps) (cancel_probe s))
]

-- The monitor's call, when the browser does not say that it is offline.
unfoldable pub come_online : State → State
come_online s = if s.monitor then wake (stop_monitor (record s { offline = false })) else s
