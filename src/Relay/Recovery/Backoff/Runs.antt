-- ===== src/Relay/Recovery/Backoff/Runs.antt =====
-- connection-recovery.js: the delays of the relays, after every sequence of events.
use billion.Common.{
  ℕ, ◌≤◌, refl, Bool, false, ◌&&◌, not, Option, none, some, List, [], ◌∷◌, arith, ◌==◌, if_cases,
  option_cases,
}
use billion.Common.Text.{Str}
use billion.Relay.Recovery.States.{
  UrlState, Pending, State, Limits, first_delay, init, find_state, without_state, with_state,
  change, is_empty, is_some,
}
use billion.Relay.Recovery.Network.{
  cancel_probe, still_pending, backed_off, back_off_all, decide, end_probe, come_online,
  still_pending, backed_off, back_off_all, decide, end_probe, come_online,
}
use billion.Relay.Recovery.Sockets.{
  retain, released, release, idle_out, attempted, attempt, opened_state, opened, stable_state,
  stabilize, closed_state, closed, failed_state, note_failure, failed_found, failed,
}
use billion.Relay.Recovery.Helpers.{update-All, without_state-All}
use billion.Relay.Recovery.{
  cancelled_before_open, clear, Event, retains, releases, idles, gates, attempts, opens, stabilizes,
  fails, closes, ends_probe, comes_online, cancels, clears, step, run_all,
}
use billion.Relay.Recovery.Backoff.{
  InRange, AllInRange, with_state-InRange, same_delay, mark_offline-InRange, released-delay,
  attempted-delay, closed_state-delay, stop_network_if_idle-InRange, gate-InRange,
}

module _ (limits : Limits) (enough : first_delay ≤ limits.backoff_max_ms) where
  abbrev pub Kept : State → Type 0
  Kept = AllInRange limits

  retain-InRange : (url : Str) (s : State) → Kept s → Kept (retain url s)
  unfolding retain
  retain-InRange url s v =
      same_delay limits enough url _ (with_state url s) (λ u. refl)
        (with_state-InRange limits enough url s v)

  release-InRange : (url : Str) (now : ℕ) (s : State) → Kept s → Kept (release url now s)
  unfolding release
  release-InRange url now s v = option_cases Kept (find_state url s.states) _ _ v (λ u e.
      stop_network_if_idle-InRange limits enough (change url (released now) s)
        (same_delay limits enough url (released now) s (released-delay limits enough now) v))

  idle_out-InRange : (url : Str) (s : State) → Kept s → Kept (idle_out url s)
  unfolding idle_out
  idle_out-InRange url s v = option_cases Kept (find_state url s.states) _ _ v (λ u e.
      if_cases Kept
        (u.idle_timer && u.interests == 0 && is_empty u.healthy && not (is_some u.trial))
        (record s { states = without_state url s.states })
        (change url (λ w. record w { idle_timer = false }) s)
        (λ g. without_state-All (InRange limits) url s.states v)
        (λ g. same_delay limits enough url _ s (λ w. refl) v))

  attempt-InRange : (url : Str) (id : ℕ) (s : State) → Kept s → Kept (attempt url id s)
  unfolding attempt
  attempt-InRange url id s v =
      same_delay limits enough url (attempted id) (with_state url s)
        (attempted-delay limits enough id) (with_state-InRange limits enough url s v)

  opened-InRange : (url : Str) (id now : ℕ) (s : State) → Kept s → Kept (opened url id now s)
  unfolding opened opened_state
  opened-InRange url id now s v =
      same_delay limits enough url (opened_state id now) (with_state url s) (λ u. refl)
        (with_state-InRange limits enough url s v)

  stabilize-InRange : (url : Str) (s : State) → Kept s → Kept (stabilize url s)
  unfolding stabilize stable_state InRange
  stabilize-InRange url s v = option_cases Kept (find_state url s.states) _ _ v (λ u e.
      if_cases Kept u.stable_timer _ _
        (λ g.
          if_cases Kept (is_empty u.healthy) _ _
            (λ h. same_delay limits enough url _ s (λ w. refl) v)
            (λ h.
              update-All (InRange limits) url stable_state s.states (λ w k. omega (arith, enough))
                v))
        (λ g. v))

  closed-InRange : (url : Str) (id : ℕ) (s : State) → Kept s → Kept (closed url id s)
  unfolding closed
  closed-InRange url id s v = option_cases Kept (find_state url s.states) _ _ v (λ u e.
      same_delay limits enough url (closed_state id) s (closed_state-delay limits enough id) v)

  note_failure-InRange :
      (on_line : Bool) (url : Str) (generation now : ℕ) (s : State)
      → Kept s
      → Kept (note_failure on_line url generation now s)
  unfolding note_failure failed_state
  note_failure-InRange on_line url generation now s v =
      let t : State = change url (failed_state generation) s in
      let kept : Kept t = same_delay limits enough url (failed_state generation) s (λ u. refl) v in
      if_cases Kept (not t.offline && on_line) _ _
        (λ e. same_delay limits enough url _ t (λ w. refl) kept)
        (λ e. mark_offline-InRange limits enough t kept)

  failed_found-InRange :
      (on_line : Bool) (url : Str) (generation now : ℕ) (o : Option UrlState) (s : State)
      → Kept s
      → Kept (failed_found limits on_line url generation now o s)
  unfolding failed_found
  failed_found-InRange on_line url generation now none s v = v
  failed_found-InRange on_line url generation now (some u) s v =
      if_cases Kept _ _ _ (λ e. v) (λ e. note_failure-InRange on_line url generation now s v)

  failed-InRange :
      (on_line : Bool) (url : Str) (id generation now : ℕ) (s : State)
      → Kept s
      → Kept (failed limits on_line url id generation now s)
  unfolding failed
  failed-InRange on_line url id generation now s v =
      let t : State = closed url id (with_state url s) in
      failed_found-InRange on_line url generation now (find_state url t.states) t
        (closed-InRange url id (with_state url s) (with_state-InRange limits enough url s v))

  back_off_all-InRange :
      (spread : Str → ℕ → ℕ) (ps : List Pending) (s : State)
      → Kept s
      → Kept (back_off_all limits spread ps s)
  unfolding back_off_all backed_off InRange
  back_off_all-InRange spread [] s v = v
  back_off_all-InRange spread (p ∷ ps) s v =
      back_off_all-InRange spread ps (change p.url (backed_off limits spread p.failure) s) (
        update-All (InRange limits) p.url (backed_off limits spread p.failure) s.states
          (λ u h. ground (arith, enough, h)) v)

  decide-InRange :
      (spread : Str → ℕ → ℕ) (online : Bool) (ps : List Pending) (s : State)
      → Kept s
      → Kept (decide limits spread online ps s)
  unfolding decide
  decide-InRange spread online [] s v = v
  decide-InRange spread online (p ∷ ps) s v =
      if_cases Kept online _ _ (λ e. back_off_all-InRange spread (p ∷ ps) s v)
        (λ e. mark_offline-InRange limits enough s v)

  end_probe-InRange :
      (spread : Str → ℕ → ℕ) (online : Bool) (s : State)
      → Kept s
      → Kept (end_probe limits spread online s)
  unfolding end_probe
  end_probe-InRange spread online s v =
      option_cases Kept s.probe _ _ v
        (λ ps e. decide-InRange spread online (still_pending s.states ps) (cancel_probe s) v)

  come_online-InRange : (s : State) → Kept s → Kept (come_online s)
  unfolding come_online
  come_online-InRange s v = if_cases Kept s.monitor _ _ (λ e. v) (λ e. v)

  step-InRange : (s : State) (e : Event) → Kept s → Kept (step limits s e)
  unfolding step cancelled_before_open clear
  step-InRange s (retains url) v = retain-InRange url s v
  step-InRange s (releases url now) v = release-InRange url now s v
  step-InRange s (idles url) v = idle_out-InRange url s v
  step-InRange s (gates on_line url id now) v = gate-InRange limits enough on_line url id now s v
  step-InRange s (attempts url id) v = attempt-InRange url id s v
  step-InRange s (opens url id now) v = opened-InRange url id now s v
  step-InRange s (stabilizes url) v = stabilize-InRange url s v
  step-InRange s (fails on_line url id generation now) v =
      failed-InRange on_line url id generation now s v
  step-InRange s (closes url id) v = closed-InRange url id s v
  step-InRange s (ends_probe spread online) v = end_probe-InRange spread online s v
  step-InRange s comes_online v = come_online-InRange s v
  step-InRange s cancels v = v
  step-InRange s clears v = tt

  run_all_from-InRange : (es : List Event) (s : State) → Kept s → Kept (run_all limits s es)
  unfolding run_all
  run_all_from-InRange [] s v = v
  run_all_from-InRange (e ∷ es) s v = run_all_from-InRange es (step limits s e) (step-InRange s e v)

  -- When the limit of the delay is not below the first delay, then after every sequence of calls, timers
  -- and answers of the network, whatever the random factor, the delay of each relay is at least the first
  -- delay and at most the limit.
  pub run_all-InRange : (es : List Event) → AllInRange limits (run_all limits init es)
  unfolding init
  run_all-InRange es = run_all_from-InRange es init tt
