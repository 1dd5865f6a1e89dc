-- ===== src/Relay/Recovery/Coherence/Runs.antt =====
-- connection-recovery.js: the coherence of the network's state, after every sequence of events.
use billion.Common.{
  ℕ, refl, inl, inr, Bool, ◌&&◌, not, Option, none, some, List, [], ◌∷◌, if◌then◌else◌, if_cases,
  option_cases,
}
use billion.Common.Text.{Str}
use billion.Relay.Recovery.States.{
  UrlState, Pending, State, Limits, init, find_state, with_state, change, is_empty,
}
use billion.Relay.Recovery.Network.{
  cancel_probe, mark_offline, still_pending, backed_off, back_off_all, decide, end_probe,
  come_online, still_pending, backed_off, back_off_all, decide, end_probe, come_online,
}
use billion.Relay.Recovery.Sockets.{
  gate, attempted, attempt, opened_state, opened, stable_state, stabilize, closed_state, closed,
  failed_state, note_failure, failed_found, failed,
}
use billion.Relay.Recovery.{
  cancelled_before_open, clear, Event, retains, releases, idles, gates, attempts, opens, stabilizes,
  fails, closes, ends_probe, comes_online, cancels, clears, step, run_all,
}
use billion.Relay.Recovery.Coherence.{
  Silent, IsCoherent, StaysCoherent, change-IsCoherent, with_state-IsCoherent, mark_offline-IsDown,
  attempted-Silent, closed_state-Silent, retain-IsCoherent, release-IsCoherent, idle_out-IsCoherent,
  clash, gate_found-IsCoherent, cancelled, not_offline,
}

module _ (limits : Limits) where
  gate-IsCoherent :
      (on_line : Bool) (url : Str) (id now : ℕ) (s : State)
      → IsCoherent s
      → StaysCoherent (gate limits on_line url id now s)
  unfolding gate
  gate-IsCoherent on_line url id now s v =
      let there : State = with_state url s in
      let t : State = if on_line then there else mark_offline there in
      let kept : IsCoherent t =
        if_cases IsCoherent on_line _ _ (λ g. with_state-IsCoherent url s v)
          (λ g. inr (mark_offline-IsDown there)) in
      if_cases StaysCoherent (not limits.backoff_enabled) _ _ (λ e. v)
        (λ e. gate_found-IsCoherent url id now (find_state url t.states) t kept)

  attempt-IsCoherent :
      (url : Str) (id : ℕ) (s : State) → IsCoherent s → IsCoherent (attempt url id s)
  unfolding attempt
  attempt-IsCoherent url id s v =
      change-IsCoherent url (attempted id) (with_state url s) (attempted-Silent id)
        (with_state-IsCoherent url s v)

  opened-IsCoherent :
      (url : Str) (id now : ℕ) (s : State) → IsCoherent s → IsCoherent (opened url id now s)
  unfolding opened opened_state Silent
  opened-IsCoherent url id now s v =
      change-IsCoherent url (opened_state id now) (with_state url s) (λ u h. refl)
        (with_state-IsCoherent url s v)

  stabilize-IsCoherent : (url : Str) (s : State) → IsCoherent s → IsCoherent (stabilize url s)
  unfolding stabilize stable_state Silent
  stabilize-IsCoherent url s v = option_cases IsCoherent (find_state url s.states) _ _ v (λ u e.
      if_cases IsCoherent u.stable_timer _ _
        (λ g.
          if_cases IsCoherent (is_empty u.healthy) _ _ (λ h. change-IsCoherent url _ s (λ w h. h) v)
            (λ h. change-IsCoherent url stable_state s (λ w k. k) v))
        (λ g. v))

  closed-IsCoherent : (url : Str) (id : ℕ) (s : State) → IsCoherent s → IsCoherent (closed url id s)
  unfolding closed
  closed-IsCoherent url id s v =
      option_cases IsCoherent (find_state url s.states) _ _ v
        (λ u e. change-IsCoherent url (closed_state id) s (closed_state-Silent id) v)

  note_failure-IsCoherent :
      (on_line : Bool) (url : Str) (generation now : ℕ) (s : State)
      → IsCoherent s
      → IsCoherent (note_failure on_line url generation now s)
  unfolding note_failure failed_state Silent
  note_failure-IsCoherent on_line url generation now s v =
      let t : State = change url (failed_state generation) s in
      let kept : IsCoherent t = change-IsCoherent url (failed_state generation) s (λ u h. h) v in
      if_cases IsCoherent (not t.offline && on_line) _ _
        (λ e. elim kept [
          | inl h ↦ inl h
          | inr h ↦ clash t.offline h.0 (not_offline t.offline on_line e)
        ])
        (λ e. inr (mark_offline-IsDown t))

  failed_found-IsCoherent :
      (on_line : Bool) (url : Str) (generation now : ℕ) (o : Option UrlState) (s : State)
      → IsCoherent s
      → IsCoherent (failed_found limits on_line url generation now o s)
  unfolding failed_found
  failed_found-IsCoherent on_line url generation now none s v = v
  failed_found-IsCoherent on_line url generation now (some u) s v =
      if_cases IsCoherent _ _ _ (λ e. v)
        (λ e. note_failure-IsCoherent on_line url generation now s v)

  failed-IsCoherent :
      (on_line : Bool) (url : Str) (id generation now : ℕ) (s : State)
      → IsCoherent s
      → IsCoherent (failed limits on_line url id generation now s)
  unfolding failed
  failed-IsCoherent on_line url id generation now s v =
      let t : State = closed url id (with_state url s) in
      failed_found-IsCoherent on_line url generation now (find_state url t.states) t
        (closed-IsCoherent url id (with_state url s) (with_state-IsCoherent url s v))

  back_off_all-IsCoherent :
      (spread : Str → ℕ → ℕ) (ps : List Pending) (s : State)
      → IsCoherent s
      → IsCoherent (back_off_all limits spread ps s)
  unfolding back_off_all backed_off Silent
  back_off_all-IsCoherent spread [] s v = v
  back_off_all-IsCoherent spread (p ∷ ps) s v =
      back_off_all-IsCoherent spread ps (change p.url (backed_off limits spread p.failure) s)
        (change-IsCoherent p.url (backed_off limits spread p.failure) s (λ u h. refl) v)

  decide-IsCoherent :
      (spread : Str → ℕ → ℕ) (online : Bool) (ps : List Pending) (s : State)
      → IsCoherent s
      → IsCoherent (decide limits spread online ps s)
  unfolding decide
  decide-IsCoherent spread online [] s v = v
  decide-IsCoherent spread online (p ∷ ps) s v =
      if_cases IsCoherent online _ _ (λ e. back_off_all-IsCoherent spread (p ∷ ps) s v)
        (λ e. inr (mark_offline-IsDown s))

  end_probe-IsCoherent :
      (spread : Str → ℕ → ℕ) (online : Bool) (s : State)
      → IsCoherent s
      → IsCoherent (end_probe limits spread online s)
  unfolding end_probe
  end_probe-IsCoherent spread online s v = option_cases IsCoherent s.probe _ _ v (λ ps e.
      decide-IsCoherent spread online (still_pending s.states ps) (cancel_probe s) (cancelled s v))

  come_online-IsCoherent : (s : State) → IsCoherent s → IsCoherent (come_online s)
  unfolding come_online
  come_online-IsCoherent s v = if_cases IsCoherent s.monitor _ _ (λ e. inl (refl, refl)) (λ e. v)

  step-IsCoherent : (s : State) (e : Event) → IsCoherent s → IsCoherent (step limits s e)
  unfolding step cancelled_before_open clear
  step-IsCoherent s (retains url) v = retain-IsCoherent url s v
  step-IsCoherent s (releases url now) v = release-IsCoherent url now s v
  step-IsCoherent s (idles url) v = idle_out-IsCoherent url s v
  step-IsCoherent s (gates on_line url id now) v = gate-IsCoherent on_line url id now s v
  step-IsCoherent s (attempts url id) v = attempt-IsCoherent url id s v
  step-IsCoherent s (opens url id now) v = opened-IsCoherent url id now s v
  step-IsCoherent s (stabilizes url) v = stabilize-IsCoherent url s v
  step-IsCoherent s (fails on_line url id generation now) v =
      failed-IsCoherent on_line url id generation now s v
  step-IsCoherent s (closes url id) v = closed-IsCoherent url id s v
  step-IsCoherent s (ends_probe spread online) v = end_probe-IsCoherent spread online s v
  step-IsCoherent s comes_online v = come_online-IsCoherent s v
  step-IsCoherent s cancels v = v
  step-IsCoherent s clears v = inl (refl, refl)

  run_all_from-IsCoherent :
      (es : List Event) (s : State) → IsCoherent s → IsCoherent (run_all limits s es)
  unfolding run_all
  run_all_from-IsCoherent [] s v = v
  run_all_from-IsCoherent (e ∷ es) s v =
      run_all_from-IsCoherent es (step limits s e) (step-IsCoherent s e v)

  -- After every sequence of calls, timers and answers of the network: either the network is up and no
  -- monitor waits for it, or it is down, no probe runs, and no relay has a failure that waits for a probe.
  pub run_all-IsCoherent : (es : List Event) → IsCoherent (run_all limits init es)
  unfolding init
  run_all-IsCoherent es = run_all_from-IsCoherent es init (inl (refl, refl))
