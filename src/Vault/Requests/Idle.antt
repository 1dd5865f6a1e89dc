-- ===== src/Vault/Requests/Idle.antt =====
-- src/services/vault-request-queue.js: `drain` leaves nothing that it could still start. Its loop ends
-- by its own tests, never for want of rounds.
use billion.Common.{
  ℕ, zero, suc, ◌+◌, ◌≤◌, ◌<◌, ◌≡◌, refl, inl, inr, ◌⊎◌, Bool, true, false, Option, none, some,
  arith, ltb, length, Bool-cases, Option-cases, find,
}
use billion.Vault.Requests.Jobs.{Job, length-remove, length-remove-le}
use billion.Vault.Requests.Draining.{advance-induction}
use billion.Vault.Requests.Places.{
  IsPlaced, lane_occurrences, pick-waits, advance-IsPlaced, waits-not_settled,
}
use billion.Vault.Requests.{
  State, Reply, Caller, settle, start, advance, pick, choose, normal_candidate, priority_candidate,
  drain_loop, drain_when, drain,
}

-- The set is full, or no waiting job may start.
abbrev pub Idle : State → Type 0
Idle s = (5 ≤ length s.running) ⊎ (pick s ≡ none)

abbrev pub waiting : State → ℕ
waiting s = length s.waiting_normal + length s.waiting_priority

waiting-start : (s : State) (j : Job) → 0 < lane_occurrences s j → waiting (start s j) < waiting s
unfolding start
waiting-start s j h =
    ground (arith, length-remove j.id s.waiting_normal, length-remove j.id s.waiting_priority)

waiting-settle-le : (s : State) (j : Job) (r : Reply) → waiting (settle s j r) ≤ waiting s
unfolding settle
waiting-settle-le s j r =
    ground (arith, length-remove-le j.id s.waiting_normal, length-remove-le j.id s.waiting_priority)

waiting-settle :
    (s : State) (j : Job) (r : Reply)
    → IsPlaced s
    → 0 < lane_occurrences s j
    → waiting (settle s j r) < waiting s
unfolding settle
waiting-settle s j r v h = ground (
  arith,
  waits-not_settled s j v h,
  length-remove j.id s.waiting_normal,
  length-remove j.id s.waiting_priority,
)

module _ (caller : Caller) (p now : ℕ) where
  waiting-advance :
      (s : State) (j : Job)
      → IsPlaced s
      → pick s ≡ some j
      → waiting (advance caller p now s j) < waiting s
  waiting-advance s j v h =
      let waits = pick-waits s j v h in
      let started = waiting-start s j waits in
      advance-induction caller p now (λ t. waiting t < waiting s) s j
        (λ r. waiting-settle s j r v waits) started
        (λ r. omega (arith, waiting-settle-le (start s j) j r))

  nothing_waits : (s : State) → waiting s ≤ 0 → pick s ≡ none
  unfolding pick choose normal_candidate priority_candidate find
  nothing_waits s h = grind arith

  -- As many rounds as there are waiting jobs are enough.
  pub drain_loop-Idle :
      (fuel : ℕ) (s : State) → IsPlaced s → waiting s ≤ fuel → Idle (drain_loop caller fuel p now s)
  unfolding drain_loop
  drain_loop-Idle zero s v h = inr (nothing_waits s h)
  drain_loop-Idle (suc fuel) s v h = elim (Bool-cases (ltb (length s.running) 5)) [
    | inr full ↦ rw (full, drain_loop) (inl (ground arith))
    | inl room ↦ elim (Option-cases (pick s)) [
      | inl idle ↦ rw (room, idle, drain_loop) (inr idle)
      | inr (j, e) ↦
          rw (room, e, drain_loop)
            (drain_loop-Idle fuel _ (advance-IsPlaced caller p now s j v e)
              (omega (arith, waiting-advance s j v e)))
    ]
  ]

-- Closed, without a port, or nothing to start.
abbrev pub Quiet : State → Type 0
Quiet s = ((s.closed ≡ true) ⊎ (s.port ≡ none)) ⊎ Idle s

module _ (caller : Caller) (now : ℕ) where
  drain_when-Quiet :
      (closed : Bool) (port : Option ℕ) (s : State)
      → s.closed ≡ closed
      → s.port ≡ port
      → IsPlaced s
      → Quiet (drain_when caller closed port now s)
  unfolding drain_when
  drain_when-Quiet true port s c p v = inl (inl c)
  drain_when-Quiet false none s c p v = inl (inr p)
  drain_when-Quiet false (some q) s c p v = inr (drain_loop-Idle caller q now _ s v (omega arith))

  pub drain-Quiet : (s : State) → IsPlaced s → Quiet (drain caller now s)
  unfolding drain
  drain-Quiet s v = drain_when-Quiet s.closed s.port s refl refl v
