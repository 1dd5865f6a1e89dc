-- ===== src/Vault/Requests/Draining.antt =====
-- src/services/vault-request-queue.js: rules of induction for one round of `drain` and for all of it.
use billion.Common.{
  ℕ, zero, suc, ◌<◌, ◌≡◌, inl, inr, Bool, true, false, Option, none, some, arith, ltb, length,
  Bool-cases, Option-cases,
}
use billion.Vault.Requests.Jobs.{Job}
use billion.Vault.Requests.{
  State, Reply, Caller, failure, thrown, timed_out, threw, returned, settle, start, launch, advance,
  send_now, time_left, is_expired, pick, drain_loop, drain_when, drain,
}

module _ (caller : Caller) (p now : ℕ) where
  -- Whatever the caller's code does, the started job stays, or it is settled.
  pub launch-induction {ℓ} :
      (P : State → Type ℓ) (s : State) (j : Job)
      → P s
      → ((r : Reply) → P (settle s j r))
      → P (launch caller p now s j)
  unfolding launch
  launch-induction P s j kept settled =
      elim (caller.before_send j)
        as (λ b. P (elim b [
          | threw e ↦ settle s j (failure (thrown e))
          | returned (some early) ↦ settle s j early
          | returned none ↦ send_now caller p now s j
        ])) [
          | threw e ↦ settled _
          | returned (some early) ↦ settled _
          | returned none ↦
              elim (caller.send p j (time_left now j.deadline))
                as (λ a.
                  P (elim a [ returned _ ↦ s | threw e ↦ settle s j (failure (thrown e)) ])) [
                    | returned u ↦ kept
                    | threw e ↦ settled _
                  ]
        ]

  pub advance-induction {ℓ} :
      (P : State → Type ℓ) (s : State) (j : Job)
      → ((r : Reply) → P (settle s j r))
      → P (start s j)
      → ((r : Reply) → P (settle (start s j) j r))
      → P (advance caller p now s j)
  unfolding advance
  advance-induction P s j expired started settled = elim (Bool-cases (is_expired now j.deadline)) [
    | inl e ↦ rw e (expired (failure timed_out))
    | inr e ↦ rw e (launch-induction P (start s j) j started settled)
  ]

  pub drain_loop-induction {ℓ} :
      (P : State → Type ℓ)
      → ((s : State) (j : Job)
          → P s
          → length s.running < 5
          → pick s ≡ some j
          → P (advance caller p now s j))
      → (fuel : ℕ) (s : State) → P s
      → P (drain_loop caller fuel p now s)
  unfolding drain_loop
  drain_loop-induction P step zero s h = h
  drain_loop-induction P step (suc fuel) s h = elim (Bool-cases (ltb (length s.running) 5)) [
    | inr full ↦ rw (full, drain_loop) h
    | inl room ↦ elim (Option-cases (pick s)) [
      | inl idle ↦ rw (room, idle, drain_loop) h
      | inr (j, e) ↦
          rw (room, e, drain_loop)
            (drain_loop-induction P step fuel _ (step s j h (ground arith) e))
    ]
  ]

module _ {ℓ} (caller : Caller) (now : ℕ) (P : State → Type ℓ)
    (step : (p : ℕ) (s : State) (j : Job)
      → P s
      → length s.running < 5
      → pick s ≡ some j
      → P (advance caller p now s j)) where
  drain_when-induction :
      (closed : Bool) (port : Option ℕ) (s : State) → P s → P (drain_when caller closed port now s)
  unfolding drain_when
  drain_when-induction true port s h = h
  drain_when-induction false none s h = h
  drain_when-induction false (some p) s h = drain_loop-induction caller p now P (step p) _ s h

  pub drain-induction : (s : State) → P s → P (drain caller now s)
  unfolding drain
  drain-induction s h = drain_when-induction s.closed s.port s h
