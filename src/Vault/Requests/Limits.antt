-- ===== src/Vault/Requests/Limits.antt =====
-- src/services/vault-request-queue.js: how many requests of each kind run at once.
use billion.Common.{
  ℕ, ◌+◌, ◌≤◌, ◌<◌, ◌≡◌, inl, inr, Bool, true, false, not, some, List, [], ◌∷◌, ◌++◌, arith,
  if◌then◌else◌, length, length-append, count_if, count_if-append, find_passes, find_passes_of,
}
use billion.Vault.Requests.Jobs.{Job, count_if-remove-le, length-remove-le}
use billion.Vault.Requests.Draining.{advance-induction, drain-induction}
use billion.Vault.Requests.Places.{IsPlaced, pick-cases, normal_candidate-found, advance-IsPlaced}
use billion.Vault.Requests.Streaks.{IsFair, advance-IsFair}
use billion.Vault.Requests.{
  State, Reply, Caller, settle, start, advance, pick, eligible, normal_candidate,
  priority_candidate, drain,
}

-- At most five requests run, at most two with chunks, two archived and four of the normal lane.
pub record IsBounded (s : State) : Type 0 where
  pub all : length s.running ≤ 5
  pub chunks : count_if (λ j. j.chunk) s.running ≤ 2
  pub archives : count_if (λ j. j.archive) s.running ≤ 2
  pub normals : count_if (λ j. not j.priority) s.running ≤ 4
  pub streak : s.preferred ≤ 3

count_if-snoc :
    (p : Job → Bool) (xs : List Job) (j : Job)
    → count_if p (xs ++ j ∷ []) ≡ count_if p xs + (if p j then 1 else 0)
unfolding count_if
count_if-snoc p xs j = omega (arith, count_if-append p xs (j ∷ []))

pub settle-IsBounded : (s : State) (j : Job) (r : Reply) → IsBounded s → IsBounded (settle s j r)
unfolding settle
settle-IsBounded s j r v = ground (
  arith,
  length-remove-le j.id s.running,
  count_if-remove-le (λ (a : Job). a.chunk) j.id s.running,
  count_if-remove-le (λ (a : Job). a.archive) j.id s.running,
  count_if-remove-le (λ (a : Job). not a.priority) j.id s.running,
)

pick-eligible : (s : State) (j : Job) → pick s ≡ some j → eligible s.running j ≡ true
unfolding priority_candidate
pick-eligible s j h = elim (pick-cases s j h) [
  | inl n ↦ find_passes _ s.waiting_normal j (normal_candidate-found s j n)
  | inr p ↦ find_passes _ s.waiting_priority j p
]

normal_candidate-limit :
    (s : State) (j : Job)
    → normal_candidate s ≡ some j
    → count_if (λ (a : Job). not a.priority) s.running < 4
unfolding normal_candidate
normal_candidate-limit s j h = ground arith

pick-limit :
    (s : State) (j : Job)
    → IsPlaced s
    → pick s ≡ some j
    → j.priority ≡ false
    → count_if (λ (a : Job). not a.priority) s.running < 4
unfolding priority_candidate
pick-limit s j v h low = elim (pick-cases s j h) [
  | inl n ↦ normal_candidate-limit s j n
  | inr p ↦ ground (arith, find_passes_of _ _ s.waiting_priority j v.priority_lane p)
]

start-IsBounded :
    (s : State) (j : Job)
    → IsPlaced s
    → IsBounded s
    → length s.running < 5
    → pick s ≡ some j
    → IsBounded (start s j)
unfolding start eligible
start-IsBounded s j w v room h = ground (
  arith,
  length-append s.running (j ∷ []),
  count_if-snoc (λ (a : Job). a.chunk) s.running j,
  count_if-snoc (λ (a : Job). a.archive) s.running j,
  count_if-snoc (λ (a : Job). not a.priority) s.running j,
  pick-eligible s j h,
  pick-limit s j w h,
)

pub record IsSound (s : State) : Type 0 where
  pub placed : IsPlaced s
  pub bounded : IsBounded s
  pub fair : IsFair s

advance-IsSound :
    (caller : Caller) (p now : ℕ) (s : State) (j : Job)
    → IsSound s
    → length s.running < 5
    → pick s ≡ some j
    → IsSound (advance caller p now s j)
advance-IsSound caller p now s j v room h =
    let started = start-IsBounded s j v.placed v.bounded room h in
    record {
      placed = advance-IsPlaced caller p now s j v.placed h;
      bounded =
          advance-induction caller p now IsBounded s j (λ r. settle-IsBounded s j r v.bounded)
            started (λ r. settle-IsBounded (start s j) j r started);
      fair = advance-IsFair caller p now s j v.placed v.fair h;
    }

pub drain-IsSound :
    (caller : Caller) (now : ℕ) (s : State) → IsSound s → IsSound (drain caller now s)
drain-IsSound caller now s v =
    drain-induction caller now IsSound (λ p t j w room e. advance-IsSound caller p now t j w room e)
      s v
