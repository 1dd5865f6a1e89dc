-- ===== src/Vault/Requests/Places.antt =====
-- src/services/vault-request-queue.js: where a request is. Each one that was asked stands in exactly
-- one place: a lane, the running set, or the settled promises.
use billion.Common.{
  ℕ, ◌+◌, ◌≤◌, ◌<◌, ◌≡◌, refl, inl, inr, ◌⊎◌, true, false, some, List, [], ◌∷◌, ◌++◌, arith, ltb,
  ◌==◌, if◌then◌else◌, count_if, find, All, count_if-append, find_passes_of,
}
use billion.Vault.Requests.Jobs.{
  Job, occurrences, occurrences-remove, occurrences-append, find-occurs, remove-All,
}
use billion.Vault.Requests.Draining.{advance-induction, drain-induction}
use billion.Vault.Requests.{
  State, Reply, Caller, is_settled, settle, start, advance, pick, choose, eligible,
  normal_candidate, priority_candidate, drain,
}

abbrev pub settlements : ℕ → List (ℕ × Reply) → ℕ
settlements k = count_if (λ e. e.0 == k)

-- How often an id stands anywhere.
abbrev pub places : ℕ → State → ℕ
places k s =
    occurrences k s.running
    + occurrences k s.waiting_normal
    + occurrences k s.waiting_priority
    + settlements k s.settled

-- Ids below `next_id` stand in one place, others in none; each lane holds its own kind of job.
pub record IsPlaced (s : State) : Type 0 where
  pub each : (k : ℕ) → places k s ≡ (if ltb k s.next_id then 1 else 0)
  pub normal_lane : All (λ j. j.priority ≡ false) s.waiting_normal
  pub priority_lane : All (λ j. j.priority ≡ true) s.waiting_priority

abbrev pub lane_occurrences : State → Job → ℕ
lane_occurrences s j =
    if j.priority then occurrences j.id s.waiting_priority else occurrences j.id s.waiting_normal

-- The job runs, or waits in its lane.
abbrev pub Held : State → Job → Type 0
Held s j = 0 < occurrences j.id s.running + lane_occurrences s j

settlements-append :
    (k : ℕ) (xs : List (ℕ × Reply)) (i : ℕ) (r : Reply)
    → settlements k (xs ++ (i, r) ∷ []) ≡ settlements k xs + (if i == k then 1 else 0)
unfolding count_if
settlements-append k xs i r =
    omega (arith, count_if-append (λ (e : ℕ × Reply). e.0 == k) xs ((i, r) ∷ []))

pub occurrences-snoc :
    (k : ℕ) (xs : List Job) (j : Job)
    → occurrences k (xs ++ j ∷ []) ≡ occurrences k xs + (if j.id == k then 1 else 0)
unfolding count_if
occurrences-snoc k xs j = omega (arith, occurrences-append k xs (j ∷ []))

places-settle :
    (s : State) (j : Job) (r : Reply) (k : ℕ)
    → places j.id s ≤ 1
    → Held s j
    → places k (settle s j r) ≡ places k s
unfolding settle
places-settle s j r k once held = ground (
  arith,
  occurrences-remove k j.id s.running,
  occurrences-remove k j.id s.waiting_normal,
  occurrences-remove k j.id s.waiting_priority,
  settlements-append k s.settled j.id r,
)

pub next_id-settle : (s : State) (j : Job) (r : Reply) → (settle s j r).next_id ≡ s.next_id
unfolding settle
next_id-settle s j r = ground arith

settle-normal_lane :
    (s : State) (j : Job) (r : Reply) (P : Job → Type 0)
    → All P s.waiting_normal
    → All P (settle s j r).waiting_normal
unfolding settle
settle-normal_lane s j r P h = ground (arith, remove-All P j.id s.waiting_normal h)

settle-priority_lane :
    (s : State) (j : Job) (r : Reply) (P : Job → Type 0)
    → All P s.waiting_priority
    → All P (settle s j r).waiting_priority
unfolding settle
settle-priority_lane s j r P h = ground (arith, remove-All P j.id s.waiting_priority h)

pub places-le-one : (s : State) (k : ℕ) → IsPlaced s → places k s ≤ 1
places-le-one s k v = ground (arith, v.each k)

pub settle-IsPlaced :
    (s : State) (j : Job) (r : Reply) → IsPlaced s → Held s j → IsPlaced (settle s j r)
settle-IsPlaced s j r v held = record {
  each = λ k.
      rw (places-settle s j r k (places-le-one s j.id v) held, next_id-settle s j r) (v.each k);
  normal_lane = settle-normal_lane s j r _ v.normal_lane;
  priority_lane = settle-priority_lane s j r _ v.priority_lane;
}

places-start :
    (s : State) (j : Job) (k : ℕ) → 0 < lane_occurrences s j → places k (start s j) ≡ places k s
unfolding start
places-start s j k held = ground (
  arith,
  occurrences-snoc k s.running j,
  occurrences-remove k j.id s.waiting_normal,
  occurrences-remove k j.id s.waiting_priority,
)

start-normal_lane :
    (s : State) (j : Job) (P : Job → Type 0)
    → All P s.waiting_normal
    → All P (start s j).waiting_normal
unfolding start
start-normal_lane s j P h = ground (arith, remove-All P j.id s.waiting_normal h)

start-priority_lane :
    (s : State) (j : Job) (P : Job → Type 0)
    → All P s.waiting_priority
    → All P (start s j).waiting_priority
unfolding start
start-priority_lane s j P h = ground (arith, remove-All P j.id s.waiting_priority h)

next_id-start : (s : State) (j : Job) → (start s j).next_id ≡ s.next_id
unfolding start
next_id-start s j = refl

start-IsPlaced :
    (s : State) (j : Job) → IsPlaced s → 0 < lane_occurrences s j → IsPlaced (start s j)
start-IsPlaced s j v held = record {
  each = λ k. rw (places-start s j k held, next_id-start s j) (v.each k);
  normal_lane = start-normal_lane s j _ v.normal_lane;
  priority_lane = start-priority_lane s j _ v.priority_lane;
}

start-Held : (s : State) (j : Job) → Held (start s j) j
unfolding start
start-Held s j = ground (arith, occurrences-snoc j.id s.running j)

pub pick-cases :
    (s : State) (j : Job)
    → pick s ≡ some j
    → (normal_candidate s ≡ some j) ⊎ (priority_candidate s ≡ some j)
unfolding pick choose
pick-cases s j h = ground arith

pub normal_candidate-found :
    (s : State) (j : Job)
    → normal_candidate s ≡ some j
    → find (eligible s.running) s.waiting_normal ≡ some j
unfolding normal_candidate
normal_candidate-found s j h = ground arith

-- The picked job waits in its own lane.
pub pick-waits : (s : State) (j : Job) → IsPlaced s → pick s ≡ some j → 0 < lane_occurrences s j
unfolding priority_candidate
pick-waits s j v h = elim (pick-cases s j h) [
  | inl n ↦
      let found = normal_candidate-found s j n in
      ground (
        arith,
        find-occurs (eligible s.running) s.waiting_normal j found,
        find_passes_of _ (eligible s.running) s.waiting_normal j v.normal_lane found,
      )
  | inr p ↦ ground (
    arith,
    find-occurs (eligible s.running) s.waiting_priority j p,
    find_passes_of _ (eligible s.running) s.waiting_priority j v.priority_lane p,
  )
]

pub advance-IsPlaced :
    (caller : Caller) (p now : ℕ) (s : State) (j : Job)
    → IsPlaced s
    → pick s ≡ some j
    → IsPlaced (advance caller p now s j)
advance-IsPlaced caller p now s j v h =
    let waits = pick-waits s j v h in
    let started = start-IsPlaced s j v waits in
    advance-induction caller p now IsPlaced s j (λ r. settle-IsPlaced s j r v (omega arith)) started
      (λ r. settle-IsPlaced (start s j) j r started (start-Held s j))

pub drain-IsPlaced :
    (caller : Caller) (now : ℕ) (s : State) → IsPlaced s → IsPlaced (drain caller now s)
drain-IsPlaced caller now s v =
    drain-induction caller now IsPlaced (λ p t j w room e. advance-IsPlaced caller p now t j w e) s
      v

not_settled : (k : ℕ) (l : List (ℕ × Reply)) → settlements k l ≡ 0 → is_settled k l ≡ false
unfolding count_if
not_settled k [] h = refl
not_settled k ((i, r) ∷ l) h = ground (arith, not_settled k l)

-- A job that waits in its lane is not done.
pub waits-not_settled :
    (s : State) (j : Job)
    → IsPlaced s
    → 0 < lane_occurrences s j
    → is_settled j.id s.settled ≡ false
waits-not_settled s j v h = not_settled j.id s.settled (ground (arith, places-le-one s j.id v))
