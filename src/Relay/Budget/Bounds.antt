-- ===== src/Relay/Budget/Bounds.antt =====
-- bridge-receive-queue.js: after enforceBudget the receivers hold no more than the budget.
use billion.Common.{
  ℕ, zero, suc, ◌+◌, ◌-◌, ◌≤◌, ◌<◌, ◌≡◌, refl, ◌⊎◌, inl, inr, Bool, ◌||◌, Option, none, some, List,
  [], ◌∷◌, ◌++◌, ltb, leb, if◌then◌else◌, if_cases, option_cases_eq, length, arith, All,
}
use mathlib.Core.Path.{subst}
use billion.Relay.Budget.{
  Held, Budget, Outcome, total_frames, total_bytes, weight, behind, heavier, victim_of, fail_at,
  enforce_rounds, enforce_budget,
}

-- A receiver that holds no frame holds no byte.
abbrev pub IsHeld : Held → Type 0
IsHeld h = (0 < h.frames) ⊎ (h.bytes ≡ 0)

abbrev IsWithin : Budget → Outcome → Type 0
IsWithin budget o = (total_frames o.items ≤ budget.frames) × (total_bytes o.items ≤ budget.bytes)

-- How many receivers hold a frame.
live : List Held → ℕ
live [] = 0
live (h ∷ hs) = (if ltb 0 h.frames then 1 else 0) + live hs

live-le-length : (items : List Held) → live items ≤ length items
unfolding live
live-le-length [] = omega arith
live-le-length (h ∷ hs) = ground (arith, live-le-length hs)

-- What the victim's failure does to the receivers.
abbrev IsVictim : List Held → ℕ × Held → Type 0
IsVictim items p =
    (total_frames (fail_at p.0 items) + p.1.frames ≡ total_frames items)
    × (total_bytes (fail_at p.0 items) + p.1.bytes ≡ total_bytes items)
    × (suc (live (fail_at p.0 items)) ≡ live items)

abbrev Chooses : List Held → Option (ℕ × Held) → Type 0
Chooses items none = live items ≡ 0
Chooses items (some p) = IsVictim items p

first-IsVictim : (h : Held) (hs : List Held) → 0 < h.frames → IsVictim (h ∷ hs) (0, h)
unfolding total_frames total_bytes fail_at live
first-IsVictim h hs some_frames = (omega arith, omega arith, ground (arith, some_frames))

behind-IsVictim :
    (h : Held) (hs : List Held) (place : ℕ) (other : Held)
    → IsVictim hs (place, other)
    → IsVictim (h ∷ hs) (suc place, other)
unfolding total_frames total_bytes fail_at live
behind-IsVictim h hs place other v = (omega (arith, v.0), omega (arith, v.1), omega (arith, v.2))

step-Chooses :
    (by_bytes : Bool) (h : Held) (hs : List Held) (o : Option (ℕ × Held))
    → Chooses hs o
    → Chooses (h ∷ hs) (if ltb 0 h.frames then heavier by_bytes h (behind o) else behind o)
unfolding heavier behind live
step-Chooses by_bytes h hs none v =
    if_cases (Chooses (h ∷ hs)) (ltb 0 h.frames) _ _ (λ e. first-IsVictim h hs (ground (arith, e)))
      (λ e. ground (arith, e, v))
step-Chooses by_bytes h hs (some (place, other)) v =
    let later : IsVictim (h ∷ hs) (suc place, other) = behind-IsVictim h hs place other v in
    if_cases (Chooses (h ∷ hs)) (ltb 0 h.frames) _ _
      (λ e.
        if_cases (Chooses (h ∷ hs)) (leb (weight by_bytes other) (weight by_bytes h)) _ _
          (λ g. first-IsVictim h hs (ground (arith, e))) (λ g. later))
      (λ e. later)

victim_of-Chooses : (by_bytes : Bool) (items : List Held) → Chooses items (victim_of by_bytes items)
unfolding victim_of live
victim_of-Chooses by_bytes [] = refl
victim_of-Chooses by_bytes (h ∷ hs) =
    step-Chooses by_bytes h hs (victim_of by_bytes hs) (victim_of-Chooses by_bytes hs)

fail_at-IsHeld :
    (place : ℕ) (items : List Held) → All IsHeld items → All IsHeld (fail_at place items)
unfolding fail_at
fail_at-IsHeld place [] v = tt
fail_at-IsHeld zero (h ∷ hs) v = (inr refl, v.1)
fail_at-IsHeld (suc place) (h ∷ hs) v = (v.0, fail_at-IsHeld place hs v.1)

-- Receivers without frames.
nothing_held :
    (items : List Held)
    → All IsHeld items
    → live items ≡ 0
    → (total_frames items ≡ 0) × (total_bytes items ≡ 0)
unfolding live total_frames total_bytes
nothing_held [] v h = (refl, refl)
nothing_held (x ∷ xs) v h =
    let rest : (total_frames xs ≡ 0) × (total_bytes xs ≡ 0) =
      nothing_held xs v.1 (ground (arith, h)) in
    let none_here : x.frames ≡ 0 = ground (arith, h) in
    let no_bytes : x.bytes ≡ 0 = elim v.0 [
      | inl k ↦ absurd (omega (arith, k, none_here))
      | inr k ↦ k
    ] in
    (omega (arith, rest.0, none_here), omega (arith, rest.1, no_bytes))

nothing-IsWithin :
    (budget : Budget) (o : Outcome) → All IsHeld o.items → live o.items ≡ 0 → IsWithin budget o
nothing-IsWithin budget o v h =
    let zero_each : (total_frames o.items ≡ 0) × (total_bytes o.items ≡ 0) =
      nothing_held o.items v h in
    (omega (arith, zero_each.0), omega (arith, zero_each.1))

enforce_rounds-IsWithin :
    (budget : Budget) (rounds frames bytes : ℕ) (o : Outcome)
    → All IsHeld o.items
    → frames ≡ total_frames o.items
    → bytes ≡ total_bytes o.items
    → live o.items ≤ rounds
    → IsWithin budget (enforce_rounds budget rounds frames bytes o)
unfolding enforce_rounds
enforce_rounds-IsWithin budget zero frames bytes o v hf hb enough =
    nothing-IsWithin budget o v (omega (arith, enough))
enforce_rounds-IsWithin budget (suc rounds) frames bytes o v hf hb enough =
    let by_bytes : Bool = ltb budget.bytes bytes in
    if_cases (IsWithin budget) (ltb budget.frames frames || by_bytes) _ o
      (λ e.
        option_cases_eq (IsWithin budget) (victim_of by_bytes o.items) o _
          (λ g.
            nothing-IsWithin budget o v
              (subst (Chooses o.items) g (victim_of-Chooses by_bytes o.items)))
          (λ p g.
            let chosen : IsVictim o.items p =
              subst (Chooses o.items) g (victim_of-Chooses by_bytes o.items) in
            enforce_rounds-IsWithin budget rounds (frames - p.1.frames) (bytes - p.1.bytes)
              (record { items = fail_at p.0 o.items; victims = o.victims ++ p.0 ∷ [] })
              (fail_at-IsHeld p.0 o.items v) (omega (arith, hf, chosen.0))
              (omega (arith, hb, chosen.1)) (omega (arith, enough, chosen.2))))
      (λ e. (ground (arith, e, hf), ground (arith, e, hb)))

-- Where a receiver without frames holds no byte: after enforceBudget the receivers together hold at most the
-- frames and at most the bytes of the budget.
pub enforce_budget-IsWithin :
    (budget : Budget) (items : List Held)
    → All IsHeld items
    → (total_frames (enforce_budget budget items).items ≤ budget.frames)
      × (total_bytes (enforce_budget budget items).items ≤ budget.bytes)
unfolding enforce_budget
enforce_budget-IsWithin budget items v =
    enforce_rounds-IsWithin budget (length items) (total_frames items) (total_bytes items)
      (record { items = items; victims = [] }) v refl refl (live-le-length items)
