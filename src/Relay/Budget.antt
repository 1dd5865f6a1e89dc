-- ===== src/Relay/Budget.antt =====
-- src/services/relay-pool/bridge-receive-queue.js: enforceBudget, with which all receivers share a budget of
-- frames and bytes. A receiver is what it holds; its place in the list stands for its identity, and a
-- victim, which closes, holds nothing.
pub mod Bounds
mod Tests
use billion.Common.{
  ℕ, zero, suc, ◌+◌, ◌-◌, Bool, true, false, ◌||◌, Option, none, some, List, [], ◌∷◌, ◌++◌, ltb,
  leb, ◌==◌, if◌then◌else◌, length,
}

pub record Held : Type 0 where
  pub frames : ℕ
  pub bytes : ℕ

pub record Budget : Type 0 where
  pub frames : ℕ
  pub bytes : ℕ

-- What is left, and the places of the victims in the order in which they failed.
pub record Outcome : Type 0 where
  pub items : List Held
  pub victims : List ℕ

-- `totals`
pub total_frames : List Held → ℕ
total_frames [] = 0
total_frames (h ∷ hs) = h.frames + total_frames hs

pub total_bytes : List Held → ℕ
total_bytes [] = 0
total_bytes (h ∷ hs) = h.bytes + total_bytes hs

pub weight : Bool → Held → ℕ
weight by_bytes h = if by_bytes then h.bytes else h.frames

pub behind : Option (ℕ × Held) → Option (ℕ × Held)
behind none = none
behind (some (place, h)) = some (suc place, h)

-- The heavier of the first receiver and the best of the others; the sort is stable.
pub heavier : Bool → Held → Option (ℕ × Held) → Option (ℕ × Held)
unfolding weight
heavier by_bytes h none = some (0, h)
heavier by_bytes h (some (place, other)) =
    if leb (weight by_bytes other) (weight by_bytes h) then some (0, h) else some (place, other)

-- The first of the receivers that hold a frame, sorted by what they hold, the most first.
pub victim_of : Bool → List Held → Option (ℕ × Held)
unfolding heavier behind
victim_of by_bytes [] = none
victim_of by_bytes (h ∷ hs) =
    let rest : Option (ℕ × Held) = behind (victim_of by_bytes hs) in
    if ltb 0 h.frames then heavier by_bytes h rest else rest

-- The victim fails.
pub fail_at : ℕ → List Held → List Held
fail_at place [] = []
fail_at zero (h ∷ hs) = record { frames = 0; bytes = 0 } ∷ hs
fail_at (suc place) (h ∷ hs) = h ∷ fail_at place hs

-- The loop of `enforceBudget`, with the rounds left and the usage.
pub enforce_rounds : Budget → ℕ → ℕ → ℕ → Outcome → Outcome
unfolding victim_of fail_at
enforce_rounds budget zero frames bytes o = o
enforce_rounds budget (suc rounds) frames bytes o =
    if ltb budget.frames frames || ltb budget.bytes bytes
    then elim (victim_of (ltb budget.bytes bytes) o.items) [
      | none ↦ o
      | some p ↦
          enforce_rounds budget rounds (frames - p.1.frames) (bytes - p.1.bytes)
            (record { items = fail_at p.0 o.items; victims = o.victims ++ p.0 ∷ [] })
    ]
    else o

-- Each round makes a receiver its victim, so there are no more rounds than receivers.
pub enforce_budget : Budget → List Held → Outcome
unfolding enforce_rounds total_frames total_bytes
enforce_budget budget items =
    enforce_rounds budget (length items) (total_frames items) (total_bytes items)
      (record { items = items; victims = [] })
