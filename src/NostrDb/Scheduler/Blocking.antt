-- ===== src/NostrDb/Scheduler/Blocking.antt =====
-- access-scheduler.js: where `take` returns null, no consumer of any class has a first job that may run.
use billion.Common.{
  ℕ, ◌<◌, ◌≡◌, refl, inl, inr, Option, none, some, arith, length, leb, Bool-cases, ◌+◌,
}
use billion.NostrDb.Scheduler.Lanes.{
  Class, maintenance, background, normal, foreground, Job, Lane, head_at,
}
use billion.NostrDb.Scheduler.Lanes.Searching.{Blocked, take_from_lane-Blocked}
use billion.NostrDb.Scheduler.{
  State, lane, runnable, into_state, take_class, or_else, take_in_order, take, starvation_limit,
}

-- No consumer of any class has a first job that may run.
abbrev pub IsIdle : State → Type 0
IsIdle s =
    (c : Class) (p : ℕ)
    → p < length (lane c s).consumers
    → Blocked (runnable s) (head_at p (lane c s).consumers)

or_else-none :
    (first later : Option (Job × State))
    → or_else first later ≡ none
    → (first ≡ none) × (later ≡ none)
unfolding or_else
or_else-none none later h = (refl, h)
or_else-none (some r) later h = ground arith

into_state-none :
    (c : Class) (preferred : ℕ) (s : State) (o : Option (Job × Lane))
    → into_state c preferred s o ≡ none
    → o ≡ none
unfolding into_state
into_state-none c preferred s none h = refl
into_state-none c preferred s (some (j, l)) h = ground arith

take_class-Blocked :
    (c : Class) (preferred : ℕ) (s : State)
    → take_class c preferred s ≡ none
    → (p : ℕ) → p < length (lane c s).consumers
    → Blocked (runnable s) (head_at p (lane c s).consumers)
unfolding take_class
take_class-Blocked c preferred s h p low =
    take_from_lane-Blocked (runnable s) (lane c s) p low (into_state-none c preferred s _ h)

take_in_order-none :
    (s : State)
    → take_in_order s ≡ none
    → (take_class foreground (s.preferred + 1) s ≡ none)
      × (take_class normal (s.preferred + 1) s ≡ none)
      × (take_class background 0 s ≡ none)
      × (take_class maintenance 0 s ≡ none)
unfolding take_in_order
take_in_order-none s h =
    let (first, h2) = or_else-none (take_class foreground (s.preferred + 1) s) _ h in
    let (second, h3) = or_else-none (take_class normal (s.preferred + 1) s) _ h2 in
    let (third, fourth) =
      or_else-none (take_class background 0 s) (take_class maintenance 0 s) h3 in
    (first, second, third, fourth)

take_in_order-IsIdle : (s : State) → take_in_order s ≡ none → IsIdle s
take_in_order-IsIdle s h foreground =
    take_class-Blocked foreground (s.preferred + 1) s (take_in_order-none s h).0
take_in_order-IsIdle s h normal =
    take_class-Blocked normal (s.preferred + 1) s (take_in_order-none s h).1
take_in_order-IsIdle s h background = take_class-Blocked background 0 s (take_in_order-none s h).2
take_in_order-IsIdle s h maintenance = take_class-Blocked maintenance 0 s (take_in_order-none s h).3

take-in_order : (s : State) → take s ≡ none → take_in_order s ≡ none
unfolding take
take-in_order s h = elim (Bool-cases (leb starvation_limit s.preferred)) [
  | inl e ↦
      (or_else-none (take_class maintenance 0 s) (take_in_order s)
        (or_else-none (take_class background 0 s) _ (ground arith)).1).1
  | inr e ↦ ground arith
]

pub take-IsIdle : (s : State) → take s ≡ none → IsIdle s
take-IsIdle s h = take_in_order-IsIdle s (take-in_order s h)
