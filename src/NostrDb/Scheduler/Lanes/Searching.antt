-- ===== src/NostrDb/Scheduler/Lanes/Searching.antt =====
-- access-scheduler.js: where `takeFromClass` returns null, no consumer's first job passes its test: the
-- loop visits every position, wherever the cursor stands.
use native.Mathlib.Nat.{mod-eq_of_lt, mod-add-mod, add-mod_right, mod-lt}
use mathlib.Core.Path.{subst}
use billion.Common.{
  ℕ, zero, suc, ◌+◌, ◌-◌, ◌%◌, ◌<◌, ◌≡◌, sym, ap, ◌∙◌, inl, inr, Bool, false, Option, none, some,
  arith, length, Bool-cases, leb, leb→le,
}
use billion.NostrDb.Scheduler.Lanes.{Job, Lane, head_at, try_at, scan, take_from_lane}

-- No job is there, or it does not pass.
abbrev pub Blocked : (Job → Bool) → Option Job → Type 0
Blocked test o = (j : Job) → o ≡ some j → test j ≡ false

module _ (test : Job → Bool) (lane : Lane) where
  abbrev count : ℕ
  count = length lane.consumers

  try_at-none :
      (i : ℕ) (o : Option Job) (later : Option (Job × Lane))
      → try_at test i lane o later ≡ none
      → (later ≡ none) × Blocked test o
  unfolding try_at
  try_at-none i none later h = (h, λ j e. ground arith)
  try_at-none i (some m) later h =
      (ground arith, λ j e. elim (Bool-cases (test j)) [ inl t ↦ ground arith | inr f ↦ f ])

  wraps : (i d : ℕ) → ((i + 1) % count + d) % count ≡ (i + suc d) % count
  wraps i d = mod-add-mod (i + 1) count d ∙ ap (λ n. n % count) (omega arith)

  scan-Blocked :
      (rounds i d : ℕ)
      → i < count
      → scan test rounds i lane ≡ none
      → d < rounds
      → Blocked test (head_at ((i + d) % count) lane.consumers)
  unfolding scan
  scan-Blocked zero i d low h below = ground (arith, below)
  scan-Blocked (suc rounds) i zero low h below =
      subst (λ p. Blocked test (head_at p lane.consumers))
        (sym (mod-eq_of_lt (omega (arith, low))) ∙ ap (λ n. n % count) (omega arith))
        (try_at-none i (head_at i lane.consumers) _ h).1
  scan-Blocked (suc rounds) i (suc d) low h below =
      subst (λ p. Blocked test (head_at p lane.consumers)) (wraps i d)
        (scan-Blocked rounds ((i + 1) % count) d (mod-lt (i + 1) (omega (arith, low)))
          (try_at-none i (head_at i lane.consumers) _ h).0 (omega (arith, below)))

  reaches : (i p : ℕ) → i < count → p < count → (d : ℕ) × (d < count) × ((i + d) % count ≡ p)
  reaches i p low high = elim (Bool-cases (leb i p)) [
    | inl e ↦ (
      p - i,
      omega (arith, high),
      ap (λ n. n % count) (omega (arith, leb→le i p e)) ∙ mod-eq_of_lt high,
    )
    | inr e ↦ (
      p + count - i,
      ground arith,
      ap (λ n. n % count) (omega (arith, low)) ∙ add-mod_right p count ∙ mod-eq_of_lt high,
    )
  ]

  pub take_from_lane-Blocked :
      (p : ℕ)
      → p < count
      → take_from_lane test lane ≡ none
      → Blocked test (head_at p lane.consumers)
  unfolding take_from_lane
  take_from_lane-Blocked p high h =
      let start = lane.cursor % count in
      let low : start < count = mod-lt lane.cursor (omega (arith, high)) in
      let (d, near, lands) = reaches start p low high in
      subst (λ q. Blocked test (head_at q lane.consumers)) lands
        (scan-Blocked count start d low h near)
