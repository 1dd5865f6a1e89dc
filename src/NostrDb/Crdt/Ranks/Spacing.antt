-- ===== src/NostrDb/Crdt/Ranks/Spacing.antt =====
-- crdt.js, `rebalanceRanks`: the ranks dealt out afresh are valid and strictly increasing.
use native.Mathlib.Nat.{mul-div-le, le-div_iff_mul-le}
use billion.Common.{
  ℕ, zero, suc, ◌+◌, ◌*◌, ◌/◌, ◌≤◌, ◌<◌, ◌≡◌, refl, true, Option, none, some, List, [], ◌∷◌, arith,
  length, map,
}
use billion.Common.Text.{Str}
use billion.NostrDb.Crdt.Ranks.{
  rank_space, format_rank, rank_value, rebalance_from, rebalance_ranks, increasing_from,
  has_strictly_increasing_ranks,
}
use billion.NostrDb.Crdt.Ranks.Format.{format_rank-is_valid_rank, rank_value-format_rank}

length-rebalance_from : (step index n : ℕ) → length (rebalance_from step index n) ≡ n
unfolding rebalance_from
length-rebalance_from step index zero = refl
length-rebalance_from step index (suc n) = omega (arith, length-rebalance_from step (index + 1) n)

next_lt :
    (step index n : ℕ)
    → 0 < step
    → step * (index + suc n) < rank_space
    → step * (index + 1) < rank_space
next_lt step index n h k = grind arith

rebalance_from-increasing :
    (step index n p : ℕ)
    → 0 < step
    → p ≡ step * index
    → step * (index + n) < rank_space
    → increasing_from (some p) (map some (rebalance_from step index n)) ≡ true
unfolding rebalance_from increasing_from
rebalance_from-increasing step index zero p pos e h = refl
rebalance_from-increasing step index (suc n) p pos e h =
    let below : step * (index + 1) < rank_space = next_lt step index n pos h in
    ground (
      arith,
      format_rank-is_valid_rank (step * (index + 1)) below,
      rank_value-format_rank (step * (index + 1)) below,
      rebalance_from-increasing step (index + 1) n (rank_value (format_rank (step * (index + 1)))),
    )

increasing_from-none :
    (p : ℕ) (ranks : List (Option Str))
    → increasing_from (some p) ranks ≡ true
    → increasing_from none ranks ≡ true
unfolding increasing_from
increasing_from-none p [] h = refl
increasing_from-none p (none ∷ ranks) h = h
increasing_from-none p (some rank ∷ ranks) h = ground arith

le_step : (n : ℕ) → n < rank_space → 0 < rank_space / (n + 1)
le_step n h =
    let positive : 0 < n + 1 = omega arith in
    let fits : 1 * (n + 1) ≤ rank_space = omega arith in (le-div_iff_mul-le {x = 1} positive).1 fits

-- For fewer than 36^8 tags, the dealt ranks are valid and strictly increasing, one for each tag.
pub rebalance_ranks-increasing :
    (n : ℕ)
    → n < rank_space
    → (has_strictly_increasing_ranks (map some (rebalance_ranks n)) ≡ true)
      × (length (rebalance_ranks n) ≡ n)
unfolding has_strictly_increasing_ranks rebalance_ranks
rebalance_ranks-increasing n h =
    let step : ℕ = rank_space / (n + 1) in
    let pos : 0 < step = le_step n h in
    let fits : (n + 1) * step ≤ rank_space = mul-div-le rank_space (n + 1) in
    (
      increasing_from-none 0 _
          (rebalance_from-increasing step 0 n 0 pos (omega arith) (grind arith)),
      length-rebalance_from step 0 n,
    )
