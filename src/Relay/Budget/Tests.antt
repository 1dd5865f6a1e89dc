-- ===== src/Relay/Budget/Tests.antt =====
-- bridge-receive-queue.js: a budget that makes the heaviest receiver its victim.
use billion.Common.{◌≤◌, ◌≡◌, refl, inl, List, [], ◌∷◌, arith}
use billion.Relay.Budget.{
  Held, Budget, total_frames, total_bytes, weight, behind, heavier, victim_of, fail_at,
  enforce_rounds, enforce_budget,
}
use billion.Relay.Budget.Bounds.{enforce_budget-IsWithin}

abbrev budget : Budget
budget = record { frames = 10; bytes = 100 }

abbrev items : List Held
items =
    record { frames = 3; bytes = 20 }
    ∷ record { frames = 4; bytes = 90 }
    ∷ record { frames = 2; bytes = 60 }
    ∷ []

one_victim : (enforce_budget budget items).victims ≡ 1 ∷ []
unfolding enforce_budget enforce_rounds total_frames total_bytes victim_of heavier behind weight
    fail_at
one_victim = refl

enforce_budget-IsWithin_example :
    (total_frames (enforce_budget budget items).items ≤ 10)
    × (total_bytes (enforce_budget budget items).items ≤ 100)
enforce_budget-IsWithin_example =
    enforce_budget-IsWithin budget items
      (inl (omega arith), (inl (omega arith), (inl (omega arith), tt)))
