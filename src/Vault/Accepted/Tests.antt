-- ===== src/Vault/Accepted/Tests.antt =====
-- The queue of accepted messages at concrete storages, and the theorems about it.
use billion.Common.{ℕ, suc, ◌+◌, ◌≡◌, refl, true, false, [], ◌∷◌}
use billion.Common.Text.{Str, str_eq}
use billion.Common.Sorting.{sort, insert}
use billion.Vault.Accepted.Pruning.{IsPruned, prune_queue-IsPruned}
use billion.Vault.Accepted.Flushing.{flush_one-Removes}
use billion.Vault.Accepted.{
  Item, World, backfill, lower, is_hex, is_valid_payload, normalize_timestamp, normalize_item,
  item_key, keep_some, normalize_all, keep_older, is_kept, dedupe_from, drop, last_items,
  prune_queue, read_queue, has_key, find_key, is_throttled, settle, ask_for, flush_one,
}

abbrev times : ℕ → Str
times ℕ.zero = []
times (suc n) = b'a' ∷ times n

abbrev message : ℕ → Item
message unit = record {
  code = backfill;
  owner_pubkey = times 64;
  app_id = unit ∷ [];
  created_at = 5;
  last_attempt_at = 0;
}

abbrev vault : World
vault = record {
  answer = λ q. true;
  meanwhile = λ q storage. storage;
  before = λ round. 100 + round;
  after = λ round. 200 + round;
}

turn_flushes : (flush_one vault 1 (message 120) (message 120 ∷ message 121 ∷ [])).0 ≡ true
unfolding flush_one ask_for settle is_throttled find_key item_key read_queue prune_queue last_items
    drop sort insert dedupe_from is_kept keep_older normalize_all keep_some normalize_item
    normalize_timestamp is_valid_payload is_hex lower str_eq
turn_flushes = refl

flush_one-Removes_example :
    has_key
      (item_key (message 120))
      (flush_one vault 1 (message 120) (message 120 ∷ message 121 ∷ [])).1
    ≡ false
flush_one-Removes_example =
    flush_one-Removes vault 1 (message 120) (message 120 ∷ message 121 ∷ []) turn_flushes

prune_queue-IsPruned_example :
    IsPruned 9 (prune_queue 9 (message 120 ∷ message 121 ∷ message 120 ∷ []))
prune_queue-IsPruned_example = prune_queue-IsPruned 9 (message 120 ∷ message 121 ∷ message 120 ∷ [])
