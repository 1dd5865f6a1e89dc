-- ===== src/Accounts/Coverage/Records/Tests.antt =====
-- A batch at a concrete store, and the theorems about it.
use billion.Common.{◌≡◌, refl, true, false, ◌||◌, some, List, [], ◌∷◌}
use billion.Common.Text.{Str, str_eq}
use billion.Common.Sorting.{sort, insert}
use billion.Accounts.Coverage.{
  merge_coverage, merge_sorted, merge_from, same_coverage, has_bad_range, bad_from, is_safe_integer,
}
use billion.Accounts.Coverage.Records.{
  Record, Store, Request, mark_batch, active, all_valid, add_requests, add_records, add_change,
  is_current, includes, apply_change, apply_changes, update_record, find_record, put_record,
}
use billion.Accounts.Coverage.Records.Marking.{covered, requested, covered-mark_batch}
use billion.Accounts.Coverage.Records.Soundness.{IsSound, mark_batch-IsSound}

abbrev key : Str
key = 107 ∷ []

abbrev handle : Record
handle = record { key = key; generation = 1; relay = 114 ∷ []; kind = 1; intervals = (0, 12) ∷ [] }

abbrev store : Store
store = record {
  registry = some (record { generation = 1; kinds = 0 ∷ 1 ∷ [] });
  records = handle ∷ [];
}

abbrev requests : List Request
requests =
    record { records = handle ∷ []; since = 13; until = 20; aborted = false }
    ∷ record { records = handle ∷ []; since = 50; until = 60; aborted = true }
    ∷ []

abbrev marked : Store
marked = record store { records = record handle { intervals = (0, 20) ∷ [] } ∷ [] }

mark_batch_runs : mark_batch requests store ≡ some marked
unfolding mark_batch active all_valid is_safe_integer add_requests add_records add_change is_current
    includes apply_change apply_changes update_record find_record put_record merge_coverage
    merge_sorted merge_from sort insert same_coverage str_eq
mark_batch_runs = refl

covered-mark_batch_example :
    covered key 15 marked.records
    ≡ (covered key 15 store.records || requested key 15 (active requests))
covered-mark_batch_example = covered-mark_batch key 15 requests store marked mark_batch_runs

handle-IsSound : IsSound store
unfolding has_bad_range bad_from is_safe_integer
handle-IsSound = (refl, tt)

mark_batch-IsSound_example : IsSound marked
mark_batch-IsSound_example = mark_batch-IsSound requests store marked handle-IsSound mark_batch_runs
