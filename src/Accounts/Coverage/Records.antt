-- ===== src/Accounts/Coverage/Records.antt =====
-- src/services/account-event-coverage.js, the transactions of `createAccountEventCoverage` on the store of
-- coverage records. A transaction that throws is none: it aborts, and leaves the store as it was. The
-- generation of a registry, a random UUID, is a number that the caller supplies.
pub mod Marking
pub mod Soundness
mod Tests
use billion.Common.{
  and_then, ℕ, ◌+◌, Bool, true, false, ◌&&◌, ◌||◌, not, Option, none, some, List, [], ◌∷◌, ◌++◌,
  map, ltb, leb, ◌==◌, if◌then◌else◌,
}
use billion.Common.Text.{Str, codes, str_eq}
use billion.Common.Json.{quote}
use billion.Common.Decimal.{decimal}
use billion.Common.Sorting.{sort}
use billion.Accounts.Coverage.{Range, merge_coverage, same_coverage, has_bad_range, is_safe_integer}

-- A row of the store, and the handle of it that `mark` is given.
pub record Record : Type 0 where
  pub key : Str
  pub generation : ℕ
  pub relay : Str
  pub kind : ℕ
  pub intervals : List Range

pub record Registry : Type 0 where
  pub generation : ℕ
  pub kinds : List ℕ

pub record Store : Type 0 where
  pub registry : Option Registry
  pub records : List Record

pub record Request : Type 0 where
  pub records : List Record
  pub since : ℕ
  pub until : ℕ
  pub aborted : Bool

abbrev pub prefix : Str
prefix = codes "accountEventCoverage:"

-- `keyFor`
pub key_for : Str → ℕ → Str
key_for relay kind = prefix ++ (b'[' ∷ (quote relay ++ (b',' ∷ (decimal kind ++ b']' ∷ []))))

pub includes : List ℕ → ℕ → Bool
includes [] k = false
includes (x ∷ xs) k = x == k || includes xs k

pub find_record : Str → List Record → Option Record
find_record key [] = none
find_record key (r ∷ rs) = if str_eq r.key key then some r else find_record key rs

-- `store.put`
pub put_record : Record → List Record → List Record
put_record r [] = r ∷ []
put_record r (q ∷ qs) = if str_eq q.key r.key then r ∷ qs else q ∷ put_record r qs

pub is_invalid_record : Registry → Record → Bool
unfolding includes key_for
is_invalid_record row r =
    not (r.generation == row.generation)
    || not (includes row.kinds r.kind)
    || not (str_eq r.key (key_for r.relay r.kind))
    || has_bad_range r.intervals

-- `registry`: the row that is there, or a new one.
pub registry_of : ℕ → List ℕ → Option Registry → Registry
registry_of fresh kinds none = record { generation = fresh; kinds = kinds }
registry_of fresh kinds (some row) = row

without_invalid : Registry → List Record → List Record
unfolding is_invalid_record
without_invalid row [] = []
without_invalid row (r ∷ rs) =
    let rest = without_invalid row rs in if is_invalid_record row r then rest else r ∷ rest

without_kind : ℕ → List ℕ → List ℕ
without_kind k [] = []
without_kind k (x ∷ xs) = let rest = without_kind k xs in if x == k then rest else x ∷ rest

-- `new Set`
unique_kinds : List ℕ → List ℕ
unfolding without_kind
unique_kinds [] = []
unique_kinds (x ∷ xs) = x ∷ without_kind x (unique_kinds xs)

-- `reconcile`
pub reconcile : ℕ → List ℕ → Store → Store
unfolding without_invalid unique_kinds registry_of
reconcile fresh kinds store =
    let selected = sort leb (unique_kinds kinds) in
    let row : Registry = record (registry_of fresh selected store.registry) { kinds = selected } in
    record { registry = some row; records = without_invalid row store.records }

-- The update of one record by `read`.
pub read_record : Registry → Str → ℕ → Option Record → Option Record
read_record row relay kind none = some (record {
  key = key_for relay kind;
  generation = row.generation;
  relay = relay;
  kind = kind;
  intervals = [];
})
read_record row relay kind (some current) =
    if is_invalid_record row current
    then some (record {
      key = key_for relay kind;
      generation = row.generation;
      relay = relay;
      kind = kind;
      intervals = [];
    })
    else none

put_some : Option Record → List Record → List Record
put_some none records = records
put_some (some r) records = put_record r records

read_all : Registry → Str → List ℕ → List Record → List Record
unfolding read_record put_some
read_all row relay [] records = records
read_all row relay (kind ∷ kinds) records =
    read_all row relay kinds
      (put_some (read_record row relay kind (find_record (key_for relay kind) records)) records)

all_included : List ℕ → List ℕ → Bool
all_included kinds [] = true
all_included kinds (k ∷ ks) = includes kinds k && all_included kinds ks

-- `read`, for a normalized relay. The registry keeps the kinds that `reconcile` selected last.
pub read : ℕ → List ℕ → Str → List ℕ → Store → Option Store
unfolding read_all all_included
read fresh selected relay kinds store =
    let row = registry_of fresh selected store.registry in
    if all_included row.kinds kinds
    then some (record { registry = some row; records = read_all row relay kinds store.records })
    else none

-- An entry of `changes`.
pub record Change : Type 0 where
  pub key : Str
  pub generation : ℕ
  pub ranges : List Range

-- A range for a key comes to `changes`.
pub add_change : Str → ℕ → Range → List Change → Option (List Change)
add_change key generation r [] =
    some (record { key = key; generation = generation; ranges = r ∷ [] } ∷ [])
add_change key generation r (c ∷ cs) =
    let rest = add_change key generation r cs in
    if str_eq c.key key
    then (if c.generation == generation
        then some (record c { ranges = c.ranges ++ r ∷ [] } ∷ cs)
        else none)
    else and_then rest (λ ds. some (c ∷ ds))

pub is_current : Option Registry → Record → Bool
is_current none r = false
is_current (some row) r = row.generation == r.generation && includes row.kinds r.kind

-- The records of one request.
pub add_records : Option Registry → Range → List Record → List Change → Option (List Change)
unfolding is_current add_change
add_records row range [] changes = some changes
add_records row range (r ∷ rs) changes =
    if is_current row r
    then and_then (add_change r.key r.generation range changes) (add_records row range rs)
    else none

pub add_requests : Option Registry → List Request → List Change → Option (List Change)
unfolding add_records
add_requests row [] changes = some changes
add_requests row (q ∷ qs) changes =
    and_then (add_records row (q.since, q.until) q.records changes) (add_requests row qs)

-- The update of one record by `markBatch`, on the row that was read.
pub update_record : Change → List Record → Record → Option (List Record)
update_record c records current =
    let intervals = merge_coverage (current.intervals ++ c.ranges) in
    if current.generation == c.generation
    then some (
        if same_coverage intervals current.intervals
        then records
        else put_record (record current { intervals = intervals }) records)
    else none

pub apply_change : Change → List Record → Option (List Record)
apply_change c records = and_then (find_record c.key records) (update_record c records)

pub apply_changes : List Change → List Record → Option (List Record)
apply_changes [] records = some records
apply_changes (c ∷ cs) records = and_then (apply_change c records) (apply_changes cs)

-- `validateRange` of every request; `since < 0` holds of no natural number.
pub all_valid : List Request → Bool
unfolding is_safe_integer
all_valid [] = true
all_valid (q ∷ qs) =
    is_safe_integer q.since && is_safe_integer q.until && leb q.since q.until && all_valid qs

pub active : List Request → List Request
active [] = []
active (q ∷ qs) = let rest = active qs in if q.aborted then rest else q ∷ rest

-- `markBatch`; without active requests the transaction does not start.
pub mark_batch : List Request → Store → Option Store
mark_batch requests store =
    if all_valid requests
    then and_then (add_requests store.registry (active requests) []) (λ changes.
      and_then (apply_changes changes store.records)
        (λ records. some (record store { records = records })))
    else none
