-- ===== src/Accounts/Coverage/Records/Soundness.antt =====
-- account-event-coverage.js: the audit never finds fault with the ranges of a record that these
-- transactions wrote.
use mathlib.Core.Path.{subst}
use billion.Common.{
  ℕ, ◌≤◌, ◌≡◌, refl, inl, inr, true, false, Option, none, some, List, [], ◌∷◌, ◌++◌, arith, ◌==◌,
  if◌then◌else◌, Bool-cases, if_cases, and_then, and_then-some, All, All-append,
}
use billion.Common.Text.{Str, str_eq}
use billion.Common.Decimal.{max_safe_integer}
use billion.Accounts.Coverage.{
  Range, merge_coverage, same_coverage, has_bad_range, bad_from, is_safe_integer,
}
use billion.Accounts.Coverage.Faults.{
  Safe, Proper-has_bad_range, Safe-has_bad_range, has_bad_range-merge_coverage,
}
use billion.Accounts.Coverage.Merging.{Proper}
use billion.Accounts.Coverage.Records.{
  Record, Registry, Store, Request, Change, find_record, put_record, add_change, add_records,
  add_requests, update_record, apply_change, apply_changes, active, mark_batch, all_valid,
  is_invalid_record, registry_of, without_invalid, reconcile, read_record, put_some, read_all, read,
  key_for,
}

abbrev pub HasGoodRanges : Record → Type 0
HasGoodRanges r = has_bad_range r.intervals ≡ false

abbrev pub IsSound : Store → Type 0
IsSound store = All HasGoodRanges store.records

find_record-IsSound :
    (key : Str) (rs : List Record) (r : Record)
    → All HasGoodRanges rs
    → find_record key rs ≡ some r
    → HasGoodRanges r
unfolding find_record
find_record-IsSound key [] r v h = ground arith
find_record-IsSound key (q ∷ rs) r v h = elim (Bool-cases (str_eq q.key key)) [
  | inl e ↦ let same : q ≡ r = ground arith in subst HasGoodRanges same v.0
  | inr e ↦ find_record-IsSound key rs r v.1 (ground arith)
]

put_record-IsSound :
    (r : Record) (rs : List Record)
    → All HasGoodRanges rs
    → HasGoodRanges r
    → All HasGoodRanges (put_record r rs)
unfolding put_record
put_record-IsSound r [] v h = (h, tt)
put_record-IsSound r (q ∷ rs) v h =
    if_cases (All HasGoodRanges) (str_eq q.key r.key) _ _ (λ e. (h, v.1))
      (λ e. (v.0, put_record-IsSound r rs v.1 h))

without_invalid-IsSound :
    (row : Registry) (rs : List Record)
    → All HasGoodRanges rs
    → All HasGoodRanges (without_invalid row rs)
unfolding without_invalid
without_invalid-IsSound row [] v = tt
without_invalid-IsSound row (r ∷ rs) v =
    if_cases (All HasGoodRanges) (is_invalid_record row r) _ _
      (λ e. without_invalid-IsSound row rs v.1) (λ e. (v.0, without_invalid-IsSound row rs v.1))

pub reconcile-IsSound :
    (fresh : ℕ) (kinds : List ℕ) (store : Store)
    → IsSound store
    → IsSound (reconcile fresh kinds store)
unfolding reconcile
reconcile-IsSound fresh kinds store v = without_invalid-IsSound _ store.records v

put_read-IsSound :
    (row : Registry) (relay : Str) (kind : ℕ) (o : Option Record) (rs : List Record)
    → All HasGoodRanges rs
    → All HasGoodRanges (put_some (read_record row relay kind o) rs)
unfolding read_record put_some has_bad_range bad_from
put_read-IsSound row relay kind none rs v = put_record-IsSound _ rs v refl
put_read-IsSound row relay kind (some current) rs v =
    if_cases (λ o. All HasGoodRanges (put_some o rs)) (is_invalid_record row current) _ _
      (λ e. put_record-IsSound _ rs v refl) (λ e. v)

read_all-IsSound :
    (row : Registry) (relay : Str) (kinds : List ℕ) (rs : List Record)
    → All HasGoodRanges rs
    → All HasGoodRanges (read_all row relay kinds rs)
unfolding read_all
read_all-IsSound row relay [] rs v = v
read_all-IsSound row relay (kind ∷ kinds) rs v =
    read_all-IsSound row relay kinds _
      (put_read-IsSound row relay kind (find_record (key_for relay kind) rs) rs v)

pub read-IsSound :
    (fresh : ℕ) (selected : List ℕ) (relay : Str) (kinds : List ℕ) (store out : Store)
    → IsSound store
    → read fresh selected relay kinds store ≡ some out
    → IsSound out
unfolding read
read-IsSound fresh selected relay kinds store out v h =
    let row = registry_of fresh selected store.registry in
    let e : record { registry = some row; records = read_all row relay kinds store.records } ≡ out =
      ground arith in
    subst IsSound e (read_all-IsSound row relay kinds store.records v)

-- The ranges of the changes end no earlier than they start, at a safe integer.
abbrev ProperChanges : List Change → Type 0
ProperChanges = All (λ c. Proper c.ranges × Safe c.ranges)

add_change-Proper :
    (k : Str) (generation : ℕ) (r : Range) (cs out : List Change)
    → (r.0 ≤ r.1) × (r.1 ≤ max_safe_integer)
    → ProperChanges cs
    → add_change k generation r cs ≡ some out
    → ProperChanges out
unfolding add_change
add_change-Proper k generation r [] out p v h =
    let e : record { key = k; generation = generation; ranges = r ∷ [] } ∷ [] ≡ out = cc h in
    subst ProperChanges e (((p.0, tt), (p.1, tt)), tt)
add_change-Proper k generation r (c ∷ cs) out p v h = elim (Bool-cases (str_eq c.key k)) [
  | inl same ↦ elim (Bool-cases (c.generation == generation)) [
    | inl now ↦
        let e : record c { ranges = c.ranges ++ r ∷ [] } ∷ cs ≡ out = ground arith in
        subst ProperChanges e (
          (
            All-append (λ (q : Range). q.0 ≤ q.1) c.ranges (r ∷ []) v.0.0 (p.0, tt),
            All-append (λ (q : Range). q.1 ≤ max_safe_integer) c.ranges (r ∷ []) v.0.1 (p.1, tt),
          ),
          v.1,
        )
    | inr other ↦ ground arith
  ]
  | inr other ↦
      let h2 : and_then (add_change k generation r cs) (λ ds. some (c ∷ ds)) ≡ some out =
        ground arith in
      let (ds, first, last) =
        and_then-some (add_change k generation r cs) (λ ds. some (c ∷ ds)) out h2 in
      let e : c ∷ ds ≡ out = cc last in
      subst ProperChanges e (v.0, add_change-Proper k generation r cs ds p v.1 first)
]

add_records-Proper :
    (row : Option Registry) (range : Range) (rs : List Record) (cs out : List Change)
    → (range.0 ≤ range.1) × (range.1 ≤ max_safe_integer)
    → ProperChanges cs
    → add_records row range rs cs ≡ some out
    → ProperChanges out
unfolding add_records
add_records-Proper row range [] cs out p v h = let e : cs ≡ out = cc h in subst ProperChanges e v
add_records-Proper row range (r ∷ rs) cs out p v h =
    let h2 : and_then (add_change r.key r.generation range cs) (add_records row range rs)
        ≡ some out =
      ground arith in
    let (next, first, later) =
      and_then-some (add_change r.key r.generation range cs) (add_records row range rs) out h2 in
    add_records-Proper row range rs next out p
      (add_change-Proper r.key r.generation range cs next p v first) later

abbrev AllProper : List Request → Type 0
AllProper = All (λ q. (q.since ≤ q.until) × (q.until ≤ max_safe_integer))

active-AllProper : (qs : List Request) → all_valid qs ≡ true → AllProper (active qs)
unfolding active all_valid is_safe_integer
active-AllProper [] h = tt
active-AllProper (q ∷ qs) h =
    if_cases AllProper q.aborted _ _ (λ e. active-AllProper qs (ground arith))
      (λ e. ((ground arith, ground arith), active-AllProper qs (ground arith)))

add_requests-Proper :
    (row : Option Registry) (qs : List Request) (cs out : List Change)
    → AllProper qs
    → ProperChanges cs
    → add_requests row qs cs ≡ some out
    → ProperChanges out
unfolding add_requests
add_requests-Proper row [] cs out p v h = let e : cs ≡ out = cc h in subst ProperChanges e v
add_requests-Proper row (q ∷ qs) cs out p v h =
    let (next, first, later) =
      and_then-some (add_records row (q.since, q.until) q.records cs) (add_requests row qs) out h in
    add_requests-Proper row qs next out p.1
      (add_records-Proper row (q.since, q.until) q.records cs next p.0 v first) later

update_record-IsSound :
    (c : Change) (rs : List Record) (current : Record) (out : List Record)
    → All HasGoodRanges rs
    → HasGoodRanges current
    → Proper c.ranges × Safe c.ranges
    → update_record c rs current ≡ some out
    → All HasGoodRanges out
unfolding update_record
update_record-IsSound c rs current out v good p h =
    let merged : List Range = merge_coverage (current.intervals ++ c.ranges) in
    let next : Record = record current { intervals = merged } in
    let sound : HasGoodRanges next =
      has_bad_range-merge_coverage (current.intervals ++ c.ranges)
        (All-append (λ (q : Range). q.0 ≤ q.1) current.intervals c.ranges
          (Proper-has_bad_range current.intervals good) p.0)
        (All-append (λ (q : Range). q.1 ≤ max_safe_integer) current.intervals c.ranges
          (Safe-has_bad_range current.intervals good) p.1) in
    let e : (if same_coverage merged current.intervals then rs else put_record next rs) ≡ out =
      ground arith in
    subst (All HasGoodRanges) e (
      if_cases (All HasGoodRanges) (same_coverage merged current.intervals) _ _ (λ s. v)
        (λ s. put_record-IsSound next rs v sound))

apply_changes-IsSound :
    (cs : List Change) (rs out : List Record)
    → ProperChanges cs
    → All HasGoodRanges rs
    → apply_changes cs rs ≡ some out
    → All HasGoodRanges out
unfolding apply_changes apply_change
apply_changes-IsSound [] rs out p v h = let e : rs ≡ out = cc h in subst (All HasGoodRanges) e v
apply_changes-IsSound (c ∷ cs) rs out p v h =
    let (next, first, later) = and_then-some (apply_change c rs) (apply_changes cs) out h in
    let (current, found, updated) =
      and_then-some (find_record c.key rs) (update_record c rs) next first in
    apply_changes-IsSound cs next out p.1
      (update_record-IsSound c rs current next v (find_record-IsSound c.key rs current v found) p.0
        updated)
      later

-- The audit finds no fault with the ranges of any record after a batch that is committed, if it found
-- none before.
pub mark_batch-IsSound :
    (requests : List Request) (store out : Store)
    → IsSound store
    → mark_batch requests store ≡ some out
    → IsSound out
unfolding mark_batch
mark_batch-IsSound requests store out v h =
    let commit = λ (records : List Record). some (record store { records = records }) in
    let write = λ (changes : List Change). and_then (apply_changes changes store.records) commit in
    let h2 : and_then (add_requests store.registry (active requests) []) write ≡ some out =
      ground arith in
    let valid : all_valid requests ≡ true = ground arith in
    let (changes, collected, rest) =
      and_then-some (add_requests store.registry (active requests) []) write out h2 in
    let (records, applied, stored) =
      and_then-some (apply_changes changes store.records) commit out rest in
    let e : record store { records = records } ≡ out = cc stored in
    subst IsSound e (
      apply_changes-IsSound changes store.records records
        (add_requests-Proper store.registry (active requests) [] changes
          (active-AllProper requests valid) tt collected)
        v applied)
