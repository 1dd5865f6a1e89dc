-- ===== src/Accounts/Coverage/Records/Marking.antt =====
-- account-event-coverage.js: `markBatch` adds to each record what its active requests ask for, and
-- nothing else.
use mathlib.Core.Path.{subst}
use billion.Common.{
  ℕ, ◌≡◌, refl, sym, ap, ◌∙◌, inl, inr, Bool, true, false, ◌&&◌, ◌||◌, Option, none, some, List, [],
  ◌∷◌, ◌++◌, arith, ◌==◌, if◌then◌else◌, Bool-cases, if_cases, and_then, and_then-some,
}
use billion.Common.Text.{Str, str_eq, str_eq_sound, str_eq_refl}
use billion.Accounts.Coverage.{Range, merge_coverage, same_coverage, contains, covers}
use billion.Accounts.Coverage.Merging.{covers-merge_coverage}
use billion.Accounts.Coverage.Missing.{covers-append}
use billion.Accounts.Coverage.Records.{
  Record, Registry, Store, Request, Change, find_record, put_record, add_change, add_records,
  add_requests, update_record, apply_change, apply_changes, active, mark_batch,
}

same_coverage_sound : (xs ys : List Range) → same_coverage xs ys ≡ true → xs ≡ ys
unfolding same_coverage
same_coverage_sound [] [] h = refl
same_coverage_sound [] (y ∷ ys) h = ground arith
same_coverage_sound (x ∷ xs) [] h = ground arith
same_coverage_sound (x ∷ xs) (y ∷ ys) h = ground (arith, same_coverage_sound xs ys)

str_eq-swap : (a b c : Str) → str_eq a b ≡ true → str_eq a c ≡ str_eq b c
str_eq-swap a b c h = ap (λ s. str_eq s c) (str_eq_sound a b h)

find_record-key :
    (key : Str) (rs : List Record) (r : Record)
    → find_record key rs ≡ some r
    → str_eq r.key key ≡ true
unfolding find_record
find_record-key key [] r h = ground arith
find_record-key key (q ∷ rs) r h = ground (arith, find_record-key key rs r)

-- Two names of one text are the same.
str_eq_join : (a b c : Str) → str_eq a c ≡ true → str_eq b c ≡ true → str_eq a b ≡ true
str_eq_join a b c h k =
    ap (λ s. str_eq s b) (str_eq_sound a c h)
    ∙ ap (λ s. str_eq c s) (str_eq_sound b c k)
    ∙ str_eq_refl c

pub find_record-put_record :
    (key : Str) (r : Record) (rs : List Record)
    → find_record key (put_record r rs) ≡ (if str_eq r.key key then some r else find_record key rs)
unfolding find_record put_record
find_record-put_record key r [] = refl
find_record-put_record key r (q ∷ qs) =
    if_cases
      (λ l. find_record key l ≡ (
        if str_eq r.key key
        then some r
        else (if str_eq q.key key then some q else find_record key qs)))
      (str_eq q.key r.key) _ _ (λ e. ground (arith, str_eq-swap q.key r.key key e))
      (λ e. ground (arith, find_record-put_record key r qs, str_eq_join q.key r.key key))

intervals_of : Option Record → List Range
intervals_of none = []
intervals_of (some r) = r.intervals

-- Whether the record of a key covers a second.
pub covered : Str → ℕ → List Record → Bool
unfolding intervals_of
covered key t records = covers (intervals_of (find_record key records)) t

-- Whether the changes ask for a second of a key.
asked : Str → ℕ → List Change → Bool
asked key t [] = false
asked key t (c ∷ cs) = (str_eq c.key key && covers c.ranges t) || asked key t cs

covered-put_record :
    (key : Str) (t : ℕ) (r : Record) (rs : List Record)
    → covered key t (put_record r rs)
      ≡ (if str_eq r.key key then covers r.intervals t else covered key t rs)
unfolding covered intervals_of
covered-put_record key t r rs =
    ap (λ o. covers (intervals_of o) t) (find_record-put_record key r rs)
    ∙ if_cases
        (λ o.
          covers (intervals_of o) t
          ≡ (if str_eq r.key key then covers r.intervals t else covered key t rs))
        (str_eq r.key key) _ _ (λ e. rw e refl) (λ e. rw e refl)

-- The row that was read is the row of its key.
covered-current :
    (key : Str) (t : ℕ) (current : Record) (rs : List Record)
    → find_record current.key rs ≡ some current
    → str_eq current.key key ≡ true
    → covered key t rs ≡ covers current.intervals t
unfolding covered intervals_of
covered-current key t current rs h e =
    ap (λ k. covers (intervals_of (find_record k rs)) t) (sym (str_eq_sound current.key key e))
    ∙ ap (λ o. covers (intervals_of o) t) h

covered-update_record :
    (key : Str) (t : ℕ) (c : Change) (rs : List Record) (current : Record) (out : List Record)
    → find_record current.key rs ≡ some current
    → c.key ≡ current.key
    → update_record c rs current ≡ some out
    → covered key t out ≡ (covered key t rs || (str_eq c.key key && covers c.ranges t))
unfolding update_record
covered-update_record key t c rs current out found same h =
    let merged : List Range = merge_coverage (current.intervals ++ c.ranges) in
    let next : Record = record current { intervals = merged } in
    let exact : covers merged t ≡ (covers current.intervals t || covers c.ranges t) =
      covers-merge_coverage (current.intervals ++ c.ranges) t
      ∙ covers-append current.intervals c.ranges t in
    elim (Bool-cases (str_eq current.key key)) [
      | inl e ↦ elim (Bool-cases (same_coverage merged current.intervals)) [
        | inl s ↦ ground (
          arith,
          exact,
          covered-current key t current rs found e,
          ap (λ l. covers l t) (same_coverage_sound merged current.intervals s),
          ap (λ k. str_eq k key) same,
        )
        | inr s ↦ ground (
          arith,
          exact,
          covered-current key t current rs found e,
          covered-put_record key t next rs,
          ap (λ k. str_eq k key) same,
        )
      ]
      | inr e ↦ ground (arith, covered-put_record key t next rs, ap (λ k. str_eq k key) same)
    ]

covered-apply_change :
    (key : Str) (t : ℕ) (c : Change) (rs out : List Record)
    → apply_change c rs ≡ some out
    → covered key t out ≡ (covered key t rs || (str_eq c.key key && covers c.ranges t))
unfolding apply_change
covered-apply_change key t c rs out h =
    let (current, found, updated) =
      and_then-some (find_record c.key rs) (update_record c rs) out h in
    let same : current.key ≡ c.key =
      str_eq_sound current.key c.key (find_record-key c.key rs current found) in
    covered-update_record key t c rs current out (ap (λ k. find_record k rs) same ∙ found)
      (sym same) updated

covered-apply_changes :
    (key : Str) (t : ℕ) (cs : List Change) (rs out : List Record)
    → apply_changes cs rs ≡ some out
    → covered key t out ≡ (covered key t rs || asked key t cs)
unfolding apply_changes asked
covered-apply_changes key t [] rs out h =
    let e : rs ≡ out = cc h in
    subst (λ l. covered key t l ≡ (covered key t rs || false)) e (ground arith)
covered-apply_changes key t (c ∷ cs) rs out h =
    let (next, first, later) = and_then-some (apply_change c rs) (apply_changes cs) out h in
    ground (
      arith,
      covered-apply_change key t c rs next first,
      covered-apply_changes key t cs next out later,
    )

asked-add_change :
    (key : Str) (t : ℕ) (k : Str) (generation : ℕ) (r : Range) (cs out : List Change)
    → add_change k generation r cs ≡ some out
    → asked key t out ≡ (asked key t cs || (str_eq k key && contains r t))
unfolding add_change asked covers
asked-add_change key t k generation r [] out h =
    let e : record { key = k; generation = generation; ranges = r ∷ [] } ∷ [] ≡ out = cc h in
    subst (λ l. asked key t l ≡ (false || (str_eq k key && contains r t))) e (ground arith)
asked-add_change key t k generation r (c ∷ cs) out h = elim (Bool-cases (str_eq c.key k)) [
  | inl same ↦ elim (Bool-cases (c.generation == generation)) [
    | inl now ↦
        let e : record c { ranges = c.ranges ++ r ∷ [] } ∷ cs ≡ out = ground arith in
        subst
          (λ l. asked key t l ≡ (
            (str_eq c.key key && covers c.ranges t)
            || asked key t cs
            || (str_eq k key && contains r t)))
          e (ground (arith, covers-append c.ranges (r ∷ []) t, str_eq-swap c.key k key same))
    | inr then_ ↦ ground arith
  ]
  | inr other ↦
      let h2 : and_then (add_change k generation r cs) (λ ds. some (c ∷ ds)) ≡ some out =
        ground arith in
      let (ds, first, last) =
        and_then-some (add_change k generation r cs) (λ ds. some (c ∷ ds)) out h2 in
      let e : c ∷ ds ≡ out = cc last in
      subst
        (λ l. asked key t l ≡ (
          (str_eq c.key key && covers c.ranges t)
          || asked key t cs
          || (str_eq k key && contains r t)))
        e (ground (arith, asked-add_change key t k generation r cs ds first))
]

-- Whether a request names the key.
names : Str → List Record → Bool
names key [] = false
names key (r ∷ rs) = str_eq r.key key || names key rs

asked-add_records :
    (key : Str) (t : ℕ) (row : Option Registry) (range : Range) (rs : List Record)
    (cs out : List Change)
    → add_records row range rs cs ≡ some out
    → asked key t out ≡ (asked key t cs || (names key rs && contains range t))
unfolding add_records names
asked-add_records key t row range [] cs out h =
    let e : cs ≡ out = cc h in
    subst (λ l. asked key t l ≡ (asked key t cs || (false && contains range t))) e (ground arith)
asked-add_records key t row range (r ∷ rs) cs out h =
    let h2 : and_then (add_change r.key r.generation range cs) (add_records row range rs)
        ≡ some out =
      ground arith in
    let (next, first, later) =
      and_then-some (add_change r.key r.generation range cs) (add_records row range rs) out h2 in
    ground (
      arith,
      asked-add_change key t r.key r.generation range cs next first,
      asked-add_records key t row range rs next out later,
    )

-- Whether one of the requests names the key and has the second in its range.
pub requested : Str → ℕ → List Request → Bool
unfolding names
requested key t [] = false
requested key t (q ∷ qs) =
    (names key q.records && contains (q.since, q.until) t) || requested key t qs

asked-add_requests :
    (key : Str) (t : ℕ) (row : Option Registry) (qs : List Request) (cs out : List Change)
    → add_requests row qs cs ≡ some out
    → asked key t out ≡ (asked key t cs || requested key t qs)
unfolding add_requests requested
asked-add_requests key t row [] cs out h =
    let e : cs ≡ out = cc h in
    subst (λ l. asked key t l ≡ (asked key t cs || false)) e (ground arith)
asked-add_requests key t row (q ∷ qs) cs out h =
    let (next, first, later) =
      and_then-some (add_records row (q.since, q.until) q.records cs) (add_requests row qs) out h in
    ground (
      arith,
      asked-add_records key t row (q.since, q.until) q.records cs next first,
      asked-add_requests key t row qs next out later,
    )

-- A batch that succeeds leaves the record of each key covering what it covered, and the ranges that the
-- active requests mark for that key, and nothing else.
pub covered-mark_batch :
    (key : Str) (t : ℕ) (requests : List Request) (store out : Store)
    → mark_batch requests store ≡ some out
    → covered key t out.records ≡ (covered key t store.records || requested key t (active requests))
unfolding mark_batch asked
covered-mark_batch key t requests store out h =
    let commit = λ (records : List Record). some (record store { records = records }) in
    let write = λ (changes : List Change). and_then (apply_changes changes store.records) commit in
    let h2 : and_then (add_requests store.registry (active requests) []) write ≡ some out =
      ground arith in
    let (changes, collected, rest) =
      and_then-some (add_requests store.registry (active requests) []) write out h2 in
    let (records, applied, stored) =
      and_then-some (apply_changes changes store.records) commit out rest in
    let e : record store { records = records } ≡ out = cc stored in
    subst
      (λ o.
        covered key t o.records
        ≡ (covered key t store.records || requested key t (active requests)))
      e
      (ground (
        arith,
        covered-apply_changes key t changes store.records records applied,
        asked-add_requests key t store.registry (active requests) [] changes collected,
      ))
