-- ===== src/NostrDb/Scheduler/Exclusion.antt =====
-- access-scheduler.js: no two active jobs use the same store.
use mathlib.Core.Path.{subst, ap}
use billion.Common.{
  ℕ, ◌≤◌, ◌≡◌, refl, sym, Bool, true, false, ◌||◌, some, List, [], ◌∷◌, ◌++◌, arith, ◌==◌, count_if,
  count_if-append, if_cases, length, Bool-cases, inl, inr,
}
use billion.Common.Text.{Str, str_eq, str_eq_sound}
use billion.NostrDb.Scheduler.Lanes.{
  Class, Job, Lane, contains, intersects, take_from_lane, queue_of, occurrences,
}
use billion.NostrDb.Scheduler.Lanes.Scanning.{take_from_lane-IsTaken}
use billion.NostrDb.Scheduler.Taking.{TakesFrom, from, take-TakesFrom, pump-induction}
use billion.NostrDb.Scheduler.Places.{set_lane-rest}
use billion.NostrDb.Scheduler.{
  State, Intent, set_lane, lane, runnable, active_stores, intent_stores, take, start, pump,
  without_active, is_active, complete, remove, run, add_foreground_intent,
  release_foreground_intent, cancel_accesses, without_intent,
}

-- How many active jobs use a store.
abbrev pub users : Str → List Job → ℕ
users st = count_if (λ j. contains j.stores st)

abbrev pub IsExclusive : State → Type 0
IsExclusive s = (st : Str) → users st s.active ≤ 1

contains-append :
    (xs ys : List Str) (st : Str) → contains (xs ++ ys) st ≡ (contains xs st || contains ys st)
unfolding contains
contains-append [] ys st = refl
contains-append (x ∷ xs) ys st = ground (arith, contains-append xs ys st)

-- A store that no active job lists is used by none.
unused : (js : List Job) (st : Str) → contains (active_stores js) st ≡ false → users st js ≡ 0
unfolding active_stores count_if
unused [] st h = refl
unused (j ∷ js) st h = ground (arith, unused js st, contains-append j.stores (active_stores js) st)

disjoint :
    (xs ys : List Str) (st : Str)
    → intersects xs ys ≡ false
    → contains xs st ≡ true
    → contains ys st ≡ false
unfolding intersects contains
disjoint [] ys st h k = ground arith
disjoint (x ∷ xs) ys st h k = elim (Bool-cases (str_eq x st)) [
  | inl e ↦ subst (λ z. contains ys z ≡ false) (str_eq_sound x st e) (ground arith)
  | inr e ↦ disjoint xs ys st (ground arith) (ground arith)
]

-- A job that may run: it does not read under a foreground intent, and no active job has its stores.
pub record IsAllowed (s : State) (j : Job) : Type 0 where
  pub no_intent : j.readonly ≡ true → intersects j.stores (intent_stores s.intents) ≡ false
  pub free : (st : Str) → contains j.stores st ≡ true → users st s.active ≡ 0

runnable-IsAllowed : (s : State) (j : Job) → runnable s j ≡ true → IsAllowed s j
unfolding runnable
runnable-IsAllowed s j h = record {
  no_intent = λ r. ground arith;
  free = λ st c. unused s.active st (disjoint j.stores _ st (ground arith) c);
}

-- What `take` returns may run.
take_from_lane-IsAllowed :
    (s : State) (c : Class) (j : Job) (l : Lane)
    → take_from_lane (runnable s) (lane c s) ≡ some (j, l)
    → IsAllowed s j
take_from_lane-IsAllowed s c j l h =
    runnable-IsAllowed s j (take_from_lane-IsTaken (runnable s) (lane c s) j l h).passes

-- The job that `take` returns does not read stores of a foreground intent, and no active job has a
-- store of it.
pub take-IsAllowed : (s : State) (j : Job) (t : State) → take s ≡ some (j, t) → IsAllowed s j
take-IsAllowed s j t h = elim (take-TakesFrom s j t h) [
  | from c preferred l e _ ↦ take_from_lane-IsAllowed s c j l e
]

start-users :
    (s : State) (j : Job) (t : State) → TakesFrom s j t → (start j t).active ≡ s.active ++ j ∷ []
unfolding start
start-users s j t (from c preferred l h e) =
    subst (λ u. u.active ++ j ∷ [] ≡ s.active ++ j ∷ []) e
      (ap (λ js. js ++ j ∷ []) (set_lane-rest c l s).0)

exclusive-snoc :
    (js : List Job) (j : Job) (st : Str)
    → users st js ≤ 1
    → (contains j.stores st ≡ true → users st js ≡ 0)
    → users st (js ++ j ∷ []) ≤ 1
unfolding count_if
exclusive-snoc js j st v free =
    ground (arith, count_if-append (λ (i : Job). contains i.stores st) js (j ∷ []))

start-IsExclusive :
    (s : State) (j : Job) (t : State)
    → IsExclusive s
    → take s ≡ some (j, t)
    → IsExclusive (start j t)
start-IsExclusive s j t v h st =
    rw (start-users s j t (take-TakesFrom s j t h))
      (exclusive-snoc s.active j st (v st) ((take-IsAllowed s j t h).free st))

pub pump-IsExclusive : (s : State) → IsExclusive s → IsExclusive (pump s)
pump-IsExclusive = pump-induction IsExclusive start-IsExclusive

users-without_active :
    (k : ℕ) (js : List Job) (st : Str) → users st (without_active k js) ≤ users st js
unfolding without_active count_if
users-without_active k [] st = omega arith
users-without_active k (j ∷ js) st = ground (arith, users-without_active k js st)

pub complete-IsExclusive : (k : ℕ) (s : State) → IsExclusive s → IsExclusive (complete k s)
unfolding complete
complete-IsExclusive k s v =
    if_cases IsExclusive (is_active k s.active) _ _
      (λ h. pump-IsExclusive _ (λ st. omega (arith, v st, users-without_active k s.active st)))
      (λ h. v)

set_lane-IsExclusive :
    (c : Class) (l : Lane) (s : State) → IsExclusive s → IsExclusive (set_lane c l s)
set_lane-IsExclusive c l s v =
    subst (λ js. (st : Str) → users st js ≤ 1) (sym (set_lane-rest c l s).0) v

pub remove-IsExclusive : (j : Job) (s : State) → IsExclusive s → IsExclusive (remove j s)
unfolding remove
remove-IsExclusive j s v =
    if_cases IsExclusive (occurrences j.id (queue_of j.consumer (lane j.class s).consumers) == 0) _
      _ (λ h. v) (λ h. set_lane-IsExclusive j.class _ s v)

pub run-IsExclusive :
    (stores : List Str) (c : Class) (readonly : Bool) (consumer : Str) (preemptible : Bool)
    (s : State)
    → IsExclusive s
    → IsExclusive (run stores c readonly consumer preemptible s)
unfolding run
run-IsExclusive stores c readonly consumer preemptible s v =
    pump-IsExclusive _ (set_lane-IsExclusive c _ s v)

pub add_foreground_intent-IsExclusive :
    (intent : Intent) (s : State) → IsExclusive s → IsExclusive (add_foreground_intent intent s)
unfolding add_foreground_intent
add_foreground_intent-IsExclusive intent s v = v

pub release_foreground_intent-IsExclusive :
    (k : ℕ) (s : State) → IsExclusive s → IsExclusive (release_foreground_intent k s)
unfolding release_foreground_intent
release_foreground_intent-IsExclusive k s v =
    if_cases IsExclusive (length (without_intent k s.intents) == length s.intents) _ _ (λ h. v)
      (λ h. pump-IsExclusive _ v)

pub cancel_accesses-IsExclusive : (s : State) → IsExclusive s → IsExclusive (cancel_accesses s)
unfolding cancel_accesses
cancel_accesses-IsExclusive s v = v
