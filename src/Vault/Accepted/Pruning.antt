-- ===== src/Vault/Accepted/Pruning.antt =====
-- vault-accepted-message-queue.js: what `pruneQueue` makes of any items.
use mathlib.Core.Path.{subst}
use billion.Common.{
  ℕ, zero, suc, ◌-◌, ◌≤◌, ◌≡◌, refl, ap, ◌∙◌, true, false, ◌||◌, List, [], ◌∷◌, arith, ltb,
  if◌then◌else◌, if_cases, length, All,
}
use billion.Common.Text.{Str, str_eq, str_eq_sound, str_eq_comm}
use billion.Common.Sorting.{sort, insert, Sorted, sort-Sorted, All-sort}
use billion.Vault.Accepted.{
  Item, item_key, keep_older, is_kept, dedupe_from, is_no_later, drop, last_items, prune_queue,
  has_key, max_items,
}

-- Different items have different keys.
pub Distinct : List Item → Type 0
Distinct [] = Unit
Distinct (q ∷ qs) = (has_key (item_key q) qs ≡ false) × Distinct qs

abbrev pub AreKept : ℕ → List Item → Type 0
AreKept now = All (λ q. is_kept now q ≡ true)

-- At most a hundred items, each of a known code and no older than half a year, no two with one key, the
-- oldest first.
pub record IsPruned (now : ℕ) (items : List Item) : Type 0 where
  pub bounded : length items ≤ max_items
  pub ordered : Sorted is_no_later items
  pub distinct : Distinct items
  pub kept : AreKept now items

has_key-keep_older :
    (key : Str) (item : Item) (qs : List Item)
    → has_key key (keep_older item qs) ≡ (has_key key qs || str_eq (item_key item) key)
unfolding has_key keep_older
has_key-keep_older key item [] = ground arith
has_key-keep_older key item (q ∷ qs) =
    if_cases
      (λ l.
        has_key key l ≡ ((str_eq (item_key q) key || has_key key qs) || str_eq (item_key item) key))
      (str_eq (item_key q) (item_key item)) _ _
      (λ e.
        if_cases
          (λ l.
            has_key key l
            ≡ ((str_eq (item_key q) key || has_key key qs) || str_eq (item_key item) key))
          (ltb item.created_at q.created_at) _ _
          (λ f.
            ground (arith, ap (λ k. str_eq k key) (str_eq_sound (item_key q) (item_key item) e)))
          (λ f.
            ground (arith, ap (λ k. str_eq k key) (str_eq_sound (item_key q) (item_key item) e))))
      (λ e. ground (arith, has_key-keep_older key item qs))

Distinct-keep_older : (item : Item) (qs : List Item) → Distinct qs → Distinct (keep_older item qs)
unfolding Distinct keep_older has_key
Distinct-keep_older item [] d = (refl, tt)
Distinct-keep_older item (q ∷ qs) d =
    if_cases Distinct (str_eq (item_key q) (item_key item)) _ _
      (λ e.
        if_cases Distinct (ltb item.created_at q.created_at) _ _
          (λ f. (
            subst (λ k. has_key k qs ≡ false) (str_eq_sound (item_key q) (item_key item) e) d.0,
            d.1,
          ))
          (λ f. d))
      (λ e. (
        ground (
          arith,
          has_key-keep_older (item_key q) item qs,
          d.0,
          str_eq_comm (item_key q) (item_key item),
        ),
        Distinct-keep_older item qs d.1,
      ))

module _ (P : Item → Type 0) where
  keep_older-All : (item : Item) (qs : List Item) → P item → All P qs → All P (keep_older item qs)
  unfolding keep_older
  keep_older-All item [] h v = (h, tt)
  keep_older-All item (q ∷ qs) h v =
      if_cases (All P) (str_eq (item_key q) (item_key item)) _ _
        (λ e. if_cases (All P) (ltb item.created_at q.created_at) _ _ (λ f. (h, v.1)) (λ f. v))
        (λ e. (v.0, keep_older-All item qs h v.1))

  dedupe_from-All :
      (now : ℕ) (deduped items : List Item)
      → All P deduped
      → All P items
      → All P (dedupe_from now deduped items)
  unfolding dedupe_from
  dedupe_from-All now deduped [] v w = v
  dedupe_from-All now deduped (item ∷ rest) v w =
      dedupe_from-All now (if is_kept now item then keep_older item deduped else deduped) rest
        (if_cases (All P) (is_kept now item) _ _ (λ e. keep_older-All item deduped w.0 v) (λ e. v))
        w.1

  drop-All : (n : ℕ) (qs : List Item) → All P qs → All P (drop n qs)
  unfolding drop
  drop-All zero qs v = v
  drop-All (suc n) [] v = v
  drop-All (suc n) (q ∷ qs) v = drop-All n qs v.1

  -- `pruneQueue` brings in no item.
  pub prune_queue-All : (now : ℕ) (items : List Item) → All P items → All P (prune_queue now items)
  unfolding prune_queue last_items
  prune_queue-All now items v =
      drop-All _ (sort is_no_later (dedupe_from now [] items))
        (All-sort is_no_later P (dedupe_from now [] items) (dedupe_from-All now [] items tt v))

dedupe_from-lem :
    (now : ℕ) (deduped items : List Item)
    → Distinct deduped × AreKept now deduped
    → Distinct (dedupe_from now deduped items) × AreKept now (dedupe_from now deduped items)
unfolding dedupe_from
dedupe_from-lem now deduped [] v = v
dedupe_from-lem now deduped (item ∷ rest) v =
    dedupe_from-lem now (if is_kept now item then keep_older item deduped else deduped) rest (
      if_cases (λ l. Distinct l × AreKept now l) (is_kept now item) _ _
        (λ e. (
          Distinct-keep_older item deduped v.0,
          keep_older-All (λ q. is_kept now q ≡ true) item deduped e v.1,
        ))
        (λ e. v))

has_key-insert :
    (key : Str) (item : Item) (qs : List Item)
    → has_key key (insert is_no_later item qs) ≡ (str_eq (item_key item) key || has_key key qs)
unfolding has_key insert
has_key-insert key item [] = refl
has_key-insert key item (q ∷ qs) =
    if_cases
      (λ l.
        has_key key l ≡ (str_eq (item_key item) key || (str_eq (item_key q) key || has_key key qs)))
      (is_no_later item q) _ _ (λ e. refl) (λ e. ground (arith, has_key-insert key item qs))

pub has_key-sort : (key : Str) (qs : List Item) → has_key key (sort is_no_later qs) ≡ has_key key qs
unfolding has_key sort
has_key-sort key [] = refl
has_key-sort key (q ∷ qs) =
    has_key-insert key q (sort is_no_later qs)
    ∙ ap (λ b. str_eq (item_key q) key || b) (has_key-sort key qs)

Distinct-insert :
    (item : Item) (qs : List Item)
    → has_key (item_key item) qs ≡ false
    → Distinct qs
    → Distinct (insert is_no_later item qs)
unfolding Distinct insert has_key
Distinct-insert item [] h d = (refl, tt)
Distinct-insert item (q ∷ qs) h d =
    if_cases Distinct (is_no_later item q) _ _ (λ e. (h, d))
      (λ e. (
        ground (
          arith,
          has_key-insert (item_key q) item qs,
          d.0,
          str_eq_comm (item_key q) (item_key item),
        ),
        Distinct-insert item qs (ground arith) d.1,
      ))

Distinct-sort : (qs : List Item) → Distinct qs → Distinct (sort is_no_later qs)
unfolding Distinct sort
Distinct-sort [] d = tt
Distinct-sort (q ∷ qs) d =
    Distinct-insert q (sort is_no_later qs) (has_key-sort (item_key q) qs ∙ d.0)
      (Distinct-sort qs d.1)

-- What holds of every end part of a list that it holds of.
abbrev IsGood : ℕ → List Item → Type 0
IsGood now qs = Sorted is_no_later qs × Distinct qs × AreKept now qs

IsGood-tail : (now : ℕ) (q : Item) (qs : List Item) → IsGood now (q ∷ qs) → IsGood now qs
unfolding Distinct
IsGood-tail now q [] v = (tt, tt, tt)
IsGood-tail now q (r ∷ qs) v = (v.0.1, v.1.1, v.2.1)

IsGood-drop : (now n : ℕ) (qs : List Item) → IsGood now qs → IsGood now (drop n qs)
unfolding drop
IsGood-drop now zero qs v = v
IsGood-drop now (suc n) [] v = v
IsGood-drop now (suc n) (q ∷ qs) v = IsGood-drop now n qs (IsGood-tail now q qs v)

length-drop : (n : ℕ) (qs : List Item) → length (drop n qs) ≡ length qs - n
unfolding drop
length-drop zero qs = omega arith
length-drop (suc n) [] = omega arith
length-drop (suc n) (q ∷ qs) = omega (arith, length-drop n qs)

total : (a b : Item) → is_no_later a b ≡ false → is_no_later b a ≡ true
total a b h = ground arith

-- Whatever the items are, `pruneQueue` leaves at most a hundred of them, each of a known code and no
-- older than half a year, no two with one key, the oldest first.
pub prune_queue-IsPruned : (now : ℕ) (items : List Item) → IsPruned now (prune_queue now items)
unfolding prune_queue last_items Distinct
prune_queue-IsPruned now items =
    let deduped : List Item = dedupe_from now [] items in
    let facts = dedupe_from-lem now [] items (tt, tt) in
    let sorted : List Item = sort is_no_later deduped in
    let good : IsGood now sorted = (
      sort-Sorted is_no_later total deduped,
      Distinct-sort deduped facts.0,
      All-sort is_no_later (λ q. is_kept now q ≡ true) deduped facts.1,
    ) in
    let (ordered, distinct, kept) = IsGood-drop now (length sorted - max_items) sorted good in
    record {
      bounded = omega (arith, length-drop (length sorted - max_items) sorted);
      ordered = ordered;
      distinct = distinct;
      kept = kept;
    }

has_key-drop :
    (key : Str) (n : ℕ) (qs : List Item) → has_key key qs ≡ false → has_key key (drop n qs) ≡ false
unfolding has_key drop
has_key-drop key zero qs h = h
has_key-drop key (suc n) [] h = h
has_key-drop key (suc n) (q ∷ qs) h = has_key-drop key n qs (ground arith)

has_key-dedupe_from :
    (key : Str) (now : ℕ) (deduped items : List Item)
    → has_key key deduped ≡ false
    → has_key key items ≡ false
    → has_key key (dedupe_from now deduped items) ≡ false
unfolding has_key dedupe_from
has_key-dedupe_from key now deduped [] h k = h
has_key-dedupe_from key now deduped (item ∷ rest) h k =
    has_key-dedupe_from key now (if is_kept now item then keep_older item deduped else deduped) rest
      (if_cases (λ l. has_key key l ≡ false) (is_kept now item) _ _
        (λ e. ground (arith, has_key-keep_older key item deduped, h)) (λ e. h))
      (ground arith)

-- `pruneQueue` brings in no key.
pub has_key-prune_queue :
    (key : Str) (now : ℕ) (items : List Item)
    → has_key key items ≡ false
    → has_key key (prune_queue now items) ≡ false
unfolding prune_queue last_items has_key
has_key-prune_queue key now items h =
    has_key-drop key _ (sort is_no_later (dedupe_from now [] items))
      (has_key-sort key (dedupe_from now [] items) ∙ has_key-dedupe_from key now [] items refl h)
