-- ===== src/Vault/Accepted/Flushing.antt =====
-- vault-accepted-message-queue.js: a message that the vault answered leaves the storage.
use mathlib.Core.Path.{subst}
use billion.Common.{
  ℕ, ◌≡◌, refl, ap, inl, inr, Bool, true, false, ◌&&◌, Option, none, some, List, [], ◌∷◌, arith,
  if_cases, Bool-cases, All,
}
use billion.Common.Text.{Str, str_eq, str_eq_sound}
use billion.Vault.Accepted.{
  Item, World, backfill, lower, is_valid_payload, normalize_item, normalize_timestamp,
  normalize_all, keep_some, item_key, has_key, without_key, prune_queue, find_key, settle, ask_for,
  flush_one, attempted, read_queue, is_throttled,
}
use billion.Vault.Accepted.Pruning.{has_key-prune_queue, prune_queue-All}

-- The owner's key is in lower case, as `normalizePayload` leaves it.
abbrev IsLower : Item → Type 0
IsLower q = lower q.owner_pubkey ≡ q.owner_pubkey

lower-lower : (cs : Str) → lower (lower cs) ≡ lower cs
unfolding lower
lower-lower [] = refl
lower-lower (c ∷ cs) = ground (arith, lower-lower cs)

normalize_all-IsLower : (clock : ℕ) (items : List Item) → All IsLower (normalize_all clock items)
unfolding normalize_all normalize_item keep_some
normalize_all-IsLower clock [] = tt
normalize_all-IsLower clock (item ∷ rest) =
    if_cases (λ o. All IsLower (keep_some o (normalize_all clock rest)))
      (str_eq item.code backfill && is_valid_payload (lower item.owner_pubkey) item.app_id) _ _
      (λ e. (lower-lower item.owner_pubkey, normalize_all-IsLower clock rest))
      (λ e. normalize_all-IsLower clock rest)

-- Normalizing an item again leaves its key.
item_key-same :
    (q : Item) (owner : Str) (created attempt : ℕ)
    → owner ≡ q.owner_pubkey
    → item_key (record q { owner_pubkey = owner; created_at = created; last_attempt_at = attempt })
      ≡ item_key q
unfolding item_key
item_key-same q owner created attempt e = rw e refl

has_key-normalize_all :
    (key : Str) (clock : ℕ) (items : List Item)
    → All IsLower items
    → has_key key items ≡ false
    → has_key key (normalize_all clock items) ≡ false
unfolding has_key normalize_all normalize_item keep_some
has_key-normalize_all key clock [] v h = refl
has_key-normalize_all key clock (q ∷ qs) v h =
    if_cases (λ o. has_key key (keep_some o (normalize_all clock qs)) ≡ false)
      (str_eq q.code backfill && is_valid_payload (lower q.owner_pubkey) q.app_id) _ _
      (λ e. ground (
        arith,
        has_key-normalize_all key clock qs v.1,
        ap (λ k. str_eq k key)
            (item_key-same q (lower q.owner_pubkey) (normalize_timestamp q.created_at clock)
              (normalize_timestamp q.last_attempt_at 0) v.0),
      ))
      (λ e. has_key-normalize_all key clock qs v.1 (ground arith))

has_key-without_key : (key : Str) (qs : List Item) → has_key key (without_key key qs) ≡ false
unfolding has_key without_key
has_key-without_key key [] = refl
has_key-without_key key (q ∷ qs) =
    if_cases (λ l. has_key key l ≡ false) (str_eq (item_key q) key) _ _
      (λ e. has_key-without_key key qs) (λ e. ground (arith, has_key-without_key key qs))

without_key-IsLower :
    (key : Str) (qs : List Item) → All IsLower qs → All IsLower (without_key key qs)
unfolding without_key
without_key-IsLower key [] v = tt
without_key-IsLower key (q ∷ qs) v =
    if_cases (All IsLower) (str_eq (item_key q) key) _ _ (λ e. without_key-IsLower key qs v.1)
      (λ e. (v.0, without_key-IsLower key qs v.1))

find_key-key : (key : Str) (qs : List Item) (q : Item) → find_key key qs ≡ some q → item_key q ≡ key
unfolding find_key
find_key-key key [] q h = ground arith
find_key-key key (r ∷ qs) q h = elim (Bool-cases (str_eq (item_key r) key)) [
  | inl e ↦
      let same : r ≡ q = ground arith in
      subst (λ p. item_key p ≡ key) same (str_eq_sound (item_key r) key e)
  | inr e ↦ find_key-key key qs q (ground arith)
]

module _ (world : World) where
  -- What a turn has to show: if it flushed, the key is gone.
  abbrev Removes : Str → Bool × List Item → Type 0
  Removes key r = r.0 ≡ true → has_key key r.1 ≡ false

  settle-Removes :
      (round : ℕ) (current : Item) (storage : List Item)
      → Removes (item_key current) (settle world round current storage)
  unfolding settle
  settle-Removes round current storage =
      if_cases (Removes (item_key current)) (world.answer current) _ _
        (λ e t.
          let clock = world.after round in
          let key = item_key current in
          let stored : List Item = normalize_all clock storage in
          let left : List Item = without_key key stored in
          has_key-normalize_all key clock (prune_queue clock left)
            (prune_queue-All IsLower clock left
              (without_key-IsLower key stored (normalize_all-IsLower clock storage)))
            (has_key-prune_queue key clock left (has_key-without_key key stored)))
        (λ e t. ground arith)

  ask_for-Removes :
      (round : ℕ) (key : Str) (queue : List Item) (o : Option Item)
      → ((q : Item) → o ≡ some q → item_key q ≡ key)
      → Removes key (ask_for world round queue o)
  unfolding ask_for
  ask_for-Removes round key queue none found = λ t. ground arith
  ask_for-Removes round key queue (some current) found =
      if_cases (Removes key) (is_throttled (world.before round) current) _ _ (λ e t. ground arith)
        (λ e.
          let storage : List Item = world.meanwhile current (
            normalize_all (world.before round)
              (attempted (item_key current) (world.before round) queue)) in
          subst (λ k. Removes k (settle world round current storage)) (found current refl)
            (settle-Removes round current storage))

  -- A turn of the flush that reports a message as flushed leaves no message of its key in the storage,
  -- whatever other contexts did to the storage while the vault was asked.
  pub flush_one-Removes :
      (round : ℕ) (item : Item) (storage : List Item)
      → (flush_one world round item storage).0 ≡ true
      → has_key (item_key item) (flush_one world round item storage).1 ≡ false
  unfolding flush_one
  flush_one-Removes round item storage =
      let queue : List Item = read_queue (world.before round) (world.before round) storage in
      ask_for-Removes round (item_key item) queue (find_key (item_key item) queue)
        (λ q e. find_key-key (item_key item) queue q e)
