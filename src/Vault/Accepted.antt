-- ===== src/Vault/Accepted.antt =====
-- src/helpers/window-message/browser/vault-accepted-message-queue.js: messages that wait in the local
-- storage until the vault accepts them. A stored item is the list of its fields: a text that is missing,
-- or of another type, is the empty one, and a time that is missing, or no positive integer, is 0. The
-- storage holds the items; that `JSON.parse` reads what `JSON.stringify` wrote is taken for granted.
pub mod Pruning
pub mod Flushing
mod Tests
use billion.Common.{
  ℕ, suc, ◌+◌, ◌-◌, ◌*◌, Bool, true, false, ◌&&◌, ◌||◌, not, Option, none, some, List, [], ◌∷◌,
  ◌++◌, ltb, leb, ◌==◌, if◌then◌else◌, length,
}
use billion.Common.Text.{Str, codes, str_eq, is_nonempty}
use billion.Common.Sorting.{sort}

pub record Item : Type 0 where
  pub code : Str
  pub owner_pubkey : Str
  pub app_id : Str
  pub created_at : ℕ
  pub last_attempt_at : ℕ

abbrev pub backfill : Str
backfill = codes "NOSTRDB_APP_BACKFILL"

abbrev pub max_items : ℕ
max_items = 100

abbrev pub six_months_ms : ℕ
six_months_ms = 183 * 24 * 60 * 60 * 1000

abbrev pub retry_throttle_ms : ℕ
retry_throttle_ms = 30 * 1000

abbrev pub app_id_max_length : ℕ
app_id_max_length = 512

-- `toLowerCase`, for the units that pass the test of hexadecimal digits.
lower : Str → Str
lower [] = []
lower (c ∷ cs) = (if leb b'A' c && leb c b'Z' then c + 32 else c) ∷ lower cs

is_hex : Str → Bool
is_hex [] = true
is_hex (c ∷ cs) = ((leb b'0' c && leb c b'9') || (leb b'a' c && leb c b'f')) && is_hex cs

-- `normalizePayload`, for a payload that is an object.
pub is_valid_payload : Str → Str → Bool
unfolding is_hex
is_valid_payload owner app_id =
    length owner == 64
    && is_hex owner
    && is_nonempty app_id
    && leb (length app_id) app_id_max_length

pub normalize_timestamp : ℕ → ℕ → ℕ
normalize_timestamp value fallback = if ltb 0 value then value else fallback

-- `normalizeItem`; the clock is `nowMs()` when it runs.
pub normalize_item : ℕ → Item → Option Item
unfolding lower
normalize_item clock item =
    if str_eq item.code backfill && is_valid_payload (lower item.owner_pubkey) item.app_id
    then some (record item {
      owner_pubkey = lower item.owner_pubkey;
      created_at = normalize_timestamp item.created_at clock;
      last_attempt_at = normalize_timestamp item.last_attempt_at 0;
    })
    else none

-- `itemKey`; the key of an item of another code is empty.
pub item_key : Item → Str
item_key item =
    if str_eq item.code backfill
    then item.code ++ (b':' ∷ (item.owner_pubkey ++ (b':' ∷ item.app_id)))
    else []

keep_some : Option Item → List Item → List Item
keep_some none rest = rest
keep_some (some item) rest = item ∷ rest

-- `items.map(normalizeItem).filter(Boolean)`: what `readStoredQueue` reads, and `writeQueue` writes.
pub normalize_all : ℕ → List Item → List Item
unfolding keep_some
normalize_all clock [] = []
normalize_all clock (item ∷ rest) = keep_some (normalize_item clock item) (normalize_all clock rest)

-- An item comes to `deduped`: the older one of a key stays, in the place of the first.
pub keep_older : Item → List Item → List Item
keep_older item [] = item ∷ []
keep_older item (q ∷ qs) =
    if str_eq (item_key q) (item_key item)
    then (if ltb item.created_at q.created_at then item ∷ qs else q ∷ qs)
    else q ∷ keep_older item qs

pub is_kept : ℕ → Item → Bool
is_kept now item = not (ltb six_months_ms (now - item.created_at)) && is_nonempty (item_key item)

pub dedupe_from : ℕ → List Item → List Item → List Item
unfolding keep_older is_kept
dedupe_from now deduped [] = deduped
dedupe_from now deduped (item ∷ rest) =
    dedupe_from now (if is_kept now item then keep_older item deduped else deduped) rest

abbrev pub is_no_later : Item → Item → Bool
is_no_later a b = leb a.created_at b.created_at

pub drop : ℕ → List Item → List Item
drop ℕ.zero xs = xs
drop (suc n) [] = []
drop (suc n) (x ∷ xs) = drop n xs

-- `slice(-MAX_ITEMS)`
pub last_items : List Item → List Item
unfolding drop
last_items items = drop (length items - max_items) items

-- `pruneQueue`
pub prune_queue : ℕ → List Item → List Item
unfolding dedupe_from last_items
prune_queue now items = last_items (sort is_no_later (dedupe_from now [] items))

-- `readQueue`: the queue, which is written back, too.
pub read_queue : ℕ → ℕ → List Item → List Item
read_queue clock now storage = prune_queue now (normalize_all clock storage)

-- `queue.some(existing => itemKey(existing) === key)`
pub has_key : Str → List Item → Bool
has_key key [] = false
has_key key (q ∷ qs) = str_eq (item_key q) key || has_key key qs

pub without_key : Str → List Item → List Item
without_key key [] = []
without_key key (q ∷ qs) =
    let rest = without_key key qs in if str_eq (item_key q) key then rest else q ∷ rest

pub enqueue_normalized : ℕ → ℕ → Item → List Item → List Item
enqueue_normalized clock now item storage =
    let queue = read_queue clock now storage in
    if has_key (item_key item) queue
    then normalize_all clock queue
    else normalize_all clock (prune_queue now (queue ++ item ∷ []))

-- `enqueueVaultAcceptedMessage`: whether the message is valid, and the storage.
pub enqueue : ℕ → ℕ → Item → List Item → Bool × List Item
enqueue clock now message storage =
    elim (normalize_item clock (record message { created_at = now; last_attempt_at = 0 })) [
      | none ↦ (false, storage)
      | some item ↦ (true, enqueue_normalized clock now item storage)
    ]

remove_normalized : ℕ → ℕ → Item → List Item → Bool × List Item
remove_normalized clock now item storage =
    let queue = read_queue clock now storage in
    let next = without_key (item_key item) queue in
    if length next == length queue
    then (false, normalize_all clock queue)
    else (true, normalize_all clock (prune_queue now next))

-- `removeVaultAcceptedMessage`
pub remove : ℕ → ℕ → Item → List Item → Bool × List Item
unfolding remove_normalized
remove clock now message storage =
    elim (normalize_item clock (record message { created_at = now; last_attempt_at = 0 })) [
      | none ↦ (false, storage)
      | some item ↦ remove_normalized clock now item storage
    ]

pub find_key : Str → List Item → Option Item
find_key key [] = none
find_key key (q ∷ qs) = if str_eq (item_key q) key then some q else find_key key qs

-- `current.lastAttemptAt = currentNow`, in the queue.
pub attempted : Str → ℕ → List Item → List Item
attempted key now [] = []
attempted key now (q ∷ qs) =
    if str_eq (item_key q) key
    then record q { last_attempt_at = now } ∷ qs
    else q ∷ attempted key now qs

-- What happens while the vault is asked: the time goes on, other contexts change the storage, and the
-- answer says whether it holds a Boolean `accepted`.
pub record World : Type 0 where
  pub answer : Item → Bool
  pub meanwhile : Item → List Item → List Item
  pub before : ℕ → ℕ
  pub after : ℕ → ℕ

-- Is the last attempt too recent?
pub is_throttled : ℕ → Item → Bool
is_throttled now item =
    ltb 0 item.last_attempt_at && ltb (now - item.last_attempt_at) retry_throttle_ms

module _ (world : World) where
  open world use {answer, meanwhile, before, after}

  -- The end of a turn, once the answer is there.
  settle : ℕ → Item → List Item → Bool × List Item
  settle round current storage =
      if answer current
      then (
        true,
        normalize_all (after round) (
            prune_queue (after round)
              (without_key (item_key current) (normalize_all (after round) storage))),
      )
      else (false, storage)

  ask_for : ℕ → List Item → Option Item → Bool × List Item
  unfolding settle
  ask_for round queue none = (false, normalize_all (before round) queue)
  ask_for round queue (some current) =
      if is_throttled (before round) current
      then (false, normalize_all (before round) queue)
      else settle round current (
          meanwhile current
            (normalize_all (before round) (attempted (item_key current) (before round) queue)))

  -- One item of the loop of `flushVaultAcceptedMessageQueue`: whether it was flushed, and the storage.
  pub flush_one : ℕ → Item → List Item → Bool × List Item
  unfolding ask_for
  flush_one round item storage =
      let queue = read_queue (before round) (before round) storage in
      ask_for round queue (find_key (item_key item) queue)

  pub flush_items : ℕ → List Item → List Item → Bool × List Item
  flush_items round [] storage = (false, storage)
  flush_items round (item ∷ rest) storage =
      let one = flush_one round item storage in
      let more = flush_items (suc round) rest one.1 in (one.0 || more.0, more.1)

  -- `flushVaultAcceptedMessageQueue`, with a port and no flush at work.
  pub flush : List Item → Bool × List Item
  flush storage =
      let queue = read_queue (before 0) (before 0) storage in
      flush_items 1 queue (normalize_all (before 0) queue)
