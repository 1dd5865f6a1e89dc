-- ===== src/Relay/Receive/Queue.antt =====
-- bridge-receive-queue.js and receive-priority.js: the state of a receiver, and the candidates of its queue.
use billion.Common.{
  ℕ, zero, suc, ◌+◌, ◌-◌, min, max, Bool, true, false, ◌&&◌, ◌||◌, not, Option, none, some, List,
  [], ◌∷◌, ltb, leb, ◌==◌, if◌then◌else◌, length,
}
use billion.Common.Text.{Str, str_eq}
use billion.Common.Decimal.{decimal}

pub record Limits : Type 0 where
  pub queue_frames : ℕ
  pub queue_bytes : ℕ
  pub credit_frames : ℕ
  pub credit_bytes : ℕ

-- A retry: the size of the frame without the value, and the time of the retry.
pub record Retry : Type 0 where
  pub rest : ℕ
  pub retry_at : ℕ

-- The priorities 0, 1 and 2.
pub data Priority : Type 0 where
  priority_0 priority_1 priority_2 : Priority

pub record Item : Type 0 where
  pub original : ℕ
  pub retry : Option Retry
  pub size : ℕ
  pub priority : Priority
  pub stream : Option Str
  pub scheduling : Bool

pub record Sent : Type 0 where
  pub size : ℕ
  pub through : ℕ

unfoldable pub is_priority : ℕ → Priority → Bool
is_priority n priority_0 = n == 0
is_priority n priority_1 = n == 1
is_priority n priority_2 = n == 2

pub data Closing : Type 0 where
  frame_too_large queue_overflow invalid_credit : Closing

-- `dispatched` records the items of the calls of `onFrame`, `closing` the call of `onClose`.
pub record State : Type 0 where
  pub queue : List Item
  pub pending : List Sent
  pub queued_bytes : ℕ
  pub pending_bytes : ℕ
  pub sequence : ℕ
  pub priority_streak : ℕ
  pub control_streak : ℕ
  pub closed : Bool
  pub dispatched : List Item
  pub closing : Option Closing

unfoldable pub init : State
init = record {
  queue = [];
  pending = [];
  queued_bytes = 0;
  pending_bytes = 0;
  sequence = 0;
  priority_streak = 0;
  control_streak = 0;
  closed = false;
  dispatched = [];
  closing = none;
}

abbrev pub max_retry_after_ms : ℕ
max_retry_after_ms = 300000

-- `retryAfterValue`
unfoldable pub retry_after_value : ℕ → ℕ → Str
retry_after_value retry_at now = decimal (min max_retry_after_ms (max 1 (retry_at - now)))

-- The size of what `rewriteRetryFrame` makes of a frame.
unfoldable pub rewritten_size : ℕ → Option Retry → ℕ → ℕ
unfolding retry_after_value
rewritten_size original none now = original
rewritten_size original (some r) now = r.rest + length (retry_after_value r.retry_at now)

-- The size that `push` counts: no less than that of `maxRetryFrame`.
unfoldable pub counted_size : ℕ → Option Retry → ℕ
counted_size original none = original
counted_size original (some r) = max original (r.rest + length (decimal max_retry_after_ms))

unfoldable pub close : State → State
close s =
    if s.closed
    then s
    else record s { closed = true; queue = []; pending = []; queued_bytes = 0; pending_bytes = 0 }

unfoldable pub fail : Closing → State → State
unfolding close
fail reason s = if s.closed then s else record (close s) { closing = some reason }

-- An item of the queue, with its place.
abbrev pub Place : Type 0
Place = ℕ × Item

pub record Candidates : Type 0 where
  pub high : Option Place
  pub control : Option Place
  pub normal : Option Place

unfoldable pub is_some {ℓ} : {A : Type ℓ} → Option A → Bool
is_some none = false
is_some (some a) = true

unfoldable pub is_empty {ℓ} : {A : Type ℓ} → List A → Bool
is_empty [] = true
is_empty (x ∷ xs) = false

unfoldable pub is_in : Str → List Str → Bool
is_in stream [] = false
is_in stream (other ∷ streams) = str_eq other stream || is_in stream streams

unfoldable pub is_blocked : List Str → Option Str → Bool
unfolding is_in
is_blocked streams none = false
is_blocked streams (some stream) = is_in stream streams

unfoldable pub add_stream : Option Str → List Str → List Str
add_stream none streams = streams
add_stream (some stream) streams = stream ∷ streams

-- What one item is to the candidates.
unfoldable pub observe : Place → Bool → Bool → Candidates → Candidates
unfolding is_some is_priority
observe p blocked normal_seen c = record {
  high =
      if is_priority 2 p.1.priority && not (is_some c.high) && not blocked then some p else c.high;
  control =
      if is_priority 1 p.1.priority && not (is_some c.control) && not blocked
      then some p
      else c.control;
  normal =
      if is_priority 0 p.1.priority && not normal_seen && not blocked then some p else c.normal;
}

-- The loop of `receiveCandidates`.
unfoldable pub candidates_from : ℕ → List Str → Bool → Candidates → List Item → Candidates
unfolding observe is_blocked add_stream is_priority
candidates_from index streams normal_seen c [] = c
candidates_from index streams normal_seen c (item ∷ items) =
    candidates_from (index + 1) (add_stream item.stream streams)
      (normal_seen || is_priority 0 item.priority)
      (observe (index, item) (is_blocked streams item.stream) normal_seen c) items

abbrev pub no_candidates : Candidates
no_candidates = record { high = none; control = none; normal = none }

unfoldable pub receive_candidates : List Item → Candidates
unfolding candidates_from
receive_candidates queue = candidates_from 0 [] false no_candidates queue

unfoldable pub same_place : Option Place → Option Place → Bool
same_place none none = true
same_place none (some q) = false
same_place (some p) none = false
same_place (some p) (some q) = p.0 == q.0

unfoldable pub remove_at : ℕ → List Item → List Item
remove_at index [] = []
remove_at zero (x ∷ xs) = xs
remove_at (suc index) (x ∷ xs) = x ∷ remove_at index xs

unfoldable pub take {ℓ} : {A : Type ℓ} → ℕ → List A → List A
take zero xs = []
take (suc n) [] = []
take (suc n) (x ∷ xs) = x ∷ take n xs

unfoldable pub drop {ℓ} : {A : Type ℓ} → ℕ → List A → List A
drop zero xs = xs
drop (suc n) [] = []
drop (suc n) (x ∷ xs) = drop n xs

unfoldable pub sent_bytes : List Sent → ℕ
sent_bytes [] = 0
sent_bytes (p ∷ ps) = p.size + sent_bytes ps

-- Three high items for each lower one, and two controls for each normal one among the lower.
unfoldable pub lower_of : State → Candidates → Option Place
unfolding is_some
lower_of s c =
    if is_some c.control && (not (is_some c.normal) || ltb s.control_streak 2)
    then c.control
    else c.normal

unfoldable pub preferred_of : State → Candidates → Option Place
unfolding is_some lower_of
preferred_of s c =
    if is_some c.high && (ltb s.priority_streak 3 || not (is_some (lower_of s c)))
    then c.high
    else lower_of s c

unfoldable pub through_of : ℕ → List Sent → Option ℕ
through_of n [] = none
through_of zero (p ∷ ps) = some p.through
through_of (suc n) (p ∷ ps) = through_of n ps

unfoldable pub same_through : Option ℕ → Option ℕ → Bool
same_through none found = true
same_through (some t) none = false
same_through (some t) (some u) = t == u

-- Is the credit what the first pending frames took?
unfoldable pub is_valid_credit : ℕ → ℕ → Option ℕ → List Sent → Bool
unfolding take sent_bytes through_of same_through
is_valid_credit frames bytes through pending =
    ltb 0 frames
    && leb frames (length pending)
    && bytes == sent_bytes (take frames pending)
    && same_through through (through_of (frames - 1) pending)
