-- ===== src/Relay/Receive.antt =====
-- src/services/relay-pool/bridge-receive-queue.js: `createBridgeReceiveQueue` holds the frames of a relay
-- until their consumer has credit; receiveCandidates is of receive-priority.js, and the retry of a frame of
-- retry-delivery.js. What createControlPriority finds of a frame (its priority and its stream), the time,
-- and whether the shared budgets close the receiver are arguments; the place of an item in the queue
-- stands for its identity. Of a frame its size is kept, and what a retry leaves of it.
pub mod Queue
pub mod Choice
pub mod Flushing
pub mod Stream
pub mod Order
pub mod Sizes
pub mod Credit
pub mod Waiting
mod Tests
use billion.Common.{
  ℕ, zero, suc, ◌+◌, ◌-◌, min, max, Bool, true, false, ◌&&◌, ◌||◌, not, Option, none, some, List,
  [], ◌∷◌, ◌++◌, ltb, leb, ◌==◌, if◌then◌else◌, length,
}
use billion.Common.Text.{Str, str_eq}
use billion.Common.Decimal.{decimal}
use billion.Relay.Receive.Queue.{
  Limits, Retry, Priority, Item, Sent, is_priority, Closing, State, init, max_retry_after_ms,
  retry_after_value, rewritten_size, counted_size, close, fail, Place, Candidates, is_some,
  is_empty, is_in, is_blocked, add_stream, observe, candidates_from, no_candidates,
  receive_candidates, same_place, remove_at, take, drop, sent_bytes, lower_of, preferred_of,
  through_of, same_through, is_valid_credit, priority_0, priority_1, priority_2, frame_too_large,
  queue_overflow, invalid_credit,
}

pub dispatch : ℕ → Place → State → State
unfolding remove_at rewritten_size is_priority
dispatch now p s =
    let item : Item = p.1 in
    let size : ℕ = rewritten_size item.original item.retry now in
    record s {
      queue = remove_at p.0 s.queue;
      priority_streak = if is_priority 2 item.priority then min 3 (s.priority_streak + 1) else 0;
      control_streak =
          if is_priority 2 item.priority
          then s.control_streak
          else if is_priority 1 item.priority
          then min 2 (s.control_streak + 1)
          else 0;
      queued_bytes = s.queued_bytes - item.size;
      sequence = s.sequence + 1;
      pending = s.pending ++ record { size = size; through = s.sequence + 1 } ∷ [];
      pending_bytes = s.pending_bytes + size;
      dispatched = s.dispatched ++ item ∷ [];
    }

pub enqueue : Item → State → State
enqueue item s = record s {
  queue = s.queue ++ item ∷ [];
  queued_bytes = s.queued_bytes + item.size;
}

pub data Event : Type 0 where
  pushes : Bool → ℕ → ℕ → Option Retry → Priority → Option Str → Bool → Event
  grants : ℕ → ℕ → ℕ → Option ℕ → Event
  closes : Event
  fails : Event

-- What `push` puts into the queue.
pub item_of : ℕ → Option Retry → Priority → Option Str → Bool → Item
unfolding counted_size
item_of original retry priority stream scheduling = record {
  original = original;
  retry = retry;
  size = counted_size original retry;
  priority = if leb (counted_size original retry) 16384 then priority else priority_0;
  stream = stream;
  scheduling = scheduling;
}

module _ (limits : Limits) where
  -- Whether the credit that is left takes an item.
  pub has_credit : State → Item → Bool
  has_credit s item =
      ltb (length s.pending) limits.credit_frames
      && leb (s.pending_bytes + item.size) limits.credit_bytes

  pub fits : State → Option Place → Bool
  unfolding has_credit is_empty
  fits s none = false
  fits s (some p) = is_empty s.pending || has_credit s p.1

  -- The credit that scheduling frames leave to others; the limits are positive.
  pub leaves_reserve : State → Item → Bool
  leaves_reserve s item =
      ltb (length s.pending) (limits.credit_frames - min 8 (limits.credit_frames - 1))
      && leb (s.pending_bytes + item.size)
          (limits.credit_bytes - min 65536 (limits.credit_bytes - 1))

  pub is_eligible : State → Bool → Item → Bool
  unfolding has_credit leaves_reserve is_empty is_priority
  is_eligible s reserved_turn item =
      if is_empty s.pending
      then true
      else if not (has_credit s item)
      then false
      else if not (is_priority 0 item.priority) || reserved_turn || not item.scheduling
      then true
      else leaves_reserve s item

  pub first_eligible : State → Bool → List (Option Place) → Option Place
  unfolding is_eligible
  first_eligible s reserved_turn [] = none
  first_eligible s reserved_turn (none ∷ ps) = first_eligible s reserved_turn ps
  first_eligible s reserved_turn (some p ∷ ps) =
      let rest : Option Place = first_eligible s reserved_turn ps in
      if is_eligible s reserved_turn p.1 then some p else rest

  -- The item that a round of `flush` selects.
  pub select : State → Candidates → Option Place
  unfolding fits first_eligible lower_of preferred_of same_place
  select s c =
      let lower : Option Place = lower_of s c in
      let preferred : Option Place = preferred_of s c in
      if same_place preferred c.normal && not (is_empty s.pending) && not (fits s c.normal)
      then none
      else first_eligible s (same_place preferred c.normal && (fits s c.high || fits s c.control))
          (preferred ∷ c.high ∷ lower ∷ c.control ∷ c.normal ∷ [])

  -- The loop of `flush`; each round takes an item of the queue.
  pub flush_rounds : ℕ → ℕ → State → State
  unfolding select dispatch receive_candidates
  flush_rounds zero now s = s
  flush_rounds (suc rounds) now s =
      if is_empty s.queue || s.closed then s else elim (select s (receive_candidates s.queue)) [
        | none ↦ s
        | some p ↦ flush_rounds rounds now (dispatch now p s)
      ]

  pub flush : ℕ → State → State
  unfolding flush_rounds
  flush now s = flush_rounds (length s.queue) now s

  -- An item that can be sent at once is no backlog.
  pub overflows : Item → State → Bool
  unfolding has_credit is_empty
  overflows item s =
      let t : State = record s { queued_bytes = s.queued_bytes + item.size } in
      not (is_empty s.queue && (is_empty s.pending || has_credit s item))
      && (ltb limits.queue_frames (length s.queue + 1) || ltb limits.queue_bytes t.queued_bytes)

  -- The part of `push` behind the size of the frame; `over_budget` says whether the shared budgets make
  -- this receiver their victim.
  pub push_item : Bool → ℕ → Item → State → State
  unfolding enqueue overflows fail flush
  push_item over_budget now item s =
      if overflows item s
      then fail queue_overflow (enqueue item s)
      else flush now (if over_budget then fail queue_overflow (enqueue item s) else enqueue item s)

  -- `priority` and `stream` are what the correlation of control frames finds.
  pub push : Bool → ℕ → ℕ → Option Retry → Priority → Option Str → Bool → State → State
  unfolding push_item counted_size fail item_of
  push over_budget now original retry priority stream scheduling s =
      if s.closed
      then s
      else if ltb limits.queue_bytes (counted_size original retry)
      then fail frame_too_large s
      else push_item over_budget now (item_of original retry priority stream scheduling) s

  pub grant : ℕ → ℕ → ℕ → Option ℕ → State → State
  unfolding is_valid_credit drop flush close
  grant now frames bytes through s =
      if s.closed || (frames == 0 && bytes == 0 && not (is_some through))
      then s
      else if is_valid_credit frames bytes through s.pending
      then flush now
          (record s { pending = drop frames s.pending; pending_bytes = s.pending_bytes - bytes })
      else record (close s) { closing = some invalid_credit }

  pub step : State → Event → State
  unfolding push grant close fail
  step s (pushes over_budget now original retry priority stream scheduling) =
      push over_budget now original retry priority stream scheduling s
  step s (grants now frames bytes through) = grant now frames bytes through s
  step s closes = close s
  step s fails = fail queue_overflow s

  pub run_all : State → List Event → State
  run_all s [] = s
  run_all s (e ∷ es) = run_all (step s e) es
