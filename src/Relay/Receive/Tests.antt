-- ===== src/Relay/Receive/Tests.antt =====
-- bridge-receive-queue.js: runs of a receiver, and the theorems about them at a concrete input.
use billion.Common.{ℕ, ◌≡◌, refl, ◌++◌, false, none, some, List, [], ◌∷◌, map}
use billion.Common.Text.{Str, str_eq}
use billion.Relay.Receive.Queue.{
  Item, priority_0, priority_1, priority_2, is_priority, init, retry_after_value, rewritten_size,
  counted_size, close, fail, is_some, is_empty, is_in, is_blocked, add_stream, observe,
  candidates_from, receive_candidates, same_place, remove_at, take, drop, sent_bytes, lower_of,
  preferred_of, through_of, same_through, is_valid_credit,
}
use billion.Relay.Receive.{
  Limits, Event, pushes, grants, dispatch, enqueue, item_of, has_credit, fits, leaves_reserve,
  is_eligible, first_eligible, select, flush_rounds, flush, overflows, push_item, push, grant, step,
  run_all,
}
use billion.Relay.Receive.Credit.{IsAccounted, run_all-IsAccounted}
use billion.Relay.Receive.Waiting.{IsQuiet, run_all-IsQuiet}
use billion.Relay.Receive.Stream.{only, pushed}
use billion.Relay.Receive.Order.{in_stream, is_normal, run_all-keeps_order}

abbrev limits : Limits
limits = record { queue_frames = 4; queue_bytes = 100; credit_frames = 2; credit_bytes = 30 }

abbrev stream : Str
stream = 115 ∷ []

-- An event, another, the end of their stream, and an acknowledgement; then credit for the first.
abbrev events : List Event
events =
    pushes false 0 10 none priority_0 (some stream) false
    ∷ pushes false 0 15 none priority_0 (some stream) false
    ∷ pushes false 0 8 none priority_1 (some stream) false
    ∷ pushes false 0 9 none priority_2 none false
    ∷ grants 5 1 10 none
    ∷ []

run_open : (run_all limits init events).closed ≡ false
unfolding is_priority init retry_after_value rewritten_size counted_size close fail is_some is_empty
    is_in is_blocked add_stream observe candidates_from receive_candidates same_place remove_at take
    drop sent_bytes lower_of preferred_of through_of same_through is_valid_credit dispatch enqueue
    item_of has_credit fits leaves_reserve is_eligible first_eligible select flush_rounds flush
    overflows push_item push grant step run_all str_eq
run_open = refl

-- The acknowledgement passes the end of the stream, which waits for credit.
run_sizes :
    map {B = ℕ} (λ (i : Item). i.size) (run_all limits init events).dispatched ≡ 10 ∷ 15 ∷ 9 ∷ []
unfolding is_priority init retry_after_value rewritten_size counted_size close fail is_some is_empty
    is_in is_blocked add_stream observe candidates_from receive_candidates same_place remove_at take
    drop sent_bytes lower_of preferred_of through_of same_through is_valid_credit dispatch enqueue
    item_of has_credit fits leaves_reserve is_eligible first_eligible select flush_rounds flush
    overflows push_item push grant step run_all str_eq
run_sizes = refl

run_all-IsAccounted_example : IsAccounted limits (run_all limits init events)
run_all-IsAccounted_example = run_all-IsAccounted limits events

run_all-IsQuiet_example : IsQuiet (run_all limits init events)
run_all-IsQuiet_example = run_all-IsQuiet limits events

run_all-keeps_order_example :
    (only
        (in_stream stream)
        ((run_all limits init events).dispatched ++ (run_all limits init events).queue)
      ≡ only (in_stream stream) (pushed events))
    × (only is_normal
          ((run_all limits init events).dispatched ++ (run_all limits init events).queue)
        ≡ only is_normal (pushed events))
run_all-keeps_order_example = run_all-keeps_order limits events run_open stream
