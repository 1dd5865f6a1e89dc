-- ===== src/Relay/Receive/Order.antt =====
-- bridge-receive-queue.js: the order of what leaves the queue.
use mathlib.Core.Path.{subst}
use billion.Common.{
  ◌≡◌, refl, ◌∙◌, inl, inr, Bool, true, false, Option, none, some, List, [], ◌∷◌, ◌++◌, if_false,
  Bool-cases, arith,
}
use billion.Common.Text.{Str, str_eq, str_eq_sound}
use billion.Relay.Receive.Queue.{Item, init, is_blocked, is_in, add_stream, is_priority}
use billion.Relay.Receive.{Limits, Event, run_all}
use billion.Relay.Receive.Choice.{all_streams, has_normal}
use billion.Relay.Receive.Stream.{only, Respects, pushed, run_all-Holds}

stream_is : Str → Option Str → Bool
stream_is stream none = false
stream_is stream (some other) = str_eq other stream

pub in_stream : Str → Item → Bool
in_stream stream item = stream_is stream item.stream

pub is_normal : Item → Bool
is_normal item = is_priority 0 item.priority

not_in-add_stream :
    (stream : Str) (o : Option Str) (streams : List Str)
    → is_in stream (add_stream o streams) ≡ false
    → (stream_is stream o ≡ false) × (is_in stream streams ≡ false)
unfolding is_in add_stream stream_is
not_in-add_stream stream none streams h = (refl, h)
not_in-add_stream stream (some other) streams h = (ground (arith, h), ground (arith, h))

-- Streams only join.
not_in-all_streams :
    (stream : Str) (front : List Item) (streams : List Str)
    → is_in stream (all_streams front streams) ≡ false
    → (only (in_stream stream) front ≡ []) × (is_in stream streams ≡ false)
unfolding only in_stream
not_in-all_streams stream [] streams h = (refl, h)
not_in-all_streams stream (x ∷ front) streams h =
    let rest : (only (in_stream stream) front ≡ [])
        × (is_in stream (add_stream x.stream streams) ≡ false) =
      not_in-all_streams stream front (add_stream x.stream streams) h in
    let first : (stream_is stream x.stream ≡ false) × (is_in stream streams ≡ false) =
      not_in-add_stream stream x.stream streams rest.1 in
    (
      if_false (x ∷ only (in_stream stream) front) (only (in_stream stream) front) first.0 ∙ rest.0,
      first.1,
    )

unblocked-first :
    (stream : Str) (o : Option Str) (front : List Item)
    → is_blocked (all_streams front []) o ≡ false
    → stream_is stream o ≡ true
    → only (in_stream stream) front ≡ []
unfolding is_blocked stream_is
unblocked-first stream none front h e = ground (arith, e)
unblocked-first stream (some other) front h e =
    (not_in-all_streams stream front []
      (subst (λ t. is_in t (all_streams front []) ≡ false) (str_eq_sound other stream e) h)).0

in_stream-Respects : (stream : Str) → Respects (in_stream stream)
unfolding in_stream
in_stream-Respects stream queue p free = elim (Bool-cases (stream_is stream p.1.stream)) [
  | inl e ↦ inr (unblocked-first stream p.1.stream free.front free.unblocked e)
  | inr e ↦ inl e
]

no_normal : (front : List Item) → has_normal front ≡ false → only is_normal front ≡ []
unfolding only is_normal
no_normal [] h = refl
no_normal (x ∷ front) h =
    if_false (x ∷ only is_normal front) (only is_normal front) (ground (arith, h))
    ∙ no_normal front (ground (arith, h))

is_normal-Respects : Respects is_normal
unfolding is_normal
is_normal-Respects queue p free = elim (Bool-cases (is_priority 0 p.1.priority)) [
  | inl e ↦ inr (no_normal free.front (ground (arith, e, free.first_normal)))
  | inr e ↦ inl e
]

module _ (limits : Limits) (es : List Event)
    (is_open : (run_all limits init es).closed ≡ false) where
  open-Holds :
      (q : Item → Bool)
      → Respects q
      → only q ((run_all limits init es).dispatched ++ (run_all limits init es).queue)
        ≡ only q (pushed es)
  unfolding init only
  open-Holds q respects = elim (run_all-Holds limits q respects [] init es (inr refl)) [
    | inl e ↦ absurd (ground (arith, e, is_open))
    | inr e ↦ e
  ]

  -- While a receiver is open, after every sequence of calls: of each stream, the items sent and then those
  -- that wait are those that were pushed, in the order in which they were pushed; and the same holds of the
  -- items of normal priority. So no item of a stream passes an earlier one.
  pub run_all-keeps_order :
      (stream : Str)
      → (only
            (in_stream stream)
            ((run_all limits init es).dispatched ++ (run_all limits init es).queue)
          ≡ only (in_stream stream) (pushed es))
        × (only is_normal ((run_all limits init es).dispatched ++ (run_all limits init es).queue)
            ≡ only is_normal (pushed es))
  run_all-keeps_order stream = (
    open-Holds (in_stream stream) (in_stream-Respects stream),
    open-Holds is_normal is_normal-Respects,
  )
