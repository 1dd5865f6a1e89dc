-- ===== src/Relay/Receive/Credit.antt =====
-- bridge-receive-queue.js: the counters of bytes, and the credit.
use mathlib.Core.Path.{subst}
use billion.Common.{
  ℕ, ◌+◌, ◌-◌, ◌≤◌, ◌<◌, ◌≡◌, refl, sym, ap, ◌∙◌, ◌⊎◌, inl, inr, Bool, true, false, ◌&&◌, ◌||◌, not,
  Option, some, List, [], ◌∷◌, ◌++◌, ◌==◌, ltb, if◌then◌else◌, if_cases, Bool-cases, length,
  length-append, arith, All, All-append,
}
use billion.Common.Text.{Str}
use billion.Relay.Receive.Queue.{
  Item, Place, State, init, Closing, queue_overflow, frame_too_large, invalid_credit, Retry,
  Priority, is_some, is_empty, rewritten_size, counted_size, remove_at, close, fail,
  is_valid_credit, take, drop, sent_bytes,
}
use billion.Relay.Receive.{
  Limits, Event, pushes, grants, closes, fails, has_credit, dispatch, flush, enqueue, item_of,
  overflows, push_item, push, grant, step, run_all,
}
use billion.Relay.Receive.Choice.{IsFree}
use billion.Relay.Receive.Flushing.{may_send, flush-keeps}
use billion.Relay.Receive.Stream.{remove_at-append}
use billion.Relay.Receive.Sizes.{
  rewritten_size-le, IsCounted, items_bytes, items_bytes-append, sent_bytes-append,
  sent_bytes-take-drop, length-drop-le, All-split, empty_pending,
}

module _ (limits : Limits) where
  -- One frame is pending at most, or those that are pending are within the credit.
  abbrev InCredit : State → Type 0
  InCredit s =
      (length s.pending ≤ 1)
      ⊎ ((length s.pending ≤ limits.credit_frames) × (s.pending_bytes ≤ limits.credit_bytes))

  -- The counters are the sums of the sizes, and the credit holds.
  pub record IsAccounted (s : State) : Type 0 where
    pub counted : All IsCounted s.queue
    pub queued : s.queued_bytes ≡ items_bytes s.queue
    pub sent : s.pending_bytes ≡ sent_bytes s.pending
    pub in_credit : InCredit s

  credit_left :
      (s : State) (item : Item)
      → may_send limits s item ≡ true
      → is_empty s.pending ≡ false
      → (length s.pending < limits.credit_frames)
        × (s.pending_bytes + item.size ≤ limits.credit_bytes)
  unfolding has_credit
  credit_left s item h e = (ground (arith, h, e), ground (arith, h, e))

  dispatch-IsAccounted :
      (now : ℕ) (s : State) (p : Place)
      → IsFree s.queue p
      → may_send limits s p.1 ≡ true
      → IsAccounted s
      → IsAccounted (dispatch now p s)
  unfolding dispatch items_bytes sent_bytes has_credit
  dispatch-IsAccounted now s p free credit h =
      let rest : List Item = free.front ++ free.back in
      let left : remove_at p.0 s.queue ≡ rest =
        ap (λ l. remove_at p.0 l) free.split
        ∙ ap (λ i. remove_at i (free.front ++ p.1 ∷ free.back)) free.placed
        ∙ remove_at-append free.front p.1 free.back in
      let parts : IsCounted p.1 × All IsCounted rest =
        All-split IsCounted free.front p.1 free.back (subst (All IsCounted) free.split h.counted) in
      let size : ℕ = rewritten_size p.1.original p.1.retry now in
      let small : size ≤ p.1.size =
        omega (arith, rewritten_size-le p.1.original p.1.retry now, parts.0) in
      let longer : length (s.pending ++ record { size = size; through = s.sequence + 1 } ∷ [])
          ≡ length s.pending + 1 =
        length-append s.pending (record { size = size; through = s.sequence + 1 } ∷ []) in
      record {
        counted = subst (All IsCounted) (sym left) parts.1;
        queued = omega (
          arith,
          h.queued,
          ap items_bytes left,
          ap items_bytes free.split,
          items_bytes-append free.front free.back,
          items_bytes-append free.front (p.1 ∷ free.back),
        );
        sent = omega (
          arith,
          h.sent,
          sent_bytes-append s.pending (record { size = size; through = s.sequence + 1 } ∷ []),
        );
        in_credit = elim (Bool-cases (is_empty s.pending)) [
          | inl e ↦ inl (omega (arith, empty_pending s.pending e, longer))
          | inr e ↦
              let left : (length s.pending < limits.credit_frames)
                  × (s.pending_bytes + p.1.size ≤ limits.credit_bytes) =
                credit_left s p.1 credit e in
              inr (omega (arith, left.0, longer), omega (arith, left.1, small))
        ];
      }

  flush-IsAccounted : (now : ℕ) (s : State) → IsAccounted s → IsAccounted (flush limits now s)
  flush-IsAccounted now s h = flush-keeps limits IsAccounted now (dispatch-IsAccounted now) s h

  close-IsAccounted : (s : State) → IsAccounted s → IsAccounted (close s)
  unfolding close items_bytes sent_bytes
  close-IsAccounted s h =
      if_cases IsAccounted s.closed s _ (λ e. h)
        (λ e. record { counted = tt; queued = refl; sent = refl; in_credit = inl (omega arith) })

  ended-IsAccounted :
      (o : Option Closing) (s : State) → IsAccounted s → IsAccounted (record s { closing = o })
  ended-IsAccounted o s h = record {
    counted = h.counted;
    queued = h.queued;
    sent = h.sent;
    in_credit = h.in_credit;
  }

  fail-IsAccounted : (reason : Closing) (s : State) → IsAccounted s → IsAccounted (fail reason s)
  unfolding fail
  fail-IsAccounted reason s h =
      if_cases IsAccounted s.closed s _ (λ e. h)
        (λ e. ended-IsAccounted (some reason) (close s) (close-IsAccounted s h))

  enqueue-IsAccounted :
      (item : Item) (s : State) → IsCounted item → IsAccounted s → IsAccounted (enqueue item s)
  unfolding enqueue items_bytes
  enqueue-IsAccounted item s k h = record {
    counted = All-append IsCounted s.queue (item ∷ []) h.counted (k, tt);
    queued = omega (arith, h.queued, items_bytes-append s.queue (item ∷ []));
    sent = h.sent;
    in_credit = h.in_credit;
  }

  push_item-IsAccounted :
      (over_budget : Bool) (now : ℕ) (item : Item) (s : State)
      → IsCounted item
      → IsAccounted s
      → IsAccounted (push_item limits over_budget now item s)
  unfolding push_item
  push_item-IsAccounted over_budget now item s k h =
      let more : IsAccounted (enqueue item s) = enqueue-IsAccounted item s k h in
      let failed : IsAccounted (fail queue_overflow (enqueue item s)) =
        fail-IsAccounted queue_overflow (enqueue item s) more in
      if_cases IsAccounted (overflows limits item s) _ _ (λ e. failed)
        (λ e.
          flush-IsAccounted now
            (if over_budget then fail queue_overflow (enqueue item s) else enqueue item s)
            (if_cases IsAccounted over_budget _ _ (λ g. failed) (λ g. more)))

  repaid-IsAccounted :
      (frames bytes : ℕ) (through : Option ℕ) (s : State)
      → is_valid_credit frames bytes through s.pending ≡ true
      → IsAccounted s
      → IsAccounted
          (record s { pending = drop frames s.pending; pending_bytes = s.pending_bytes - bytes })
  unfolding is_valid_credit
  repaid-IsAccounted frames bytes through s e h =
      let exact : bytes ≡ sent_bytes (take frames s.pending) = ground (arith, e) in
      record {
        counted = h.counted;
        queued = h.queued;
        sent = omega (arith, h.sent, exact, sent_bytes-take-drop frames s.pending);
        in_credit = elim h.in_credit [
          | inl k ↦ inl (omega (arith, k, length-drop-le frames s.pending))
          | inr k ↦ inr (omega (arith, k.0, length-drop-le frames s.pending), omega (arith, k.1))
        ];
      }

  item_of-IsCounted :
      (original : ℕ) (retry : Option Retry) (priority : Priority) (stream : Option Str)
      (scheduling : Bool)
      → IsCounted (item_of original retry priority stream scheduling)
  unfolding item_of
  item_of-IsCounted original retry priority stream scheduling = omega arith

  step-IsAccounted : (s : State) (e : Event) → IsAccounted s → IsAccounted (step limits s e)
  unfolding step push grant
  step-IsAccounted s (pushes over_budget now original retry priority stream scheduling) h =
      if_cases IsAccounted s.closed s _ (λ e. h)
        (λ e.
          if_cases IsAccounted (ltb limits.queue_bytes (counted_size original retry)) _ _
            (λ g. fail-IsAccounted frame_too_large s h)
            (λ g.
              push_item-IsAccounted over_budget now
                (item_of original retry priority stream scheduling) s
                (item_of-IsCounted original retry priority stream scheduling) h))
  step-IsAccounted s (grants now frames bytes through) h =
      if_cases IsAccounted (s.closed || (frames == 0 && bytes == 0 && not (is_some through))) s _
        (λ e. h)
        (λ e.
          if_cases IsAccounted (is_valid_credit frames bytes through s.pending) _ _
            (λ g.
              flush-IsAccounted now
                (record s {
                  pending = drop frames s.pending;
                  pending_bytes = s.pending_bytes - bytes;
                })
                (repaid-IsAccounted frames bytes through s g h))
            (λ g. ended-IsAccounted (some invalid_credit) (close s) (close-IsAccounted s h)))
  step-IsAccounted s closes h = close-IsAccounted s h
  step-IsAccounted s fails h = fail-IsAccounted queue_overflow s h

  run_all_from-IsAccounted :
      (s : State) (es : List Event) → IsAccounted s → IsAccounted (run_all limits s es)
  unfolding run_all
  run_all_from-IsAccounted s [] h = h
  run_all_from-IsAccounted s (e ∷ es) h =
      run_all_from-IsAccounted (step limits s e) es (step-IsAccounted s e h)

  -- After every sequence of calls the counters of a receiver are the sums of the sizes of what waits and of
  -- what is pending, and at most one frame is pending or those that are pending are within the credit of
  -- frames and bytes, also where a retry was written again.
  pub run_all-IsAccounted : (es : List Event) → IsAccounted (run_all limits init es)
  unfolding init items_bytes sent_bytes
  run_all-IsAccounted es =
      run_all_from-IsAccounted init es
        (record { counted = tt; queued = refl; sent = refl; in_credit = inl (omega arith) })
