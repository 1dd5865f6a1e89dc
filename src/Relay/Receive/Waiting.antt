-- ===== src/Relay/Receive/Waiting.antt =====
-- bridge-receive-queue.js: nothing waits for a credit that cannot come.
use billion.Common.{
  ℕ, zero, suc, ◌-◌, ◌≤◌, ◌≡◌, refl, sym, ap, ◌∙◌, ◌⊎◌, inl, inr, Bool, true, false, ◌&&◌, ◌||◌,
  not, Option, none, some, List, [], ◌∷◌, ◌++◌, ◌==◌, ltb, if◌then◌else◌, if_cases, option_cases_eq,
  Bool-cases, length, length-append, arith,
}
use billion.Relay.Receive.Queue.{
  Item, Place, Candidates, State, init, queue_overflow, frame_too_large, is_some, is_empty,
  same_place, receive_candidates, lower_of, preferred_of, remove_at, fail, counted_size,
  is_valid_credit, drop,
}
use billion.Relay.Receive.{
  Limits, Event, pushes, grants, closes, fails, fits, is_eligible, first_eligible, select, dispatch,
  flush_rounds, flush, enqueue, item_of, overflows, push_item, push, grant, step, run_all,
}
use billion.Relay.Receive.Choice.{IsFree, has_candidate, receive_candidates-has_candidate}
use billion.Relay.Receive.Flushing.{selected-Taken}
use billion.Relay.Receive.Stream.{remove_at-append, close-closed, fail-closed}

-- The receiver is closed, or no item waits, or a frame is on its way whose credit comes back.
abbrev pub IsQuiet : State → Type 0
IsQuiet s = (s.closed ≡ true) ⊎ ((is_empty s.queue ≡ true) ⊎ (is_empty s.pending ≡ false))

any_some : List (Option Place) → Bool
any_some [] = false
any_some (o ∷ os) = is_some o || any_some os

any_place :
    (s : State) (c : Candidates)
    → has_candidate c ≡ true
    → any_some (preferred_of s c ∷ c.high ∷ lower_of s c ∷ c.control ∷ c.normal ∷ []) ≡ true
unfolding any_some has_candidate
any_place s c h = ground (arith, h)

length-remove_at :
    (queue : List Item) (p : Place)
    → IsFree queue p
    → suc (length (remove_at p.0 queue)) ≡ length queue
length-remove_at queue p free =
    ap (λ l. suc (length (remove_at p.0 l))) free.split
    ∙ ap (λ i. suc (length (remove_at i (free.front ++ p.1 ∷ free.back)))) free.placed
    ∙ ap (λ l. suc (length l)) (remove_at-append free.front p.1 free.back)
    ∙ omega (arith, length-append free.front free.back, length-append free.front (p.1 ∷ free.back))
    ∙ ap length (sym free.split)

empty_queue : (queue : List Item) → length queue ≤ 0 → is_empty queue ≡ true
unfolding is_empty
empty_queue [] h = refl
empty_queue (x ∷ xs) h = absurd (omega (arith, h))

queue_has_candidate :
    (queue : List Item) → is_empty queue ≡ false → has_candidate (receive_candidates queue) ≡ true
unfolding is_empty
queue_has_candidate [] h = absurd (ground (arith, h))
queue_has_candidate (x ∷ xs) h = receive_candidates-has_candidate x xs

none_some : {c : Bool} → c ≡ false → c ≡ true → ⊥
none_some e h = ground (arith, e, h)

dispatch-length :
    (now : ℕ) (s : State) (p : Place)
    → IsFree s.queue p
    → suc (length (dispatch now p s).queue) ≡ length s.queue
unfolding dispatch
dispatch-length now s p free = length-remove_at s.queue p free

module _ (limits : Limits) where
  first_eligible-some :
      (s : State) (reserved : Bool) (ps : List (Option Place))
      → is_empty s.pending ≡ true
      → any_some ps ≡ true
      → is_some (first_eligible limits s reserved ps) ≡ true
  unfolding first_eligible any_some is_some is_eligible
  first_eligible-some s reserved [] e h = h
  first_eligible-some s reserved (none ∷ ps) e h = first_eligible-some s reserved ps e h
  first_eligible-some s reserved (some p ∷ ps) e h = ground (arith, e)

  select-some :
      (s : State) (c : Candidates)
      → is_empty s.pending ≡ true
      → has_candidate c ≡ true
      → is_some (select limits s c) ≡ true
  unfolding select
  select-some s c e h =
      let places : List (Option Place) =
        preferred_of s c ∷ c.high ∷ lower_of s c ∷ c.control ∷ c.normal ∷ [] in
      let same : Bool = same_place (preferred_of s c) c.normal in
      let reserved : Bool = same && (fits limits s c.high || fits limits s c.control) in
      if_cases (λ (o : Option Place). is_some o ≡ true)
        (same && not (is_empty s.pending) && not (fits limits s c.normal)) none
        (first_eligible limits s reserved places) (λ g. absurd (ground (arith, e, g)))
        (λ g. first_eligible-some s reserved places e (any_place s c h))

  flush_rounds-IsQuiet :
      (rounds now : ℕ) (s : State)
      → length s.queue ≤ rounds
      → IsQuiet (flush_rounds limits rounds now s)
  unfolding flush_rounds
  flush_rounds-IsQuiet zero now s enough = inr (inl (empty_queue s.queue enough))
  flush_rounds-IsQuiet (suc rounds) now s enough =
      if_cases IsQuiet (is_empty s.queue || s.closed) s _
        (λ e. elim (Bool-cases (is_empty s.queue)) [
          | inl g ↦ inr (inl g)
          | inr g ↦ inl (ground (arith, e, g))
        ])
        (λ e.
          option_cases_eq IsQuiet (select limits s (receive_candidates s.queue)) s _
            (λ g. elim (Bool-cases (is_empty s.pending)) [
              | inl h ↦ absurd (
                  none_some (ap is_some g) (
                    select-some s (receive_candidates s.queue) h
                      (queue_has_candidate s.queue (ground (arith, e)))))
              | inr h ↦ inr (inr h)
            ])
            (λ p g.
              flush_rounds-IsQuiet rounds now (dispatch now p s)
                (omega (arith, enough, dispatch-length now s p (selected-Taken limits s p g).0))))

  flush-IsQuiet : (now : ℕ) (s : State) → IsQuiet (flush limits now s)
  unfolding flush
  flush-IsQuiet now s = flush_rounds-IsQuiet (length s.queue) now s (omega arith)

  push_item-IsQuiet :
      (over_budget : Bool) (now : ℕ) (item : Item) (s : State)
      → IsQuiet (push_item limits over_budget now item s)
  unfolding push_item
  push_item-IsQuiet over_budget now item s =
      if_cases IsQuiet (overflows limits item s) _ _
        (λ e. inl (fail-closed queue_overflow (enqueue item s)))
        (λ e.
          flush-IsQuiet now
            (if over_budget then fail queue_overflow (enqueue item s) else enqueue item s))

  step-IsQuiet : (s : State) (e : Event) → IsQuiet s → IsQuiet (step limits s e)
  unfolding step push grant
  step-IsQuiet s (pushes over_budget now original retry priority stream scheduling) h =
      if_cases IsQuiet s.closed s _ (λ e. h)
        (λ e.
          if_cases IsQuiet (ltb limits.queue_bytes (counted_size original retry)) _ _
            (λ g. inl (fail-closed frame_too_large s))
            (λ g.
              push_item-IsQuiet over_budget now (item_of original retry priority stream scheduling)
                s))
  step-IsQuiet s (grants now frames bytes through) h =
      if_cases IsQuiet (s.closed || (frames == 0 && bytes == 0 && not (is_some through))) s _
        (λ e. h)
        (λ e.
          if_cases IsQuiet (is_valid_credit frames bytes through s.pending) _ _
            (λ g. flush-IsQuiet now (record s {
              pending = drop frames s.pending;
              pending_bytes = s.pending_bytes - bytes;
            }))
            (λ g. inl (close-closed s)))
  step-IsQuiet s closes h = inl (close-closed s)
  step-IsQuiet s fails h = inl (fail-closed queue_overflow s)

  run_all_from-IsQuiet : (s : State) (es : List Event) → IsQuiet s → IsQuiet (run_all limits s es)
  unfolding run_all
  run_all_from-IsQuiet s [] h = h
  run_all_from-IsQuiet s (e ∷ es) h = run_all_from-IsQuiet (step limits s e) es (step-IsQuiet s e h)

  -- After every sequence of calls a receiver is closed, or its queue is empty, or a frame is pending, whose
  -- credit comes back and flushes the queue: no item waits without a frame on its way, whatever its size.
  pub run_all-IsQuiet : (es : List Event) → IsQuiet (run_all limits init es)
  unfolding init is_empty
  run_all-IsQuiet es = run_all_from-IsQuiet init es (inr (inl refl))
