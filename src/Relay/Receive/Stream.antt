-- ===== src/Relay/Receive/Stream.antt =====
-- bridge-receive-queue.js: the frames of one stream leave in the order in which they came, and so do the
-- normal ones.
use mathlib.Core.Path.{subst}
use mathlib.Core.List.{append_assoc, append-nil}
use billion.Common.{
  ℕ, ◌-◌, ◌≡◌, refl, sym, ap, ◌∙◌, ◌⊎◌, inl, inr, Bool, true, false, ◌&&◌, ◌||◌, not, Option, List,
  [], ◌∷◌, ◌++◌, ◌==◌, ltb, if◌then◌else◌, if_true, if_false, if_cases, Bool-cases, length,
}
use billion.Common.Text.{Str}
use billion.Relay.Receive.Queue.{
  Item, Place, State, Closing, queue_overflow, frame_too_large, Retry, Priority, remove_at, close,
  fail, counted_size, is_valid_credit, drop, is_some,
}
use billion.Relay.Receive.{
  Limits, Event, pushes, grants, closes, fails, dispatch, enqueue, item_of, flush, overflows,
  push_item, push, grant, step, run_all,
}
use billion.Relay.Receive.Choice.{IsFree}
use billion.Relay.Receive.Flushing.{flush-keeps}

-- The items that pass a test, in their order.
unfoldable pub only : (Item → Bool) → List Item → List Item
only q [] = []
only q (x ∷ xs) = if q x then x ∷ only q xs else only q xs

only-append : (q : Item → Bool) (xs ys : List Item) → only q (xs ++ ys) ≡ only q xs ++ only q ys
unfolding only
only-append q [] ys = refl
only-append q (x ∷ xs) ys = elim (Bool-cases (q x)) [
  | inl e ↦
      if_true _ _ e
      ∙ ap (λ l. x ∷ l) (only-append q xs ys)
      ∙ ap (λ l. l ++ only q ys) (sym (if_true (x ∷ only q xs) (only q xs) e))
  | inr e ↦
      if_false _ _ e
      ∙ only-append q xs ys
      ∙ ap (λ l. l ++ only q ys) (sym (if_false (x ∷ only q xs) (only q xs) e))
]

pub remove_at-append :
    (front : List Item) (x : Item) (back : List Item)
    → remove_at (length front) (front ++ x ∷ back) ≡ front ++ back
unfolding remove_at
remove_at-append [] x back = refl
remove_at-append (y ∷ front) x back = ap (λ l. y ∷ l) (remove_at-append front x back)

-- An item comes before others that do not pass the test, or does not pass it itself.
only-past :
    (q : Item → Bool) (front : List Item) (x : Item) (back : List Item)
    → (q x ≡ false) ⊎ (only q front ≡ [])
    → only q (x ∷ front ++ back) ≡ only q (front ++ x ∷ back)
unfolding only
only-past q front x back (inl e) =
    if_false (x ∷ only q (front ++ back)) (only q (front ++ back)) e
    ∙ only-append q front back
    ∙ ap (λ l. only q front ++ l) (sym (if_false (x ∷ only q back) (only q back) e))
    ∙ sym (only-append q front (x ∷ back))
only-past q front x back (inr e) =
    only-append q (x ∷ []) (front ++ back)
    ∙ ap (λ l. only q (x ∷ []) ++ l) (only-append q front back ∙ ap (λ l. l ++ only q back) e)
    ∙ sym (only-append q (x ∷ []) back)
    ∙ ap (λ l. l ++ only q (x ∷ back)) (sym e)
    ∙ sym (only-append q front (x ∷ back))

only-moves :
    (q : Item → Bool) (sent front : List Item) (x : Item) (back : List Item)
    → (q x ≡ false) ⊎ (only q front ≡ [])
    → only q ((sent ++ x ∷ []) ++ (front ++ back)) ≡ only q (sent ++ (front ++ x ∷ back))
only-moves q sent front x back h =
    ap (only q) (append_assoc sent (x ∷ []) (front ++ back))
    ∙ only-append q sent (x ∷ front ++ back)
    ∙ ap (λ l. only q sent ++ l) (only-past q front x back h)
    ∙ sym (only-append q sent (front ++ x ∷ back))

-- A test whose items a free place does not pass.
abbrev pub Respects : (Item → Bool) → Type 0
Respects q =
    (queue : List Item) (p : Place) (free : IsFree queue p)
    → (q p.1 ≡ false) ⊎ (only q free.front ≡ [])

only-dispatch :
    (q : Item → Bool)
    → Respects q
    → (now : ℕ) (s : State) (p : Place) → IsFree s.queue p
    → only q ((dispatch now p s).dispatched ++ (dispatch now p s).queue)
      ≡ only q (s.dispatched ++ s.queue)
unfolding dispatch
only-dispatch q respects now s p free =
    ap (λ l. only q ((s.dispatched ++ p.1 ∷ []) ++ l))
      (ap (λ l. remove_at p.0 l) free.split
        ∙ ap (λ i. remove_at i (free.front ++ p.1 ∷ free.back)) free.placed
        ∙ remove_at-append free.front p.1 free.back)
    ∙ only-moves q s.dispatched free.front p.1 free.back (respects s.queue p free)
    ∙ ap (λ l. only q (s.dispatched ++ l)) (sym free.split)

-- What was sent and what waits is a list, while the receiver is open.
abbrev pub Holds : (Item → Bool) → List Item → State → Type 0
Holds q items s = (s.closed ≡ true) ⊎ (only q (s.dispatched ++ s.queue) ≡ items)

pub close-closed : (s : State) → (close s).closed ≡ true
unfolding close
close-closed s = if_cases (λ (t : State). t.closed ≡ true) s.closed s _ (λ e. e) (λ e. refl)

pub fail-closed : (reason : Closing) (s : State) → (fail reason s).closed ≡ true
unfolding fail
fail-closed reason s =
    if_cases (λ (t : State). t.closed ≡ true) s.closed s _ (λ e. e) (λ e. close-closed s)

-- The items of the pushes.
unfoldable pub pushed : List Event → List Item
pushed [] = []
pushed (pushes over_budget now original retry priority stream scheduling ∷ es) =
    item_of original retry priority stream scheduling ∷ pushed es
pushed (grants now frames bytes through ∷ es) = pushed es
pushed (closes ∷ es) = pushed es
pushed (fails ∷ es) = pushed es

pushed-first : (e : Event) (es : List Event) → pushed (e ∷ es) ≡ pushed (e ∷ []) ++ pushed es
unfolding pushed
pushed-first (pushes over_budget now original retry priority stream scheduling) es = refl
pushed-first (grants now frames bytes through) es = refl
pushed-first closes es = refl
pushed-first fails es = refl

module _ (limits : Limits) (q : Item → Bool) (respects : Respects q) where
  flush-Holds :
      (now : ℕ) (items : List Item) (s : State)
      → Holds q items s
      → Holds q items (flush limits now s)
  unfolding dispatch
  flush-Holds now items s h =
      flush-keeps limits (Holds q items) now
        (λ t p free credit k. elim k [
          | inl e ↦ inl e
          | inr e ↦ inr (only-dispatch q respects now t p free ∙ e)
        ])
        s h

  enqueue-Holds :
      (items : List Item) (item : Item) (s : State)
      → Holds q items s
      → Holds q (items ++ only q (item ∷ [])) (enqueue item s)
  unfolding enqueue
  enqueue-Holds items item s (inl e) = inl e
  enqueue-Holds items item s (inr e) = inr (
      ap (only q) (sym (append_assoc s.dispatched s.queue (item ∷ [])))
      ∙ only-append q (s.dispatched ++ s.queue) (item ∷ [])
      ∙ ap (λ l. l ++ only q (item ∷ [])) e)

  push_item-Holds :
      (over_budget : Bool) (now : ℕ) (items : List Item) (item : Item) (s : State)
      → Holds q items s
      → Holds q (items ++ only q (item ∷ [])) (push_item limits over_budget now item s)
  unfolding push_item
  push_item-Holds over_budget now items item s h =
      if_cases (Holds q (items ++ only q (item ∷ []))) (overflows limits item s) _ _
        (λ e. inl (fail-closed queue_overflow (enqueue item s)))
        (λ e. flush-Holds now (items ++ only q (item ∷ [])) _ (
          if_cases (Holds q (items ++ only q (item ∷ []))) over_budget _ _
            (λ g. inl (fail-closed queue_overflow (enqueue item s)))
            (λ g. enqueue-Holds items item s h)))

  -- A call that pushes nothing.
  nothing : (items : List Item) (s : State) → Holds q items s → Holds q (items ++ []) s
  nothing items s h = subst (λ l. Holds q l s) (sym (append-nil items)) h

  push-Holds :
      (over_budget : Bool) (now original : ℕ) (retry : Option Retry) (priority : Priority)
      (stream : Option Str) (scheduling : Bool) (items : List Item) (s : State)
      → Holds q items s
      → Holds q
          (items ++ only q (item_of original retry priority stream scheduling ∷ []))
          (push limits over_budget now original retry priority stream scheduling s)
  unfolding push
  push-Holds over_budget now original retry priority stream scheduling items s h =
      let item : Item = item_of original retry priority stream scheduling in
      if_cases (Holds q (items ++ only q (item ∷ []))) s.closed s _ (λ e. inl e)
        (λ e.
          if_cases (Holds q (items ++ only q (item ∷ [])))
            (ltb limits.queue_bytes (counted_size original retry)) _ _
            (λ g. inl (fail-closed frame_too_large s))
            (λ g. push_item-Holds over_budget now items item s h))

  grant-Holds :
      (now frames bytes : ℕ) (through : Option ℕ) (items : List Item) (s : State)
      → Holds q items s
      → Holds q items (grant limits now frames bytes through s)
  unfolding grant
  grant-Holds now frames bytes through items s h =
      if_cases (Holds q items) (s.closed || (frames == 0 && bytes == 0 && not (is_some through))) s
        _ (λ e. h)
        (λ e.
          if_cases (Holds q items) (is_valid_credit frames bytes through s.pending) _ _
            (λ g.
              flush-Holds now items
                (record s {
                  pending = drop frames s.pending;
                  pending_bytes = s.pending_bytes - bytes;
                })
                h)
            (λ g. inl (close-closed s)))

  step-Holds :
      (items : List Item) (s : State) (e : Event)
      → Holds q items s
      → Holds q (items ++ only q (pushed (e ∷ []))) (step limits s e)
  unfolding step pushed only
  step-Holds items s (pushes over_budget now original retry priority stream scheduling) h =
      push-Holds over_budget now original retry priority stream scheduling items s h
  step-Holds items s (grants now frames bytes through) h =
      nothing items (grant limits now frames bytes through s)
        (grant-Holds now frames bytes through items s h)
  step-Holds items s closes h = inl (close-closed s)
  step-Holds items s fails h = inl (fail-closed queue_overflow s)

  pub run_all-Holds :
      (items : List Item) (s : State) (es : List Event)
      → Holds q items s
      → Holds q (items ++ only q (pushed es)) (run_all limits s es)
  unfolding run_all pushed only
  run_all-Holds items s [] h = nothing items s h
  run_all-Holds items s (e ∷ es) h =
      subst (λ l. Holds q l (run_all limits (step limits s e) es))
        (append_assoc items (only q (pushed (e ∷ []))) (only q (pushed es))
          ∙ ap (λ l. items ++ l)
              (sym (only-append q (pushed (e ∷ [])) (pushed es))
                ∙ ap (only q) (sym (pushed-first e es))))
        (run_all-Holds (items ++ only q (pushed (e ∷ []))) (step limits s e) es
          (step-Holds items s e h))
