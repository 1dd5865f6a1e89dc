-- ===== src/Relay/Receive/Flushing.antt =====
-- bridge-receive-queue.js: what a round of `flush` keeps is kept by `flush`.
use mathlib.Core.Path.{subst}
use billion.Common.{
  ℕ, zero, suc, ◌≡◌, Bool, true, ◌&&◌, ◌||◌, not, Option, none, some, List, [], ◌∷◌, if_cases,
  option_cases, length, All, arith,
}
use billion.Relay.Receive.Queue.{
  Item, Place, Candidates, State, is_empty, same_place, receive_candidates, lower_of, preferred_of,
}
use billion.Relay.Receive.{
  Limits, has_credit, fits, is_eligible, first_eligible, select, dispatch, flush_rounds, flush,
}
use billion.Relay.Receive.Choice.{IsFree, AllOf, receive_candidates-AreFree}

module _ (limits : Limits) where
  -- The credit that an item has where it is sent.
  abbrev pub may_send : State → Item → Bool
  may_send s item = is_empty s.pending || has_credit limits s item

  is_eligible-may_send :
      (s : State) (reserved_turn : Bool) (item : Item)
      → is_eligible limits s reserved_turn item ≡ true
      → may_send s item ≡ true
  unfolding is_eligible
  is_eligible-may_send s reserved_turn item e = ground (arith, e)

  -- An item that a round may take.
  abbrev pub Taken : State → (Place → Type 0) → Place → Type 0
  Taken s P p = P p × (may_send s p.1 ≡ true)

  first_eligible-Taken :
      (P : Place → Type 0) (s : State) (reserved_turn : Bool) (ps : List (Option Place))
      → All (AllOf P) ps
      → AllOf (Taken s P) (first_eligible limits s reserved_turn ps)
  unfolding first_eligible
  first_eligible-Taken P s reserved_turn [] h = tt
  first_eligible-Taken P s reserved_turn (none ∷ ps) h =
      first_eligible-Taken P s reserved_turn ps h.1
  first_eligible-Taken P s reserved_turn (some p ∷ ps) h =
      if_cases (AllOf (Taken s P)) (is_eligible limits s reserved_turn p.1) (some p) _
        (λ e. (h.0, is_eligible-may_send s reserved_turn p.1 e))
        (λ e. first_eligible-Taken P s reserved_turn ps h.1)

  lower_of-AllOf :
      (P : Place → Type 0) (s : State) (c : Candidates)
      → AllOf P c.control
      → AllOf P c.normal
      → AllOf P (lower_of s c)
  unfolding lower_of
  lower_of-AllOf P s c h k = if_cases (AllOf P) _ c.control c.normal (λ e. h) (λ e. k)

  preferred_of-AllOf :
      (P : Place → Type 0) (s : State) (c : Candidates)
      → AllOf P c.high
      → AllOf P (lower_of s c)
      → AllOf P (preferred_of s c)
  unfolding preferred_of
  preferred_of-AllOf P s c h k = if_cases (AllOf P) _ c.high (lower_of s c) (λ e. h) (λ e. k)

  pub select-Taken :
      (P : Place → Type 0) (s : State) (c : Candidates)
      → AllOf P c.high × AllOf P c.control × AllOf P c.normal
      → AllOf (Taken s P) (select limits s c)
  unfolding select
  select-Taken P s c h =
      let lower : AllOf P (lower_of s c) = lower_of-AllOf P s c h.1 h.2 in
      let preferred : AllOf P (preferred_of s c) = preferred_of-AllOf P s c h.0 lower in
      let places : List (Option Place) =
        preferred_of s c ∷ c.high ∷ lower_of s c ∷ c.control ∷ c.normal ∷ [] in
      let all : All (AllOf P) places = (preferred, (h.0, (lower, (h.1, (h.2, tt))))) in
      let same : Bool = same_place (preferred_of s c) c.normal in
      let reserved : Bool = same && (fits limits s c.high || fits limits s c.control) in
      if_cases (AllOf (Taken s P))
        (same && not (is_empty s.pending) && not (fits limits s c.normal)) none
        (first_eligible limits s reserved places) (λ e. tt)
        (λ e. first_eligible-Taken P s reserved places all)

  pub selected-Taken :
      (s : State) (p : Place)
      → select limits s (receive_candidates s.queue) ≡ some p
      → Taken s (IsFree s.queue) p
  selected-Taken s p g = subst (AllOf (Taken s (IsFree s.queue))) g (
      select-Taken (IsFree s.queue) s (receive_candidates s.queue)
        (receive_candidates-AreFree s.queue))

  -- What every round keeps, flush keeps.
  pub flush_rounds-keeps :
      (I : State → Type 0) (now : ℕ)
      → ((s : State) (p : Place)
          → IsFree s.queue p
          → may_send s p.1 ≡ true
          → I s
          → I (dispatch now p s))
      → (rounds : ℕ) (s : State) → I s
      → I (flush_rounds limits rounds now s)
  unfolding flush_rounds
  flush_rounds-keeps I now keeps zero s h = h
  flush_rounds-keeps I now keeps (suc rounds) s h =
      if_cases I (is_empty s.queue || s.closed) s _ (λ e. h)
        (λ e. option_cases I (select limits s (receive_candidates s.queue)) _ _ h (λ p g.
          let taken : Taken s (IsFree s.queue) p = selected-Taken s p g in
          flush_rounds-keeps I now keeps rounds (dispatch now p s) (keeps s p taken.0 taken.1 h)))

  pub flush-keeps :
      (I : State → Type 0) (now : ℕ)
      → ((s : State) (p : Place)
          → IsFree s.queue p
          → may_send s p.1 ≡ true
          → I s
          → I (dispatch now p s))
      → (s : State) → I s
      → I (flush limits now s)
  unfolding flush
  flush-keeps I now keeps s h = flush_rounds-keeps I now keeps (length s.queue) s h
