-- ===== src/Relay/Receive/Choice.antt =====
-- receive-priority.js: every candidate is the first of its stream in the queue, and a normal one the first
-- normal one; a queue that is not empty has a candidate.
use mathlib.Core.List.{append_assoc}
use billion.Common.{
  ℕ, ◌+◌, ◌≡◌, refl, sym, ap, ◌∙◌, Bool, true, false, ◌&&◌, ◌||◌, not, Option, none, some, List, [],
  ◌∷◌, ◌++◌, if◌then◌else◌, if_cases, length, length-append, arith,
}
use billion.Common.Text.{Str}
use billion.Relay.Receive.Queue.{
  Item, Place, Candidates, is_some, is_blocked, add_stream, observe, candidates_from, no_candidates,
  receive_candidates, is_priority, is_in, Priority, priority_0, priority_1, priority_2,
}

abbrev pub all_streams : List Item → List Str → List Str
all_streams [] streams = streams
all_streams (x ∷ xs) streams = all_streams xs (add_stream x.stream streams)

abbrev pub has_normal : List Item → Bool
has_normal [] = false
has_normal (x ∷ xs) = is_priority 0 x.priority || has_normal xs

-- A place of the queue whose item passes none of its stream, and no normal one if it is normal.
pub record IsFree (queue : List Item) (p : Place) : Type 0 where
  pub front : List Item
  pub back : List Item
  pub split : queue ≡ front ++ p.1 ∷ back
  pub placed : p.0 ≡ length front
  pub unblocked : is_blocked (all_streams front []) p.1.stream ≡ false
  pub first_normal : is_priority 0 p.1.priority && has_normal front ≡ false

abbrev pub AllOf : (Place → Type 0) → Option Place → Type 0
AllOf P none = Unit
AllOf P (some p) = P p

abbrev pub AreFree : List Item → Candidates → Type 0
AreFree queue c =
    AllOf (IsFree queue) c.high × AllOf (IsFree queue) c.control × AllOf (IsFree queue) c.normal

all_streams-append :
    (xs : List Item) (x : Item) (streams : List Str)
    → all_streams (xs ++ x ∷ []) streams ≡ add_stream x.stream (all_streams xs streams)
all_streams-append [] x streams = refl
all_streams-append (y ∷ xs) x streams = all_streams-append xs x (add_stream y.stream streams)

has_normal-append :
    (xs : List Item) (x : Item)
    → has_normal (xs ++ x ∷ []) ≡ has_normal xs || is_priority 0 x.priority
has_normal-append [] x = ground arith
has_normal-append (y ∷ xs) x = ground (arith, has_normal-append xs x)

-- What is kept, or replaced where a test holds.
keep_or :
    (P : Place → Type 0) (b : Bool) (p : Place) (o : Option Place)
    → (b ≡ true → P p)
    → AllOf P o
    → AllOf P (if b then some p else o)
keep_or P b p o h k = if_cases (AllOf P) b (some p) o h (λ e. k)

not_normal-high : (q : Priority) (b : Bool) → is_priority 2 q ≡ true → is_priority 0 q && b ≡ false
unfolding is_priority
not_normal-high priority_0 b e = ground (arith, e)
not_normal-high priority_1 b e = refl
not_normal-high priority_2 b e = refl

not_normal-control :
    (q : Priority) (b : Bool) → is_priority 1 q ≡ true → is_priority 0 q && b ≡ false
unfolding is_priority
not_normal-control priority_0 b e = ground (arith, e)
not_normal-control priority_1 b e = refl
not_normal-control priority_2 b e = refl

first_of : (a b c : Bool) → a && not b && not c ≡ true → a ≡ true
first_of a b c e = ground (arith, e)

second_of : (a b c : Bool) → a && not b && not c ≡ true → b ≡ false
second_of a b c e = ground (arith, e)

third_of : (a b c : Bool) → a && not b && not c ≡ true → c ≡ false
third_of a b c e = ground (arith, e)

and-false : (a b c : Bool) → b ≡ c → c ≡ false → a && b ≡ false
and-false a b c h e = ground (arith, h, e)

observe-AreFree :
    (queue front : List Item) (x : Item) (back : List Item) (index : ℕ) (streams : List Str)
    (seen : Bool) (c : Candidates)
    → queue ≡ front ++ x ∷ back
    → index ≡ length front
    → streams ≡ all_streams front []
    → seen ≡ has_normal front
    → AreFree queue c
    → AreFree queue (observe (index, x) (is_blocked streams x.stream) seen c)
unfolding observe
observe-AreFree queue front x back index streams seen c hq hi hs hn free =
    let blocked : Bool = is_blocked streams x.stream in
    let free_if : blocked ≡ false
        → is_priority 0 x.priority && has_normal front ≡ false
        → IsFree queue (index, x) =
      λ e g. record {
        front = front;
        back = back;
        split = hq;
        placed = hi;
        unblocked = ap (λ l. is_blocked l x.stream) (sym hs) ∙ e;
        first_normal = g;
      } in
    (
      keep_or (IsFree queue) (is_priority 2 x.priority && not (is_some c.high) && not blocked)
          (index, x) c.high
          (λ e. free_if (third_of (is_priority 2 x.priority) (is_some c.high) blocked e) (
            not_normal-high x.priority (has_normal front)
              (first_of (is_priority 2 x.priority) (is_some c.high) blocked e)))
          free.0,
      keep_or (IsFree queue) (is_priority 1 x.priority && not (is_some c.control) && not blocked)
          (index, x) c.control
          (λ e. free_if (third_of (is_priority 1 x.priority) (is_some c.control) blocked e) (
            not_normal-control x.priority (has_normal front)
              (first_of (is_priority 1 x.priority) (is_some c.control) blocked e)))
          free.1,
      keep_or (IsFree queue) (is_priority 0 x.priority && not seen && not blocked) (index, x)
          c.normal
          (λ e. free_if (third_of (is_priority 0 x.priority) seen blocked e) (
            and-false (is_priority 0 x.priority) (has_normal front) seen (sym hn)
              (second_of (is_priority 0 x.priority) seen blocked e)))
          free.2,
    )

candidates_from-AreFree :
    (queue front back : List Item) (index : ℕ) (streams : List Str) (seen : Bool) (c : Candidates)
    → queue ≡ front ++ back
    → index ≡ length front
    → streams ≡ all_streams front []
    → seen ≡ has_normal front
    → AreFree queue c
    → AreFree queue (candidates_from index streams seen c back)
unfolding candidates_from
candidates_from-AreFree queue front [] index streams seen c hq hi hs hn free = free
candidates_from-AreFree queue front (x ∷ back) index streams seen c hq hi hs hn free =
    candidates_from-AreFree queue (front ++ x ∷ []) back (index + 1) (add_stream x.stream streams)
      (seen || is_priority 0 x.priority) (observe (index, x) (is_blocked streams x.stream) seen c)
      (hq ∙ sym (append_assoc front (x ∷ []) back))
      (omega (arith, hi, length-append front (x ∷ [])))
      (ap (add_stream x.stream) hs ∙ sym (all_streams-append front x []))
      (ap (λ b. b || is_priority 0 x.priority) hn ∙ sym (has_normal-append front x))
      (observe-AreFree queue front x back index streams seen c hq hi hs hn free)

pub receive_candidates-AreFree : (queue : List Item) → AreFree queue (receive_candidates queue)
unfolding receive_candidates
receive_candidates-AreFree queue =
    candidates_from-AreFree queue [] queue 0 [] false no_candidates refl refl refl refl (tt, tt, tt)

-- Is there a candidate?
unfoldable pub has_candidate : Candidates → Bool
has_candidate c = is_some c.high || is_some c.control || is_some c.normal

observe-has_candidate :
    (p : Place) (blocked seen : Bool) (c : Candidates)
    → has_candidate c ≡ true
    → has_candidate (observe p blocked seen c) ≡ true
unfolding has_candidate observe is_some
observe-has_candidate p blocked seen c h = ground (arith, h)

candidates_from-has_candidate :
    (index : ℕ) (streams : List Str) (seen : Bool) (c : Candidates) (items : List Item)
    → has_candidate c ≡ true
    → has_candidate (candidates_from index streams seen c items) ≡ true
unfolding candidates_from
candidates_from-has_candidate index streams seen c [] h = h
candidates_from-has_candidate index streams seen c (x ∷ xs) h =
    candidates_from-has_candidate (index + 1) (add_stream x.stream streams)
      (seen || is_priority 0 x.priority) (observe (index, x) (is_blocked streams x.stream) seen c)
      xs (observe-has_candidate (index, x) (is_blocked streams x.stream) seen c h)

first_observed :
    (p : Place) (q : Priority) (o : Option Str)
    → is_some (if is_priority 2 q && true && not (is_blocked [] o) then some p else none)
        || is_some (if is_priority 1 q && true && not (is_blocked [] o) then some p else none)
        || is_some (if is_priority 0 q && true && not (is_blocked [] o) then some p else none)
      ≡ true
unfolding is_some is_blocked is_priority is_in
first_observed p priority_0 none = refl
first_observed p priority_0 (some o) = refl
first_observed p priority_1 none = refl
first_observed p priority_1 (some o) = refl
first_observed p priority_2 none = refl
first_observed p priority_2 (some o) = refl

first-has_candidate :
    (x : Item) → has_candidate (observe (0, x) (is_blocked [] x.stream) false no_candidates) ≡ true
unfolding has_candidate observe is_some
first-has_candidate x = first_observed (0, x) x.priority x.stream

pub receive_candidates-has_candidate :
    (x : Item) (xs : List Item) → has_candidate (receive_candidates (x ∷ xs)) ≡ true
unfolding receive_candidates candidates_from
receive_candidates-has_candidate x xs =
    candidates_from-has_candidate 1 (add_stream x.stream []) (is_priority 0 x.priority)
      (observe (0, x) (is_blocked [] x.stream) false no_candidates) xs (first-has_candidate x)
