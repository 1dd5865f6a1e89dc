-- ===== src/Relay/Control.antt =====
-- src/services/relay-pool/receive-priority.js: createControlPriority correlates what a consumer sends with
-- what its relay answers. A frame is what parsing it finds; `well_formed` says whether the rest of an
-- answer has the form that the code tests, and a frame that no test is for is `other`.
pub mod Bounds
mod Tests
use billion.Common.{
  ℕ, zero, suc, ◌-◌, Bool, true, false, ◌&&◌, ◌||◌, Option, none, some, List, [], ◌∷◌, ◌++◌,
  if◌then◌else◌, length,
}
use billion.Common.Text.{Str, str_eq, codes}
use billion.Relay.Receive.Queue.{Priority, priority_0, priority_1, priority_2}

abbrev pub max_remembered : ℕ
max_remembered = 256

-- What the consumer sends.
pub data Outgoing : Type 0 where
  publishes : Str → Bool → Outgoing
  requests counts opens_neg closes closes_neg : Str → Outgoing
  other_sent : Outgoing

-- What the relay answers.
pub data Incoming : Type 0 where
  auth other_received : Incoming
  ok event : Str → Incoming
  eose closed counted neg_msg neg_err : Str → Bool → Incoming

-- `publications`, `subscriptions`, `counts` and `negs`, each in the order of insertion.
pub record Control : Type 0 where
  pub publications : List (Str × Priority)
  pub subscriptions : List (Str × Bool)
  pub count_requests : List (Str × Bool)
  pub negs : List (Str × Bool)

pub record Taken : Type 0 where
  pub priority : Priority
  pub stream : Option Str

pub clear : Control
clear = record { publications = []; subscriptions = []; count_requests = []; negs = [] }

pub get {ℓ} : {A : Type ℓ} → Str → List (Str × A) → Option A
get id [] = none
get id (e ∷ es) = if str_eq e.0 id then some e.1 else get id es

pub has {ℓ} : {A : Type ℓ} → Str → List (Str × A) → Bool
has id [] = false
has id (e ∷ es) = str_eq e.0 id || has id es

-- `map.delete(id)`, for its effect.
pub delete {ℓ} : {A : Type ℓ} → Str → List (Str × A) → List (Str × A)
delete id [] = []
delete id (e ∷ es) = let rest = delete id es in if str_eq e.0 id then rest else e ∷ rest

pub drop {ℓ} : {A : Type ℓ} → ℕ → List A → List A
drop zero xs = xs
drop (suc n) [] = []
drop (suc n) (x ∷ xs) = drop n xs

-- The oldest entries go while there are too many.
pub trim {ℓ} : {A : Type ℓ} → List A → List A
unfolding drop
trim xs = drop (length xs - max_remembered) xs

pub remember {ℓ} : {A : Type ℓ} → Str → A → List (Str × A) → List (Str × A)
unfolding delete trim
remember id value m = trim (delete id m ++ (id, value) ∷ [])

pub note : Outgoing → Control → Control
unfolding remember
note (publishes id is_priority) c = record c {
  publications = remember id (if is_priority then priority_2 else priority_1) c.publications;
}
note (requests id) c = record c { subscriptions = remember id true c.subscriptions }
note (counts id) c = record c { count_requests = remember id true c.count_requests }
note (opens_neg id) c = record c { negs = remember id true c.negs }
note (closes id) c = record c { subscriptions = delete id c.subscriptions }
note (closes_neg id) c = record c { negs = delete id c.negs }
note other_sent c = c

or_priority_0 : Option Priority → Priority
or_priority_0 none = priority_0
or_priority_0 (some priority) = priority

-- Priority 1 where a request of the consumer is answered.
answers : Bool → Priority
answers found = if found then priority_1 else priority_0

sub : Str → Option Str
sub id = some (codes "sub:" ++ id)

neg : Str → Option Str
neg id = some (codes "neg:" ++ id)

-- The priority and the stream of a frame, and what is remembered then.
pub take : Incoming → Control → Taken × Control
unfolding get or_priority_0 answers has delete sub neg
take auth c = (record { priority = priority_2; stream = none }, c)
take other_received c = (record { priority = priority_0; stream = none }, c)
take (ok id) c = (
  record { priority = or_priority_0 (get id c.publications); stream = none },
  record c { publications = delete id c.publications },
)
take (event id) c = (record { priority = priority_0; stream = sub id }, c)
take (eose id well_formed) c =
    (record { priority = answers (well_formed && has id c.subscriptions); stream = sub id }, c)
take (closed id well_formed) c = (
  record {
    priority = answers (well_formed && (has id c.subscriptions || has id c.count_requests));
    stream = sub id;
  },
  if well_formed
      then record c {
        subscriptions = delete id c.subscriptions;
        count_requests = delete id c.count_requests;
      }
      else c,
)
take (counted id well_formed) c = (
  record { priority = answers (well_formed && has id c.count_requests); stream = sub id },
  if well_formed then record c { count_requests = delete id c.count_requests } else c,
)
take (neg_msg id well_formed) c =
    (record { priority = answers (well_formed && has id c.negs); stream = neg id }, c)
take (neg_err id well_formed) c = (
  record { priority = answers (well_formed && has id c.negs); stream = neg id },
  if well_formed && has id c.negs then record c { negs = delete id c.negs } else c,
)

pub data Event : Type 0 where
  notes : Outgoing → Event
  takes : Incoming → Event
  clears : Event

pub step : Control → Event → Control
unfolding note take clear
step c (notes frame) = note frame c
step c (takes frame) = (take frame c).1
step c clears = clear

pub run_all : Control → List Event → Control
unfolding step
run_all c [] = c
run_all c (e ∷ es) = run_all (step c e) es
