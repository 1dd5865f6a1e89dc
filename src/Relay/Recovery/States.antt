-- ===== src/Relay/Recovery/States.antt =====
-- connection-recovery.js: the state of each relay, and its map.
use billion.Common.{
  ℕ, suc, ◌+◌, Bool, true, false, ◌||◌, not, Option, none, some, List, [], ◌∷◌, ◌++◌, ltb, ◌==◌,
  if◌then◌else◌,
}
use billion.Common.Text.{Str, str_eq}

pub record Failure : Type 0 where
  pub serial : ℕ
  pub at : ℕ

-- What `#state` keeps of one relay.
pub record UrlState : Type 0 where
  pub url : Str
  pub serial : ℕ
  pub interests : ℕ
  pub delay : ℕ
  pub retry_at : ℕ
  pub generation : ℕ
  pub failed_generation : Option ℕ
  pub failure : Option Failure
  pub recovering : Bool
  pub trial : Option ℕ
  pub healthy : List ℕ
  pub healthy_since : Option ℕ
  pub stable_timer : Bool
  pub idle_timer : Bool
  pub idle_since : Option ℕ
  pub deferred : List ℕ

-- A relay's failure that the probe decides on.
pub record Pending : Type 0 where
  pub url : Str
  pub state_serial : ℕ
  pub failure : Failure

pub record Counters : Type 0 where
  pub physical_attempts : ℕ
  pub deferred_connections : ℕ
  pub offline_waits : ℕ
  pub cancelled_before_open : ℕ

pub record State : Type 0 where
  pub states : List UrlState
  pub offline : Bool
  pub probe : Option (List Pending)
  pub monitor : Bool
  pub counters : Counters
  pub next_serial : ℕ
  pub wakes : ℕ

pub record Limits : Type 0 where
  pub backoff_enabled : Bool
  pub backoff_max_ms : ℕ

abbrev pub first_delay : ℕ
first_delay = 1000

unfoldable pub init : State
init = record {
  states = [];
  offline = false;
  probe = none;
  monitor = false;
  counters = record {
    physical_attempts = 0;
    deferred_connections = 0;
    offline_waits = 0;
    cancelled_before_open = 0;
  };
  next_serial = 0;
  wakes = 0;
}

unfoldable pub new_state : Str → ℕ → UrlState
new_state url serial = record {
  url = url;
  serial = serial;
  interests = 0;
  delay = first_delay;
  retry_at = 0;
  generation = 0;
  failed_generation = none;
  failure = none;
  recovering = false;
  trial = none;
  healthy = [];
  healthy_since = none;
  stable_timer = false;
  idle_timer = false;
  idle_since = none;
  deferred = [];
}

unfoldable pub find_state : Str → List UrlState → Option UrlState
find_state url [] = none
find_state url (u ∷ us) = if str_eq u.url url then some u else find_state url us

-- The changes to a state object, which stays in its place.
unfoldable pub update : Str → (UrlState → UrlState) → List UrlState → List UrlState
update url f [] = []
update url f (u ∷ us) = if str_eq u.url url then f u ∷ us else u ∷ update url f us

unfoldable pub without_state : Str → List UrlState → List UrlState
without_state url [] = []
without_state url (u ∷ us) = if str_eq u.url url then us else u ∷ without_state url us

-- `#state`, for its effect: the state of the relay is there.
unfoldable pub with_state : Str → State → State
unfolding find_state new_state
with_state url s = elim (find_state url s.states) [
  | some u ↦ s
  | none ↦ record s {
    states = s.states ++ new_state url s.next_serial ∷ [];
    next_serial = suc s.next_serial;
  }
]

abbrev pub wake : State → State
wake s = record s { wakes = s.wakes + 1 }

abbrev pub change : Str → (UrlState → UrlState) → State → State
change url f s = record s { states = update url f s.states }

unfoldable pub is_empty : List ℕ → Bool
is_empty [] = true
is_empty (x ∷ xs) = false

unfoldable pub is_in : ℕ → List ℕ → Bool
is_in k [] = false
is_in k (x ∷ xs) = x == k || is_in k xs

unfoldable pub without : ℕ → List ℕ → List ℕ
without k [] = []
without k (x ∷ xs) = if x == k then xs else x ∷ without k xs

unfoldable pub is_some {ℓ} : {A : Type ℓ} → Option A → Bool
is_some none = false
is_some (some a) = true

unfoldable pub holds : ℕ → Option ℕ → Bool
holds k none = false
holds k (some i) = i == k

-- `#expire`
unfoldable pub expire : UrlState → UrlState
unfolding is_some
expire u =
    if ltb 0 u.interests || not (is_some u.idle_since)
    then record u { idle_timer = false }
    else record u { idle_timer = true }
