-- ===== src/NostrDb/Crdt/Actions.antt =====
-- crdt.js: events, the settled options, the actions on tags and on the content, and which of two
-- actions wins.
pub mod Winning
pub mod Distinct
use billion.Common.{
  ℕ, zero, suc, ◌+◌, ◌-◌, ◌≤◌, Bool, true, false, ◌&&◌, ◌||◌, Option, none, some, List, [], ◌∷◌,
  ◌++◌, map, ltb, leb, ◌==◌, min, max, if◌then◌else◌, length,
}
use billion.Common.Text.{Str, codes, str_eq, str_ge}
use billion.Common.Json.{stringify}
use billion.NostrDb.Crdt.Metadata.{join_decimals, serialize_normal_metadata}

-- The parts of a Nostr event that the merge reads.
pub record Event : Type 0 where
  pub kind : ℕ
  pub pubkey : Str
  pub created_at : ℕ
  pub tags : List (List Str)
  pub content : Str

-- What `normalizeCrdtOptions` returns; `sync` is `mergeSource === 'sync'`.
pub record Config : Type 0 where
  pub default_indexes : List ℕ
  pub indexes_by_name : List (Str × List ℕ)
  pub tombstone_grace_seconds : ℕ
  pub max_tombstone_tags : ℕ
  pub default_tombstone_name : Str
  pub tombstone_name_by_name : List (Str × Str)
  pub sync : Bool
  pub now : ℕ

abbrev pub clock_skew_seconds : ℕ
clock_skew_seconds = 60

pub record ContentAction : Type 0 where
  pub value : Str
  pub timestamp : ℕ

-- `deletes` tells the two types apart, 'delete' and 'tag'; a deletion has no base tag and no rank.
pub record Action : Type 0 where
  pub deletes : Bool
  pub key : Str
  pub indexes : List ℕ
  pub values : List Str
  pub tag_name : Str
  pub base_tag : List Str
  pub timestamp : ℕ
  pub rank : Option Str
  pub tag : List Str
  pub payload : Str

-- `winningAction` of two actions that are there, for either kind of action.
unfoldable pub winner {ℓ} : {A : Type ℓ} → (A → ℕ) → (A → Str) → A → A → A
winner timestamp payload a b =
    if timestamp a == timestamp b
    then (if str_ge (payload a) (payload b) then a else b)
    else if ltb (timestamp b) (timestamp a)
    then a
    else b

-- `winningAction(a, b)`, where `a` may be missing.
abbrev pub or_winner {ℓ} : {A : Type ℓ} → (A → A → A) → Option A → A → A
or_winner win none b = b
or_winner win (some a) b = win a b

unfoldable pub winning_action : Action → Action → Action
unfolding winner
winning_action = winner (λ a. a.timestamp) (λ a. a.payload)

unfoldable pub winning_content : ContentAction → ContentAction → ContentAction
unfolding winner
winning_content = winner (λ a. a.timestamp) (λ a. a.value)

unfoldable pub get : Str → List Action → Option Action
get k [] = none
get k (a ∷ m) = if str_eq a.key k then some a else get k m

-- `map.set(action.key, action)`
unfoldable pub put : Action → List Action → List Action
put a [] = a ∷ []
put a (b ∷ m) = if str_eq b.key a.key then a ∷ m else b ∷ put a m

unfoldable pub set_winning_action : List Action → Action → List Action
set_winning_action m a = put (or_winner winning_action (get a.key m) a) m

-- One call of `setWinningAction` for each action, in turn.
unfoldable pub set_all : List Action → List Action → List Action
set_all m [] = m
set_all m (a ∷ rest) = set_all (set_winning_action m a) rest

unfoldable pub identity_key : List ℕ → List Str → Str
identity_key indexes values = join_decimals b':' indexes ++ (0 ∷ stringify values)

unfoldable pub normal_tag_action :
    Str → List ℕ → List Str → Str → List Str → ℕ → Option Str → Action
normal_tag_action key indexes values tag_name base_tag timestamp rank =
    let tag : List Str = base_tag ++ serialize_normal_metadata timestamp rank ∷ [] in
    record {
      deletes = false;
      key = key;
      indexes = indexes;
      values = values;
      tag_name = tag_name;
      base_tag = base_tag;
      timestamp = timestamp;
      rank = rank;
      tag = tag;
      payload = stringify tag;
    }

unfoldable pub cap_action_timestamp : ℕ → Event → Config → ℕ
cap_action_timestamp timestamp event config = min timestamp (
    if config.sync
    then event.created_at + clock_skew_seconds
    else max config.now event.created_at + clock_skew_seconds)

lookup_name {ℓ} : {A : Type ℓ} → Str → List (Str × A) → A → A
lookup_name name [] default = default
lookup_name name ((k, v) ∷ rest) default =
    if str_eq k name then v else lookup_name name rest default

unfoldable pub identity_indexes : Str → Config → List ℕ
unfolding lookup_name
identity_indexes name config = lookup_name name config.indexes_by_name config.default_indexes

unfoldable pub tombstone_tag_name_for : Str → Config → Str
unfolding lookup_name
tombstone_tag_name_for name config =
    lookup_name name config.tombstone_name_by_name config.default_tombstone_name

value_at : List Str → ℕ → Str
value_at [] i = []
value_at (v ∷ vs) zero = v
value_at (v ∷ vs) (suc i) = value_at vs i

unfoldable pub values_at_indexes : List Str → List ℕ → List Str
unfolding value_at
values_at_indexes tag indexes = map (value_at tag) indexes
