-- ===== src/NostrDb/Crdt/Ordering.antt =====
-- crdt.js, `orderNormalTags` and what it calls: the order and the ranks of the surviving tags.
use billion.Common.{
  ℕ, Bool, true, false, not, ◌&&◌, ◌||◌, Option, none, some, List, [], ◌∷◌, ◌++◌, map, ltb, leb,
  ◌==◌, if◌then◌else◌, length,
}
use billion.Common.Text.{Str, str_eq, str_ge}
use billion.Common.Sorting.{sort}
use billion.NostrDb.Crdt.Ranks.{is_valid_rank, has_strictly_increasing_ranks, rebalance_ranks}
use billion.NostrDb.Crdt.Actions.{Action, get, normal_tag_action}
use billion.NostrDb.Crdt.States.{State}

-- `compareByIdentityPayload(a, b) <= 0`
unfoldable pub le_identity_payload : Action → Action → Bool
le_identity_payload a b =
    if str_eq a.key b.key then str_ge b.payload a.payload else str_ge b.key a.key

rank_text : Option Str → Str
rank_text none = []
rank_text (some rank) = rank

-- `compareByRank(a, b) <= 0`, used where every rank is there.
pub le_rank : Action → Action → Bool
unfolding rank_text le_identity_payload
le_rank a b =
    if str_eq (rank_text a.rank) (rank_text b.rank)
    then le_identity_payload a b
    else str_ge (rank_text b.rank) (rank_text a.rank)

-- `compareTombstones(a, b) <= 0`: the newest first.
unfoldable pub le_tombstone : Action → Action → Bool
le_tombstone a b =
    if a.timestamp == b.timestamp
    then (if str_eq a.key b.key
        then (if str_eq a.tag_name b.tag_name
            then str_ge b.payload a.payload
            else str_ge b.tag_name a.tag_name)
        else str_ge b.key a.key)
    else ltb b.timestamp a.timestamp

member : Str → List Str → Bool
member k [] = false
member k (j ∷ js) = str_eq j k || member k js

unique_ranks_from : List Str → List Action → Bool
unfolding member
unique_ranks_from seen [] = true
unique_ranks_from seen (a ∷ actions) = elim a.rank [
  | none ↦ false
  | some rank ↦
      (is_valid_rank rank && not (member rank seen)) && unique_ranks_from (rank ∷ seen) actions
]

unfoldable pub has_unique_valid_ranks : List Action → Bool
unfolding unique_ranks_from
has_unique_valid_ranks actions = unique_ranks_from [] actions

unfoldable pub sync_ordered_keys : List Action → List Str
sync_ordered_keys actions =
    map (λ a. a.key)
      (sort (if has_unique_valid_ranks actions then le_rank else le_identity_payload) actions)

has_action : Str → List Action → Bool
has_action k [] = false
has_action k (a ∷ more) = str_eq a.key k || has_action k more

filter_known : List Action → List (Str × ℕ) → List (Str × ℕ)
unfolding has_action
filter_known by_key [] = []
filter_known by_key ((k, i) ∷ rest) =
    let kept = filter_known by_key rest in if has_action k by_key then (k, i) ∷ kept else kept

le_position : Str × ℕ → Str × ℕ → Bool
le_position (k, i) (j, n) = leb i n

-- `orderedKeys(state, byKey)`
unfoldable pub ordered_keys : State → List Action → List Str
unfolding filter_known le_position
ordered_keys s by_key = map (λ e. e.0) (sort le_position (filter_known by_key s.order))

filter_missing : List Str → List Str → List Str
unfolding member
filter_missing known [] = []
filter_missing known (k ∷ ks) =
    let kept = filter_missing known ks in if member k known then kept else k ∷ kept

unique_keys_from : List Str → List Str → List Str
unfolding member
unique_keys_from seen [] = []
unique_keys_from seen (k ∷ ks) =
    let skipped = unique_keys_from seen ks in
    let taken = k ∷ unique_keys_from (k ∷ seen) ks in if member k seen then skipped else taken

unfoldable pub local_ordered_keys : List Action → State → State → List Str
unfolding ordered_keys filter_missing unique_keys_from
local_ordered_keys by_key existing incoming =
    let incoming_keys = ordered_keys incoming by_key in
    let existing_only = filter_missing incoming_keys (ordered_keys existing by_key) in
    unique_keys_from [] (incoming_keys ++ existing_only)

-- `orderedKeys.map(key => byKey.get(key)).filter(Boolean)`
unfoldable pub pick_actions : List Action → List Str → List Action
pick_actions by_key [] = []
pick_actions by_key (k ∷ ks) =
    let rest = pick_actions by_key ks in elim (get k by_key) [ none ↦ rest | some a ↦ a ∷ rest ]

unfoldable pub with_rank : Action → Option Str → Action
with_rank a rank = normal_tag_action a.key a.indexes a.values a.tag_name a.base_tag a.timestamp rank

unfoldable pub rank_each : List Action → List Str → List Action
unfolding with_rank
rank_each [] ranks = []
rank_each (a ∷ more) [] = with_rank a none ∷ rank_each more []
rank_each (a ∷ more) (rank ∷ ranks) = with_rank a (some rank) ∷ rank_each more ranks

unfoldable pub keep_ranks : List Action → List Action
unfolding with_rank
keep_ranks [] = []
keep_ranks (a ∷ more) = with_rank a a.rank ∷ keep_ranks more

unfoldable pub assign_ranks : Bool → List Action → List Action
assign_ranks sync actions =
    if has_strictly_increasing_ranks (map (λ a. a.rank) actions)
    then keep_ranks actions
    else (let deterministic = if sync then sort le_identity_payload actions else actions in
        rank_each deterministic (rebalance_ranks (length deterministic)))

unfoldable pub order_normal_tags : Bool → List Action → State → State → List Action
order_normal_tags sync actions existing incoming =
    let keys =
      if sync then sync_ordered_keys actions else local_ordered_keys actions existing incoming in
    assign_ranks sync (pick_actions actions keys)
