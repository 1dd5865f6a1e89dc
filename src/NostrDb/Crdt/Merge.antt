-- ===== src/NostrDb/Crdt/Merge.antt =====
-- crdt.js, `buildCrdtMergeTemplate`: the event to sign that merges an incoming version of an event
-- with the stored one.
pub mod Clock
pub mod Survivors
use billion.Common.{
  ℕ, zero, suc, ◌+◌, ◌≤◌, Bool, true, false, not, ◌&&◌, ◌||◌, Option, none, some, List, [], ◌∷◌,
  ◌++◌, map, ltb, leb, ◌==◌, max, if◌then◌else◌, length,
}
use billion.Common.Text.{Str, codes, str_eq}
use billion.Common.Sorting.{sort}
use billion.NostrDb.Crdt.Metadata.{serialize_content_metadata}
use billion.NostrDb.Crdt.Actions.{
  Event, Config, ContentAction, Action, or_winner, winning_content, set_winning_action, set_all,
}
use billion.NostrDb.Crdt.States.{
  State, empty_state, event_state, content_or_default, tombstone_action_from_deleted_tag,
}
use billion.NostrDb.Crdt.Ordering.{le_tombstone, order_normal_tags}

abbrev pub max_created_at : ℕ
max_created_at = 0xffffffff

unfoldable pub has_action : Str → List Action → Bool
has_action k [] = false
has_action k (a ∷ more) = str_eq a.key k || has_action k more

-- The loop over the stored tags that the incoming event neither holds nor deletes.
unfoldable pub delete_missing : Event → Config → State → List Action → List Action → List Action
delete_missing incoming config state [] m = m
delete_missing incoming config state (a ∷ more) m = delete_missing incoming config state more (
    if has_action a.key state.tags || has_action a.key state.tombstones
    then m
    else set_winning_action m (tombstone_action_from_deleted_tag a incoming config))

-- `tagActions`, once every loop over it has run.
unfoldable pub merge_actions : Event → Config → State → State → List Action
merge_actions incoming config existing_state incoming_state =
    let merged =
      set_all
        (set_all (set_all (set_all [] existing_state.tags) existing_state.tombstones)
          incoming_state.tags)
        incoming_state.tombstones in
    if config.sync
    then merged
    else delete_missing incoming config incoming_state existing_state.tags merged

unfoldable pub keep_tags : List Action → List Action
keep_tags [] = []
keep_tags (a ∷ more) = let rest = keep_tags more in if a.deletes then rest else a ∷ rest

unfoldable pub keep_deletions : List Action → List Action
keep_deletions [] = []
keep_deletions (a ∷ more) = let rest = keep_deletions more in if a.deletes then a ∷ rest else rest

abbrev pub timestamps : List Action → List ℕ
timestamps = map (λ a. a.timestamp)

pub maximum : ℕ → List ℕ → ℕ
maximum m [] = m
maximum m (n ∷ ns) = maximum (max m n) ns

pub within_limit : ℕ → Option ℕ
within_limit n = if leb n max_created_at then some n else none

replaced_at : ℕ → Option Event → Option ℕ
unfolding within_limit
replaced_at created_at none = some created_at
replaced_at created_at (some existing) = within_limit (max created_at (existing.created_at + 1))

unfoldable pub merged_created_at :
    Event → Option Event → ContentAction → List Action → List Action → Config → Option ℕ
unfolding maximum within_limit replaced_at
merged_created_at incoming existing content normal_tags tombstones config =
    if config.sync
    then within_limit
        (maximum (maximum content.timestamp (timestamps normal_tags)) (timestamps tombstones))
    else replaced_at incoming.created_at existing

pub take : ℕ → List Action → List Action
take zero more = []
take (suc n) [] = []
take (suc n) (a ∷ more) = a ∷ take n more

pub existing_state_of : Option Event → Config → State
existing_state_of none config = empty_state
existing_state_of (some existing) config = event_state existing config

-- Every state that `eventState` returns has a content.
pub merged_content : Event → Config → State → State → ContentAction
merged_content incoming config existing_state incoming_state =
    or_winner winning_content existing_state.content
      (content_or_default incoming config incoming_state.content)

-- The locals `content`, `orderedNormalTags` and `tombstones` of `buildCrdtMergeTemplate`.
pub record Parts : Type 0 where
  pub content : ContentAction
  pub normal_tags : List Action
  pub tombstones : List Action

unfoldable pub merge_parts : Event → Option Event → Config → Parts
unfolding existing_state_of merge_actions merged_content
merge_parts incoming existing config =
    let incoming_state = event_state incoming config in
    let existing_state = existing_state_of existing config in
    let actions = merge_actions incoming config existing_state incoming_state in
    record {
      content = merged_content incoming config existing_state incoming_state;
      normal_tags = order_normal_tags config.sync (keep_tags actions) existing_state incoming_state;
      tombstones = sort le_tombstone (keep_deletions actions);
    }

unfoldable pub template_tags : Config → Parts → List (List Str)
unfolding take
template_tags config parts =
    map (λ a. a.tag) parts.normal_tags
    ++ ((codes "~" ∷ serialize_content_metadata parts.content.timestamp ∷ [])
        ∷ map (λ a. a.tag) (take config.max_tombstone_tags parts.tombstones))

template : Event → Config → Parts → Option ℕ → Option Event
template incoming config parts none = none
template incoming config parts (some created_at) = some (record {
  kind = incoming.kind;
  pubkey = incoming.pubkey;
  created_at = created_at;
  tags = template_tags config parts;
  content = parts.content.value;
})

unfoldable pub build_crdt_merge_template : Event → Option Event → Config → Option Event
unfolding template
build_crdt_merge_template incoming existing config =
    let parts = merge_parts incoming existing config in
    template incoming config parts
      (merged_created_at incoming existing parts.content parts.normal_tags parts.tombstones config)
