-- ===== src/NostrDb/Crdt/States.antt =====
-- crdt.js, `eventState`: the actions that an event's tags and content stand for.
use billion.Common.{
  ℕ, ◌+◌, Bool, true, false, ◌||◌, Option, none, some, List, [], ◌∷◌, ◌++◌, ltb, ◌==◌,
  if◌then◌else◌, length,
}
use billion.Common.Text.{Str, codes, str_eq}
use billion.Common.Json.{stringify}
use billion.NostrDb.Crdt.Tombstones.{encode_values, decode_values}
use billion.NostrDb.Crdt.Metadata.{
  Metadata, parse_unprefixed, parse_prefixed, tag_metadata, strip_reserved,
  serialize_tombstone_metadata,
}
use billion.NostrDb.Crdt.Actions.{
  Event, Config, ContentAction, Action, or_winner, winning_content, set_winning_action,
  normal_tag_action, cap_action_timestamp, identity_indexes, values_at_indexes, identity_key,
  tombstone_tag_name_for,
}

-- `order` gives each key of a normal tag its position.
pub record State : Type 0 where
  pub tags : List Action
  pub tombstones : List Action
  pub order : List (Str × ℕ)
  pub content : Option ContentAction

unfoldable pub empty_state : State
empty_state = record { tags = []; tombstones = []; order = []; content = none }

unfoldable pub tombstone_action : Str → List ℕ → List Str → Str → ℕ → Action
tombstone_action key indexes values tag_name timestamp =
    let tag : List Str =
      tag_name ∷ encode_values values ∷ serialize_tombstone_metadata timestamp indexes ∷ [] in
    record {
      deletes = true;
      key = key;
      indexes = indexes;
      values = values;
      tag_name = tag_name;
      base_tag = [];
      timestamp = timestamp;
      rank = none;
      tag = tag;
      payload = stringify tag;
    }

record Tombstone : Type 0 where
  timestamp : ℕ
  indexes : List ℕ
  values : List Str

read_tombstone : List Str → Option ℕ → List ℕ → Option Tombstone
read_tombstone values none indexes = none
read_tombstone values (some t) [] = none
read_tombstone values (some t) (i ∷ is) =
    if length values == length (i ∷ is)
    then some (record { timestamp = t; indexes = i ∷ is; values = values })
    else none

-- `parseTombstoneTag` of a tag that `isTombstoneTag` holds of.
parse_tombstone_tag : List Str → Option Tombstone
unfolding read_tombstone
parse_tombstone_tag (name ∷ encoded ∷ fields ∷ rest) = elim (parse_prefixed fields) [
  | none ↦ none
  | some m ↦ read_tombstone (decode_values encoded) m.timestamp m.indexes
]
parse_tombstone_tag tag = none

-- `a - b > c` on integers is `b + c < a`.
is_stale : Event → ℕ → Config → Bool
is_stale event timestamp config =
    ltb (timestamp + config.tombstone_grace_seconds)
      (if config.sync then event.created_at else config.now)

tag_name : List Str → Str
tag_name [] = []
tag_name (name ∷ rest) = name

pub tombstone_action_from_tag : List Str → Event → Config → Option Action
unfolding parse_tombstone_tag is_stale tag_name
tombstone_action_from_tag tag event config = elim (parse_tombstone_tag tag) [
  | none ↦ none
  | some parsed ↦
      let timestamp = cap_action_timestamp parsed.timestamp event config in
      if is_stale event timestamp config
      then none
      else some (
          tombstone_action (identity_key parsed.indexes parsed.values) parsed.indexes parsed.values
            (tag_name tag) timestamp)
]

unfoldable pub tombstone_action_from_deleted_tag : Action → Event → Config → Action
tombstone_action_from_deleted_tag action incoming config =
    tombstone_action action.key action.indexes action.values
      (tombstone_tag_name_for action.tag_name config)
      (cap_action_timestamp incoming.created_at incoming config)

has_key : Str → List (Str × ℕ) → Bool
has_key k [] = false
has_key k ((j, i) ∷ rest) = str_eq j k || has_key k rest

-- `if (!state.order.has(key)) state.order.set(key, state.order.size)`
note_order : Str → List (Str × ℕ) → List (Str × ℕ)
unfolding has_key
note_order k order = if has_key k order then order else order ++ (k, length order) ∷ []

set_content : Option ContentAction → ContentAction → Option ContentAction
set_content old new = some (or_winner winning_content old new)

add_content_marker : Event → Config → State → Option Metadata → State
unfolding set_content
add_content_marker event config s none = s
add_content_marker event config s (some m) = elim m.timestamp [
  | none ↦ s
  | some t ↦ record s {
    content =
        set_content s.content
          (record { value = event.content; timestamp = cap_action_timestamp t event config });
  }
]

add_tombstone : Event → Config → State → List Str → State
add_tombstone event config s tag = elim (tombstone_action_from_tag tag event config) [
  | none ↦ s
  | some action ↦ record s { tombstones = set_winning_action s.tombstones action }
]

metadata_timestamp : Option Metadata → Option ℕ
metadata_timestamp none = none
metadata_timestamp (some m) = m.timestamp

metadata_rank : Option Metadata → Option Str
metadata_rank none = none
metadata_rank (some m) = m.rank

given_or : Option ℕ → ℕ → ℕ
given_or none d = d
given_or (some t) d = t

normal_action : Event → Config → List Str → Str → List Str → Action
unfolding metadata_timestamp metadata_rank given_or
normal_action event config tag name rest =
    let metadata = tag_metadata tag in
    let indexes = identity_indexes name config in
    let values = values_at_indexes (name ∷ rest) indexes in
    normal_tag_action (identity_key indexes values) indexes values name (name ∷ rest)
      (cap_action_timestamp (given_or (metadata_timestamp metadata) event.created_at) event config)
      (metadata_rank metadata)

-- `base` is the tag without its "~" values; an empty one is skipped.
add_normal_tag : Event → Config → State → List Str → List Str → State
unfolding normal_action note_order
add_normal_tag event config s tag [] = s
add_normal_tag event config s tag (name ∷ rest) =
    let action = normal_action event config tag name rest in
    record s { tags = set_winning_action s.tags action; order = note_order action.key s.order }

is_tombstone_tag : Str → Bool
is_tombstone_tag name = str_eq name (codes "z") || str_eq name (codes "zz")

add_named_tag : Event → Config → State → Str → List Str → State
unfolding add_content_marker add_tombstone add_normal_tag is_tombstone_tag
add_named_tag event config s name [] =
    if is_tombstone_tag name
    then add_tombstone event config s (name ∷ [])
    else add_normal_tag event config s (name ∷ []) (strip_reserved (name ∷ []))
add_named_tag event config s name (value ∷ rest) =
    if str_eq name (codes "~")
    then add_content_marker event config s (parse_unprefixed value)
    else if is_tombstone_tag name
    then add_tombstone event config s (name ∷ value ∷ rest)
    else add_normal_tag event config s (name ∷ value ∷ rest) (strip_reserved (name ∷ value ∷ rest))

-- One round of the loop over the tags.
unfoldable pub add_tag : Event → Config → State → List Str → State
unfolding add_named_tag
add_tag event config s [] = s
add_tag event config s (name ∷ rest) = add_named_tag event config s name rest

unfoldable pub add_tags : Event → Config → State → List (List Str) → State
add_tags event config s [] = s
add_tags event config s (tag ∷ tags) = add_tags event config (add_tag event config s tag) tags

unfoldable pub content_or_default : Event → Config → Option ContentAction → ContentAction
content_or_default event config none = record {
  value = event.content;
  timestamp = cap_action_timestamp event.created_at event config;
}
content_or_default event config (some content) = content

unfoldable pub event_state : Event → Config → State
event_state event config =
    let s = add_tags event config empty_state event.tags in
    record s { content = some (content_or_default event config s.content) }
