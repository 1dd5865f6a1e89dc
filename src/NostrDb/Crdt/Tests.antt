-- ===== src/NostrDb/Crdt/Tests.antt =====
-- The theorems about crdt.js at concrete inputs.
use billion.Common.{
  ℕ, ◌+◌, ◌++◌, ◌||◌, ◌≤◌, ◌<◌, ◌≡◌, refl, ◌↔◌, true, false, Option, none, some, List, [], ◌∷◌,
  arith, leb, map, length, max,
}
use billion.Common.Text.{Str, codes, str_eq, str_ge}
use billion.Common.Decimal.{decimal}
use billion.Common.Json.{stringify}
use billion.Common.Sorting.{sort}
use billion.NostrDb.Crdt.Ordering.{
  has_unique_valid_ranks, le_identity_payload, le_tombstone, sync_ordered_keys, ordered_keys,
  local_ordered_keys, pick_actions, with_rank, rank_each, keep_ranks, assign_ranks,
  order_normal_tags,
}
use billion.NostrDb.Crdt.Tombstones.{
  encode_values, decode_values, ends_dash, swallowed, decode_values-encode_values,
  length-decode_values,
}
use billion.NostrDb.Crdt.Ranks.{
  is_valid_rank, format_rank, rank_value, rebalance_ranks, has_strictly_increasing_ranks,
}
use billion.NostrDb.Crdt.Ranks.Format.{rank_value-format_rank, format_rank-is_valid_rank}
use billion.NostrDb.Crdt.Ranks.Spacing.{rebalance_ranks-increasing}
use billion.NostrDb.Crdt.Ranks.Order.{str_ge-rank_value}
use billion.NostrDb.Crdt.Metadata.{
  parse_prefixed, parse_unprefixed, tag_metadata, starts_reserved, strip_reserved, split_on,
  find_field, part_field, parse_timestamp, parse_rank, parse_index_field, join_decimals,
  serialize_normal_metadata, serialize_tombstone_metadata, serialize_content_metadata,
}
use billion.NostrDb.Crdt.Metadata.RoundTrip.{
  parse_prefixed-serialize_normal_metadata, parse_prefixed-serialize_tombstone_metadata,
}
use billion.NostrDb.Crdt.Actions.{
  Action, Event, Config, winning_action, winning_content, get, put, set_winning_action, set_all,
  identity_key, normal_tag_action, cap_action_timestamp, identity_indexes, tombstone_tag_name_for,
  values_at_indexes, winner,
}
use billion.NostrDb.Crdt.Actions.Winning.{Beats}
use billion.NostrDb.Crdt.Options.{Options, normalize_crdt_options}
use billion.NostrDb.Crdt.States.{
  empty_state, tombstone_action, tombstone_action_from_deleted_tag, add_tag, add_tags,
  content_or_default, event_state,
}
use billion.NostrDb.Crdt.Merge.{
  max_created_at, has_action, delete_missing, merge_actions, keep_tags, keep_deletions,
  merged_created_at, merge_parts, template_tags, build_crdt_merge_template,
}
use billion.NostrDb.Crdt.Merge.Clock.{
  IsLatest, build_crdt_merge_template-replaces, build_crdt_merge_template-none,
  build_crdt_merge_template-IsLatest,
}
use billion.NostrDb.Crdt.Merge.Survivors.{IsMerge, merge_actions-IsMerge, merge_actions-Deleted}

abbrev tag_values : List Str
tag_values = codes "a-b^" ∷ [] ∷ codes "c-" ∷ []

tag_values_swallowed : swallowed (codes "a-b^" ∷ [] ∷ codes "c-" ∷ []) ≡ 0
unfolding swallowed ends_dash
tag_values_swallowed = refl

decode_values-encode_values_example : decode_values (encode_values tag_values) ≡ tag_values
decode_values-encode_values_example =
    decode_values-encode_values (codes "a-b^") ([] ∷ codes "c-" ∷ []) tag_values_swallowed

-- Two values come back as one.
length-decode_values_example :
    length (decode_values (encode_values (codes "a-" ∷ codes "b" ∷ [])))
      + swallowed (codes "a-" ∷ codes "b" ∷ [])
    ≡ 2
length-decode_values_example = length-decode_values (codes "a-") (codes "b" ∷ [])

merged_pair : decode_values (encode_values (codes "a-" ∷ codes "b" ∷ [])) ≡ codes "a^b" ∷ []
unfolding decode_values encode_values
merged_pair = refl

rank_value-format_rank_example : rank_value (format_rank 1295) ≡ 1295
rank_value-format_rank_example = rank_value-format_rank 1295 (omega arith)

rebalance_ranks-increasing_example :
    (has_strictly_increasing_ranks (map some (rebalance_ranks 3)) ≡ true)
    × (length (rebalance_ranks 3) ≡ 3)
rebalance_ranks-increasing_example = rebalance_ranks-increasing 3 (omega arith)

str_ge-rank_value_example :
    str_ge (format_rank 40) (format_rank 7)
    ≡ leb (rank_value (format_rank 7)) (rank_value (format_rank 40))
str_ge-rank_value_example =
    str_ge-rank_value (format_rank 40) (format_rank 7) (format_rank-is_valid_rank 40 (omega arith))
      (format_rank-is_valid_rank 7 (omega arith))

parse_prefixed-serialize_normal_metadata_example :
    parse_prefixed (serialize_normal_metadata 1700000000 (some (format_rank 40)))
    ≡ some (record { timestamp = some 1700000000; rank = some (format_rank 40); indexes = [] })
parse_prefixed-serialize_normal_metadata_example =
    parse_prefixed-serialize_normal_metadata 1700000000 (format_rank 40) (omega arith)
      (format_rank-is_valid_rank 40 (omega arith))

parse_prefixed-serialize_tombstone_metadata_example :
    parse_prefixed (serialize_tombstone_metadata 1700000000 (0 ∷ 12 ∷ []))
    ≡ some (record { timestamp = some 1700000000; rank = none; indexes = 0 ∷ 12 ∷ [] })
parse_prefixed-serialize_tombstone_metadata_example =
    parse_prefixed-serialize_tombstone_metadata 1700000000 0 (12 ∷ []) (omega arith) (omega arith)
      (omega arith)

abbrev options : Option Str → Options
options source = record {
  tag_identity = none;
  tombstone_grace_seconds = none;
  max_tombstone_tags = none;
  tombstone_tag_name = none;
  merge_source = source;
  now = some 1000;
}

abbrev local : Config
local = record {
  default_indexes = 0 ∷ 1 ∷ [];
  indexes_by_name = (codes "imkc", 0 ∷ []) ∷ [];
  tombstone_grace_seconds = 1814400;
  max_tombstone_tags = 100;
  default_tombstone_name = codes "zz";
  tombstone_name_by_name = [];
  sync = false;
  now = 1000;
}

local-options : normalize_crdt_options (options none) 7 ≡ local
unfolding normalize_crdt_options
local-options = refl

abbrev synced : Config
synced = record local { sync = true }

-- The stored event has two tags; the incoming one, later, has lost the second.
abbrev stored : Event
stored = record {
  kind = 30000;
  pubkey = codes "ab";
  created_at = 900;
  tags = (codes "p" ∷ codes "x" ∷ []) ∷ (codes "p" ∷ codes "y" ∷ []) ∷ [];
  content = codes "old";
}

abbrev incoming : Event
incoming = record stored {
  created_at = 950;
  tags = (codes "p" ∷ codes "x" ∷ []) ∷ [];
  content = codes "new";
}

-- The merge of the two: the kept tag, the content's marker, and the tombstone of the lost tag.
abbrev merged : Event
merged = record incoming {
  tags =
      (codes "p" ∷ codes "x" ∷ codes "~u=950;o=i0000000" ∷ [])
      ∷ (codes "~" ∷ codes "u=950" ∷ [])
      ∷ (codes "zz" ∷ codes "p^y" ∷ codes "~u=950;i=0,1" ∷ [])
      ∷ [];
}

merging : Unit {0}
unfolding encode_values is_valid_rank format_rank rebalance_ranks has_strictly_increasing_ranks
    parse_prefixed parse_unprefixed tag_metadata starts_reserved strip_reserved split_on find_field
    part_field parse_timestamp parse_rank parse_index_field join_decimals serialize_normal_metadata
    serialize_tombstone_metadata serialize_content_metadata winning_action get put
    set_winning_action set_all identity_key normal_tag_action cap_action_timestamp identity_indexes
    tombstone_tag_name_for values_at_indexes empty_state tombstone_action
    tombstone_action_from_deleted_tag add_tag add_tags content_or_default event_state le_tombstone
    ordered_keys local_ordered_keys pick_actions with_rank rank_each keep_ranks assign_ranks
    order_normal_tags has_action delete_missing merge_actions keep_tags keep_deletions
    merged_created_at merge_parts template_tags build_crdt_merge_template winning_content winner
    decimal stringify sort str_eq str_ge
merging = tt

merged_test : build_crdt_merge_template incoming (some stored) local ≡ some merged
unfolding merging
merged_test = refl

build_crdt_merge_template-replaces_example :
    (900 < 950)
    × (950 ≤ 950)
    × (950 ≤ max_created_at)
    × (◌≡◌ {A = ℕ} 30000 30000)
    × (codes "ab" ≡ codes "ab")
build_crdt_merge_template-replaces_example =
    build_crdt_merge_template-replaces incoming stored merged local refl merged_test

build_crdt_merge_template-none_example :
    (build_crdt_merge_template incoming (some stored) local ≡ none)
    ↔ (max_created_at < max 950 (900 + 1))
build_crdt_merge_template-none_example = build_crdt_merge_template-none incoming stored local refl

abbrev merged_synced : Event
merged_synced = record incoming {
  tags =
      (codes "p" ∷ codes "x" ∷ codes "~u=950;o=c0000000" ∷ [])
      ∷ (codes "p" ∷ codes "y" ∷ codes "~u=900;o=o0000000" ∷ [])
      ∷ (codes "~" ∷ codes "u=950" ∷ [])
      ∷ [];
}

merged_synced_test : build_crdt_merge_template incoming (some stored) synced ≡ some merged_synced
unfolding merging le_identity_payload sync_ordered_keys has_unique_valid_ranks
merged_synced_test = refl

build_crdt_merge_template-IsLatest_example :
    let parts = merge_parts incoming (some stored) synced in
    IsLatest parts.content parts.normal_tags parts.tombstones 950
build_crdt_merge_template-IsLatest_example =
    build_crdt_merge_template-IsLatest incoming (some stored) merged_synced synced refl
      merged_synced_test

merge_actions-IsMerge_example :
    IsMerge
      (event_state stored local)
      (event_state incoming local)
      (merge_actions incoming local (event_state stored local) (event_state incoming local))
merge_actions-IsMerge_example =
    merge_actions-IsMerge incoming local (event_state stored local) (event_state incoming local)

abbrev kept_action : Action
kept_action =
    normal_tag_action (identity_key (0 ∷ 1 ∷ []) (codes "p" ∷ codes "x" ∷ [])) (0 ∷ 1 ∷ [])
      (codes "p" ∷ codes "x" ∷ []) (codes "p") (codes "p" ∷ codes "x" ∷ []) 900 none

-- The tag that the incoming event has lost.
abbrev lost_action : Action
lost_action =
    normal_tag_action (identity_key (0 ∷ 1 ∷ []) (codes "p" ∷ codes "y" ∷ [])) (0 ∷ 1 ∷ [])
      (codes "p" ∷ codes "y" ∷ []) (codes "p") (codes "p" ∷ codes "y" ∷ []) 900 none

stored_split : (event_state stored local).tags ≡ (kept_action ∷ []) ++ lost_action ∷ []
unfolding merging
stored_split = refl

lost_is_missing :
    (has_action lost_action.key (event_state incoming local).tags
      || has_action lost_action.key (event_state incoming local).tombstones)
    ≡ false
unfolding merging
lost_is_missing = refl

merge_actions-Deleted_example :
    (w : Action) × (get lost_action.key
        (merge_actions incoming local (event_state stored local) (event_state incoming local))
      ≡ some w)
    × Beats w (
        tombstone_action lost_action.key lost_action.indexes lost_action.values
          (tombstone_tag_name_for lost_action.tag_name local)
          950)
merge_actions-Deleted_example =
    merge_actions-Deleted incoming local (event_state stored local) (event_state incoming local)
      (kept_action ∷ []) lost_action [] refl stored_split lost_is_missing
