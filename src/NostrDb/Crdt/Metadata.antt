-- ===== src/NostrDb/Crdt/Metadata.antt =====
-- crdt.js, `parseMetadataFields` and what reads a tag's "~" values.
pub mod RoundTrip
use billion.Common.{
  ℕ, zero, suc, Bool, true, false, ◌&&◌, Option, none, some, List, [], ◌∷◌, ◌++◌, ◌==◌,
  if◌then◌else◌, length,
}
use billion.Common.Text.{Str, codes}
use billion.Common.Decimal.{decimal, parse_safe}
use billion.NostrDb.Crdt.Ranks.{is_valid_rank}

pub record Metadata : Type 0 where
  pub timestamp : Option ℕ
  pub rank : Option Str
  pub indexes : List ℕ

pub add_first : ℕ → List Str → List Str
add_first c [] = (c ∷ []) ∷ []
add_first c (part ∷ parts) = (c ∷ part) ∷ parts

-- `text.split(separator)`
unfoldable pub split_on : ℕ → Str → List Str
unfolding add_first
split_on separator [] = [] ∷ []
split_on separator (c ∷ cs) =
    let parts = split_on separator cs in if c == separator then [] ∷ parts else add_first c parts

-- The value of a part `k=value` whose name is `k` alone; a part without a value is no field.
unfoldable pub part_field : ℕ → Str → Option Str
part_field k (c ∷ d ∷ v ∷ value) = if (c == k) && (d == b'=') then some (v ∷ value) else none
part_field k part = none

-- `fields.get(k)`: of several fields with one name the last one counts.
unfoldable pub find_field : ℕ → List Str → Option Str
find_field k [] = none
find_field k (part ∷ parts) = elim (find_field k parts) [
  | some value ↦ some value
  | none ↦ part_field k part
]

pub parse_index_list : List Str → Option (List ℕ)
parse_index_list [] = some []
parse_index_list (part ∷ parts) = elim (parse_safe part) [
  | none ↦ none
  | some n ↦ elim (parse_index_list parts) [ none ↦ none | some ns ↦ some (n ∷ ns) ]
]

unfoldable pub parse_index_field : Option Str → List ℕ
parse_index_field none = []
parse_index_field (some value) = elim (parse_index_list (split_on b',' value)) [
  | none ↦ []
  | some ns ↦ ns
]

unfoldable pub parse_rank : Option Str → Option Str
parse_rank none = none
parse_rank (some value) = if is_valid_rank value then some value else none

unfoldable pub parse_timestamp : Option Str → Option ℕ
parse_timestamp none = none
parse_timestamp (some value) = parse_safe value

-- `parseMetadataFields(value, { prefixed: false })`
unfoldable pub parse_unprefixed : Str → Option Metadata
parse_unprefixed [] = none
parse_unprefixed (c ∷ cs) =
    let parts = split_on b';' (c ∷ cs) in
    some (record {
      timestamp = parse_timestamp (find_field b'u' parts);
      rank = parse_rank (find_field b'o' parts);
      indexes = parse_index_field (find_field b'i' parts);
    })

-- `parseMetadataFields(value)`
unfoldable pub parse_prefixed : Str → Option Metadata
parse_prefixed [] = none
parse_prefixed (c ∷ cs) = if c == b'~' then parse_unprefixed cs else none

unfoldable pub starts_reserved : Str → Bool
starts_reserved [] = false
starts_reserved (c ∷ cs) = c == b'~'

-- `tagMetadata`. A bare "~" parses to null, and `null?.timestamp !== null` holds: it ends the search.
unfoldable pub tag_metadata : List Str → Option Metadata
tag_metadata [] = none
tag_metadata (value ∷ rest) =
    let later = tag_metadata rest in
    if starts_reserved value
    then elim (parse_prefixed value) [
      | none ↦ none
      | some metadata ↦ elim metadata.timestamp [ none ↦ later | some t ↦ some metadata ]
    ]
    else later

-- `stripReservedMetadataValues`
unfoldable pub strip_reserved : List Str → List Str
strip_reserved [] = []
strip_reserved (value ∷ rest) =
    let kept = strip_reserved rest in if starts_reserved value then kept else value ∷ kept

unfoldable pub join_decimals : ℕ → List ℕ → Str
join_decimals separator [] = []
join_decimals separator (n ∷ []) = decimal n
join_decimals separator (n ∷ m ∷ rest) =
    decimal n ++ (separator ∷ join_decimals separator (m ∷ rest))

unfoldable pub serialize_normal_metadata : ℕ → Option Str → Str
serialize_normal_metadata timestamp none = codes "~u=" ++ decimal timestamp
serialize_normal_metadata timestamp (some rank) =
    codes "~u=" ++ (decimal timestamp ++ (codes ";o=" ++ rank))

unfoldable pub serialize_tombstone_metadata : ℕ → List ℕ → Str
unfolding join_decimals
serialize_tombstone_metadata timestamp indexes =
    codes "~u=" ++ (decimal timestamp ++ (codes ";i=" ++ join_decimals b',' indexes))

unfoldable pub serialize_content_metadata : ℕ → Str
serialize_content_metadata timestamp = codes "u=" ++ decimal timestamp
