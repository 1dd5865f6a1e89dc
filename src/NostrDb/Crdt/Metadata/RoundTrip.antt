-- ===== src/NostrDb/Crdt/Metadata/RoundTrip.antt =====
-- crdt.js: what the serializers of "~" metadata write, `parseMetadataFields` reads back.
use billion.Common.{
  ℕ, ◌≤◌, ◌≡◌, refl, ◌∙◌, ap, true, false, Option, none, some, List, [], ◌∷◌, ◌++◌, arith, ◌==◌,
  All,
}
use billion.Common.Text.{Str, codes, lacks, is_nonempty}
use billion.Common.Decimal.{
  decimal, max_safe_integer, is_decimal-decimal, is_decimal-lacks, parse_safe-decimal,
  is_decimal-is_nonempty,
}
use billion.NostrDb.Crdt.Ranks.{is_valid_rank}
use billion.NostrDb.Crdt.Ranks.Format.{is_valid_rank-lacks}
use billion.NostrDb.Crdt.Metadata.{
  Metadata, split_on, part_field, find_field, parse_index_list, parse_index_field, parse_rank,
  parse_timestamp, parse_unprefixed, parse_prefixed, serialize_normal_metadata,
  serialize_tombstone_metadata, serialize_content_metadata, join_decimals,
}

split_on-lacks : (s : ℕ) (cs : Str) → lacks s cs ≡ true → split_on s cs ≡ cs ∷ []
unfolding split_on
split_on-lacks s [] h = refl
split_on-lacks s (c ∷ cs) h = ground (arith, split_on-lacks s cs)

split_on-append :
    (s : ℕ) (cs rest : Str) → lacks s cs ≡ true → split_on s (cs ++ s ∷ rest) ≡ cs ∷ split_on s rest
unfolding split_on
split_on-append s [] rest h = ground arith
split_on-append s (c ∷ cs) rest h = ground (arith, split_on-append s cs rest)

part_field_lem :
    (k : ℕ) (value : Str) → is_nonempty value ≡ true → part_field k (k ∷ b'=' ∷ value) ≡ some value
unfolding part_field
part_field_lem k [] h = ground arith
part_field_lem k (v ∷ value) h = ground arith

part_field-other :
    (j k : ℕ) (value : Str) → (k == j) ≡ false → part_field j (k ∷ b'=' ∷ value) ≡ none
unfolding part_field
part_field-other j k [] h = refl
part_field-other j k (v ∷ value) h = ground arith

-- What the parts of the text give.
abbrev of_parts : List Str → Option Metadata
of_parts parts = some (record {
  timestamp = parse_timestamp (find_field b'u' parts);
  rank = parse_rank (find_field b'o' parts);
  indexes = parse_index_field (find_field b'i' parts);
})

parse_unprefixed_lem :
    (c : ℕ) (cs : Str) (parts : List Str)
    → split_on b';' (c ∷ cs) ≡ parts
    → parse_unprefixed (c ∷ cs) ≡ of_parts parts
unfolding parse_unprefixed
parse_unprefixed_lem c cs parts h = ap of_parts h

decimal-field : (n : ℕ) → part_field b'u' (codes "u=" ++ decimal n) ≡ some (decimal n)
decimal-field n = part_field_lem b'u' (decimal n) (is_decimal-is_nonempty _ (is_decimal-decimal n))

decimal-lacks : (n : ℕ) → lacks b';' (codes "u=" ++ decimal n) ≡ true
decimal-lacks n = is_decimal-lacks b';' (decimal n) refl (is_decimal-decimal n)

parse_timestamp-decimal :
    (n : ℕ) → n ≤ max_safe_integer → parse_timestamp (some (decimal n)) ≡ some n
unfolding parse_timestamp
parse_timestamp-decimal n h = parse_safe-decimal n h

parse_rank-none : parse_rank none ≡ none
unfolding parse_rank
parse_rank-none = refl

parse_index_field-none : parse_index_field none ≡ []
unfolding parse_index_field
parse_index_field-none = refl

-- One part: the update time.
of_parts_time :
    (n : ℕ)
    → n ≤ max_safe_integer
    → of_parts ((codes "u=" ++ decimal n) ∷ [])
      ≡ some (record { timestamp = some n; rank = none; indexes = [] })
unfolding find_field
of_parts_time n h = ground (
  arith,
  decimal-field n,
  parse_timestamp-decimal n h,
  part_field-other b'o' b'u' (decimal n) refl,
  part_field-other b'i' b'u' (decimal n) refl,
  parse_rank-none,
  parse_index_field-none,
)

-- Two parts: the update time and a rank.
of_parts_rank :
    (n : ℕ) (rank : Str)
    → n ≤ max_safe_integer
    → is_nonempty rank ≡ true
    → parse_rank (some rank) ≡ some rank
    → of_parts ((codes "u=" ++ decimal n) ∷ (codes "o=" ++ rank) ∷ [])
      ≡ some (record { timestamp = some n; rank = some rank; indexes = [] })
unfolding find_field
of_parts_rank n rank h filled valid = ground (
  arith,
  decimal-field n,
  parse_timestamp-decimal n h,
  part_field_lem b'o' rank filled,
  part_field-other b'u' b'o' rank refl,
  part_field-other b'i' b'o' rank refl,
  part_field-other b'o' b'u' (decimal n) refl,
  part_field-other b'i' b'u' (decimal n) refl,
  parse_index_field-none,
)

-- Two parts: the update time and an index list.
of_parts_indexes :
    (n : ℕ) (text : Str) (indexes : List ℕ)
    → n ≤ max_safe_integer
    → is_nonempty text ≡ true
    → parse_index_field (some text) ≡ indexes
    → of_parts ((codes "u=" ++ decimal n) ∷ (codes "i=" ++ text) ∷ [])
      ≡ some (record { timestamp = some n; rank = none; indexes = indexes })
unfolding find_field
of_parts_indexes n text indexes h filled read = ground (
  arith,
  decimal-field n,
  parse_timestamp-decimal n h,
  part_field_lem b'i' text filled,
  part_field-other b'u' b'i' text refl,
  part_field-other b'o' b'i' text refl,
  part_field-other b'o' b'u' (decimal n) refl,
  part_field-other b'i' b'u' (decimal n) refl,
  parse_rank-none,
)

parse_rank-valid : (rank : Str) → is_valid_rank rank ≡ true → parse_rank (some rank) ≡ some rank
unfolding parse_rank
parse_rank-valid rank h = ground arith

-- A content marker's time is read back.
pub parse_unprefixed-serialize_content_metadata :
    (timestamp : ℕ)
    → timestamp ≤ max_safe_integer
    → parse_unprefixed (serialize_content_metadata timestamp)
      ≡ some (record { timestamp = some timestamp; rank = none; indexes = [] })
unfolding serialize_content_metadata
parse_unprefixed-serialize_content_metadata timestamp h =
    parse_unprefixed_lem b'u' _ _ (split_on-lacks b';' _ (decimal-lacks timestamp))
    ∙ of_parts_time timestamp h

-- A ranked tag's time and rank are read back.
pub parse_prefixed-serialize_normal_metadata :
    (timestamp : ℕ) (rank : Str)
    → timestamp ≤ max_safe_integer
    → is_valid_rank rank ≡ true
    → parse_prefixed (serialize_normal_metadata timestamp (some rank))
      ≡ some (record { timestamp = some timestamp; rank = some rank; indexes = [] })
unfolding parse_prefixed serialize_normal_metadata
parse_prefixed-serialize_normal_metadata timestamp rank h valid =
    let (lacking, filled) = is_valid_rank-lacks rank valid in
    parse_unprefixed_lem b'u' _ _ (
      split_on-append b';' (codes "u=" ++ decimal timestamp) (codes "o=" ++ rank)
        (decimal-lacks timestamp)
      ∙ ap (λ parts. (codes "u=" ++ decimal timestamp) ∷ parts)
          (split_on-lacks b';' (codes "o=" ++ rank) lacking))
    ∙ of_parts_rank timestamp rank h filled (parse_rank-valid rank valid)

parse_index_list-join :
    (i : ℕ) (is : List ℕ)
    → i ≤ max_safe_integer
    → All (λ n. n ≤ max_safe_integer) is
    → parse_index_list (split_on b',' (join_decimals b',' (i ∷ is))) ≡ some (i ∷ is)
unfolding parse_index_list join_decimals
parse_index_list-join i [] h hs =
    rw
      (split_on-lacks b',' (decimal i)
        (is_decimal-lacks b',' (decimal i) refl (is_decimal-decimal i)))
      (ground (arith, parse_safe-decimal i h))
parse_index_list-join i (j ∷ is) h hs =
    rw
      (split_on-append b',' (decimal i) (join_decimals b',' (j ∷ is))
        (is_decimal-lacks b',' (decimal i) refl (is_decimal-decimal i)))
      (ground (arith, parse_safe-decimal i h, parse_index_list-join j is hs.0 hs.1))

parse_index_field-join :
    (i : ℕ) (is : List ℕ)
    → i ≤ max_safe_integer
    → All (λ n. n ≤ max_safe_integer) is
    → parse_index_field (some (join_decimals b',' (i ∷ is))) ≡ i ∷ is
unfolding parse_index_field
parse_index_field-join i is h hs = rw (parse_index_list-join i is h hs, parse_index_field)

lacks-append :
    (s : ℕ) (cs ds : Str) → lacks s cs ≡ true → lacks s ds ≡ true → lacks s (cs ++ ds) ≡ true
lacks-append s [] ds h k = k
lacks-append s (c ∷ cs) ds h k = ground (arith, lacks-append s cs ds)

is_nonempty-append : (cs ds : Str) → is_nonempty cs ≡ true → is_nonempty (cs ++ ds) ≡ true
is_nonempty-append [] ds h = ground arith
is_nonempty-append (c ∷ cs) ds h = refl

join_decimals-lacks :
    (i : ℕ) (is : List ℕ)
    → (lacks b';' (join_decimals b',' (i ∷ is)) ≡ true)
      × (is_nonempty (join_decimals b',' (i ∷ is)) ≡ true)
unfolding join_decimals
join_decimals-lacks i [] = (
  is_decimal-lacks b';' (decimal i) refl (is_decimal-decimal i),
  is_decimal-is_nonempty _ (is_decimal-decimal i),
)
join_decimals-lacks i (j ∷ is) = (
  lacks-append b';' (decimal i) _ (is_decimal-lacks b';' (decimal i) refl (is_decimal-decimal i))
      (join_decimals-lacks j is).0,
  is_nonempty-append (decimal i) _ (is_decimal-is_nonempty _ (is_decimal-decimal i)),
)

-- A tombstone's time and index list are read back.
pub parse_prefixed-serialize_tombstone_metadata :
    (timestamp i : ℕ) (is : List ℕ)
    → timestamp ≤ max_safe_integer
    → i ≤ max_safe_integer
    → All (λ n. n ≤ max_safe_integer) is
    → parse_prefixed (serialize_tombstone_metadata timestamp (i ∷ is))
      ≡ some (record { timestamp = some timestamp; rank = none; indexes = i ∷ is })
unfolding parse_prefixed serialize_tombstone_metadata
parse_prefixed-serialize_tombstone_metadata timestamp i is h hi his =
    let text : Str = join_decimals b',' (i ∷ is) in
    let (lacking, filled) = join_decimals-lacks i is in
    parse_unprefixed_lem b'u' _ _ (
      split_on-append b';' (codes "u=" ++ decimal timestamp) (codes "i=" ++ text)
        (decimal-lacks timestamp)
      ∙ ap (λ parts. (codes "u=" ++ decimal timestamp) ∷ parts)
          (split_on-lacks b';' (codes "i=" ++ text) lacking))
    ∙ of_parts_indexes timestamp text (i ∷ is) h filled (parse_index_field-join i is hi his)
