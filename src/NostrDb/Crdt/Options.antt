-- ===== src/NostrDb/Crdt/Options.antt =====
-- crdt.js, `normalizeCrdtOptions`: the caller's options with the defaults put in. `none` stands for
-- an option that is absent or of another type than the code accepts.
use billion.Common.{
  ℕ, Bool, false, ◌||◌, Option, none, some, List, [], ◌∷◌, ltb, ◌==◌, if◌then◌else◌,
}
use billion.Common.Text.{Str, codes, str_eq}
use billion.NostrDb.Crdt.Actions.{Config}

-- An index list as given: an entry that is no natural number is `none`.
pub record TagIdentity : Type 0 where
  pub default : List (Option ℕ)
  pub by_name : List (Str × List (Option ℕ))

pub record TombstoneTagName : Type 0 where
  pub default : Option Str
  pub by_name : List (Str × Option Str)

pub record Options : Type 0 where
  pub tag_identity : Option TagIdentity
  pub tombstone_grace_seconds : Option ℕ
  pub max_tombstone_tags : Option ℕ
  pub tombstone_tag_name : Option TombstoneTagName
  pub merge_source : Option Str
  pub now : Option ℕ

-- Insertion into a sorted list without repetition: `new Set`, then the numeric sort.
insert_once : ℕ → List ℕ → List ℕ
insert_once n [] = n ∷ []
insert_once n (m ∷ ms) =
    if n == m then m ∷ ms else if ltb n m then n ∷ m ∷ ms else m ∷ insert_once n ms

pub normalize_index_list : List (Option ℕ) → List ℕ
unfolding insert_once
normalize_index_list [] = []
normalize_index_list (none ∷ rest) = normalize_index_list rest
normalize_index_list (some n ∷ rest) = insert_once n (normalize_index_list rest)

-- `map.set(name, value)`
set_name {ℓ} : {A : Type ℓ} → Str → A → List (Str × A) → List (Str × A)
set_name name v [] = (name, v) ∷ []
set_name name v ((k, w) ∷ rest) =
    if str_eq k name then (k, v) ∷ rest else (k, w) ∷ set_name name v rest

set_unless_empty : Str → List ℕ → List (Str × List ℕ) → List (Str × List ℕ)
unfolding set_name
set_unless_empty name [] m = m
set_unless_empty name (i ∷ is) m = set_name name (i ∷ is) m

add_identities : List (Str × List ℕ) → List (Str × List (Option ℕ)) → List (Str × List ℕ)
unfolding set_unless_empty
add_identities m [] = m
add_identities m ((name, indexes) ∷ rest) =
    add_identities (set_unless_empty name (normalize_index_list indexes) m) rest

or_default : List ℕ → List ℕ
or_default [] = 0 ∷ 1 ∷ []
or_default (i ∷ is) = i ∷ is

pub normalize_tag_identity : Option TagIdentity → List ℕ × List (Str × List ℕ)
unfolding add_identities or_default normalize_index_list
normalize_tag_identity none = (0 ∷ 1 ∷ [], (codes "imkc", 0 ∷ []) ∷ [])
normalize_tag_identity (some given) = (
  or_default (normalize_index_list given.default),
  add_identities ((codes "imkc", 0 ∷ []) ∷ []) given.by_name,
)

is_tombstone_name : Str → Bool
is_tombstone_name name = str_eq name (codes "z") || str_eq name (codes "zz")

add_names : List (Str × Str) → List (Str × Option Str) → List (Str × Str)
unfolding set_name is_tombstone_name
add_names m [] = m
add_names m ((name, none) ∷ rest) = add_names m rest
add_names m ((name, some value) ∷ rest) =
    add_names (if is_tombstone_name value then set_name name value m else m) rest

or_zz : Option Str → Str
unfolding is_tombstone_name
or_zz none = codes "zz"
or_zz (some name) = if is_tombstone_name name then name else codes "zz"

pub normalize_tombstone_tag_name : Option TombstoneTagName → Str × List (Str × Str)
unfolding add_names or_zz
normalize_tombstone_tag_name none = (codes "zz", [])
normalize_tombstone_tag_name (some given) = (or_zz given.default, add_names [] given.by_name)

or_else {ℓ} : {A : Type ℓ} → Option A → A → A
or_else none d = d
or_else (some a) d = a

is_sync : Option Str → Bool
is_sync none = false
is_sync (some source) = str_eq source (codes "sync")

-- The clock, in seconds, is the second argument.
unfoldable pub normalize_crdt_options : Options → ℕ → Config
unfolding normalize_tag_identity normalize_tombstone_tag_name or_else is_sync
normalize_crdt_options options clock =
    let (default_indexes, indexes_by_name) = normalize_tag_identity options.tag_identity in
    let (default_name, name_by_name) = normalize_tombstone_tag_name options.tombstone_tag_name in
    record {
      default_indexes = default_indexes;
      indexes_by_name = indexes_by_name;
      tombstone_grace_seconds = or_else options.tombstone_grace_seconds 1814400;
      max_tombstone_tags = or_else options.max_tombstone_tags 100;
      default_tombstone_name = default_name;
      tombstone_name_by_name = name_by_name;
      sync = is_sync options.merge_source;
      now = or_else options.now clock;
    }
