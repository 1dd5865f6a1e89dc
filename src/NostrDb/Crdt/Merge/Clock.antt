-- ===== src/NostrDb/Crdt/Merge/Clock.antt =====
-- crdt.js, `mergedCreatedAt`: the time of a merged event.
use billion.Common.{
  ℕ, ◌+◌, ◌≤◌, ◌<◌, ◌≡◌, refl, ◌↔◌, true, false, Option, none, some, List, [], ◌∷◌, arith, max, All,
}
use billion.NostrDb.Crdt.Actions.{Event, Config, ContentAction, Action}
use billion.NostrDb.Crdt.Merge.{
  max_created_at, timestamps, maximum, within_limit, replaced_at, merged_created_at, Parts,
  merge_parts, template, template_tags, build_crdt_merge_template,
}

maximum-ge : (ns : List ℕ) (m : ℕ) → m ≤ maximum m ns
unfolding maximum
maximum-ge [] m = omega arith
maximum-ge (n ∷ ns) m = omega (arith, maximum-ge ns (max m n))

maximum-All : (ns : List ℕ) (m : ℕ) → All (λ n. n ≤ maximum m ns) ns
unfolding maximum
maximum-All [] m = tt
maximum-All (n ∷ ns) m = (omega (arith, maximum-ge ns (max m n)), maximum-All ns (max m n))

All-timestamps :
    (P : ℕ → Type 0) (xs : List Action) → All P (timestamps xs) → All (λ a. P a.timestamp) xs
All-timestamps P [] h = tt
All-timestamps P (a ∷ xs) h = (h.0, All-timestamps P xs h.1)

All-le :
    (xs : List Action) {m n : ℕ}
    → m ≤ n
    → All (λ a. a.timestamp ≤ m) xs
    → All (λ a. a.timestamp ≤ n) xs
All-le [] h k = tt
All-le (a ∷ xs) h k = (omega arith, All-le xs h k.1)

-- The facts that a time in sync mode satisfies.
pub record IsLatest (content : ContentAction) (tags tombstones : List Action) (t : ℕ) : Type 0 where
  pub content_before : content.timestamp ≤ t
  pub tags_before : All (λ a. a.timestamp ≤ t) tags
  pub tombstones_before : All (λ a. a.timestamp ≤ t) tombstones
  pub in_range : t ≤ max_created_at

within_limit-some : (n t : ℕ) → within_limit n ≡ some t → (n ≡ t) × (t ≤ max_created_at)
unfolding within_limit
within_limit-some n t h = ground arith

merged_created_at_sync :
    (incoming : Event) (existing : Option Event) (content : ContentAction)
    (tags tombstones : List Action) (config : Config) (t : ℕ)
    → config.sync ≡ true
    → merged_created_at incoming existing content tags tombstones config ≡ some t
    → IsLatest content tags tombstones t
unfolding merged_created_at
merged_created_at_sync incoming existing content tags tombstones config t sync h =
    let m : ℕ = maximum content.timestamp (timestamps tags) in
    let found : within_limit (maximum m (timestamps tombstones)) ≡ some t = ground arith in
    let (e, fits) = within_limit-some _ t found in
    record {
      content_before = omega (
        arith,
        maximum-ge (timestamps tags) content.timestamp,
        maximum-ge (timestamps tombstones) m,
      );
      tags_before =
          All-le tags (omega (arith, maximum-ge (timestamps tombstones) m))
            (All-timestamps _ tags (maximum-All (timestamps tags) content.timestamp));
      tombstones_before =
          All-le tombstones (omega arith)
            (All-timestamps _ tombstones (maximum-All (timestamps tombstones) m));
      in_range = fits;
    }

local_created_at :
    (incoming existing : Event) (content : ContentAction) (tags tombstones : List Action)
    (config : Config) (t : ℕ)
    → config.sync ≡ false
    → merged_created_at incoming (some existing) content tags tombstones config ≡ some t
    → (existing.created_at < t) × (incoming.created_at ≤ t) × (t ≤ max_created_at)
unfolding merged_created_at replaced_at within_limit
local_created_at incoming existing content tags tombstones config t local h = ground arith

local_created_at_none :
    (incoming existing : Event) (content : ContentAction) (tags tombstones : List Action)
    (config : Config)
    → config.sync ≡ false
    → (merged_created_at incoming (some existing) content tags tombstones config ≡ none)
      ↔ (max_created_at < max incoming.created_at (existing.created_at + 1))
unfolding merged_created_at replaced_at within_limit
local_created_at_none incoming existing content tags tombstones config local =
    (λ h. ground arith, λ h. ground arith)

template-some :
    (incoming merged : Event) (config : Config) (parts : Parts) (t : Option ℕ)
    → template incoming config parts t ≡ some merged
    → (t ≡ some merged.created_at)
      × (merged.kind ≡ incoming.kind)
      × (merged.pubkey ≡ incoming.pubkey)
      × (merged.tags ≡ template_tags config parts)
      × (merged.content ≡ parts.content.value)
unfolding template
template-some incoming merged config parts none h = ground arith
template-some incoming merged config parts (some t) h = ground arith

template-none :
    (incoming : Event) (config : Config) (parts : Parts) (t : Option ℕ)
    → (template incoming config parts t ≡ none) ↔ (t ≡ none)
unfolding template
template-none incoming config parts none = (λ h. refl, λ h. refl)
template-none incoming config parts (some t) = (λ h. ground arith, λ h. ground arith)

-- In local mode the merged event replaces the stored one: it is later than the stored event, no
-- earlier than the incoming one, its time fits in 32 bits, and it keeps the incoming kind and author.
pub build_crdt_merge_template-replaces :
    (incoming existing merged : Event) (config : Config)
    → config.sync ≡ false
    → build_crdt_merge_template incoming (some existing) config ≡ some merged
    → (existing.created_at < merged.created_at)
      × (incoming.created_at ≤ merged.created_at)
      × (merged.created_at ≤ max_created_at)
      × (merged.kind ≡ incoming.kind)
      × (merged.pubkey ≡ incoming.pubkey)
unfolding build_crdt_merge_template
build_crdt_merge_template-replaces incoming existing merged config local h =
    let parts : Parts = merge_parts incoming (some existing) config in
    let (time, kind, pubkey, _, _) = template-some incoming merged config parts _ h in
    let (later, no_earlier, fits) =
      local_created_at incoming existing parts.content parts.normal_tags parts.tombstones config
        merged.created_at local time in
    (later, no_earlier, fits, kind, pubkey)

-- In local mode a merge with a stored event fails exactly if the later of the incoming time and the
-- stored time plus one does not fit in 32 bits.
pub build_crdt_merge_template-none :
    (incoming existing : Event) (config : Config)
    → config.sync ≡ false
    → (build_crdt_merge_template incoming (some existing) config ≡ none)
      ↔ (max_created_at < max incoming.created_at (existing.created_at + 1))
unfolding build_crdt_merge_template
build_crdt_merge_template-none incoming existing config local =
    let parts : Parts = merge_parts incoming (some existing) config in
    let (to, from) = template-none incoming config parts _ in
    let (up, down) =
      local_created_at_none incoming existing parts.content parts.normal_tags parts.tombstones
        config local in
    (λ h. up (to h), λ h. from (down h))

-- In sync mode the merged event is as late as the winning content and each surviving tag and
-- tombstone, and its time fits in 32 bits.
pub build_crdt_merge_template-IsLatest :
    (incoming : Event) (existing : Option Event) (merged : Event) (config : Config)
    → config.sync ≡ true
    → build_crdt_merge_template incoming existing config ≡ some merged
    → let parts = merge_parts incoming existing config in
      IsLatest parts.content parts.normal_tags parts.tombstones merged.created_at
unfolding build_crdt_merge_template
build_crdt_merge_template-IsLatest incoming existing merged config sync h =
    let parts : Parts = merge_parts incoming existing config in
    let (time, _, _, _, _) = template-some incoming merged config parts _ h in
    merged_created_at_sync incoming existing parts.content parts.normal_tags parts.tombstones config
      merged.created_at sync time
