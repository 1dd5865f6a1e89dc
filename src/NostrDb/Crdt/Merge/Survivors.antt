-- ===== src/NostrDb/Crdt/Merge/Survivors.antt =====
-- crdt.js: which actions a merge keeps. Each identity has one survivor, which beats every action that
-- either event holds for it.
use mathlib.Core.Path.{subst}
use billion.Common.{◌≡◌, ap, false, ◌||◌, some, List, [], ◌∷◌, ◌++◌, All, arith, if_cases}
use billion.NostrDb.Crdt.Actions.{
  Event, Config, Action, get, set_all, cap_action_timestamp, tombstone_tag_name_for,
}
use billion.NostrDb.Crdt.Actions.Winning.{
  Beats, Covers, set_winning_action-Covers, set_winning_action-Covers_self, set_all-Covers,
  set_all-All,
}
use billion.NostrDb.Crdt.Actions.Distinct.{Distinct, set_winning_action-Distinct, set_all-Distinct}
use billion.NostrDb.Crdt.States.{State, tombstone_action, tombstone_action_from_deleted_tag}
use billion.NostrDb.Crdt.Merge.{has_action, delete_missing, merge_actions}

All-map :
    {P Q : Action → Type 0} (xs : List Action) → ((a : Action) → P a → Q a) → All P xs → All Q xs
All-map [] f h = tt
All-map (a ∷ xs) f h = (f a h.0, All-map xs f h.1)

-- The tags of the stored event that the incoming one neither holds nor deletes are gone for it.
abbrev Missing : State → Action → Type 0
Missing incoming a =
    (has_action a.key incoming.tags || has_action a.key incoming.tombstones) ≡ false

module _ (incoming : Event) (config : Config) (state : State) where
  delete_missing-Covers :
      (xs m : List Action) (a : Action)
      → Covers m a
      → Covers (delete_missing incoming config state xs m) a
  unfolding delete_missing
  delete_missing-Covers [] m a h = h
  delete_missing-Covers (x ∷ xs) m a h = delete_missing-Covers xs _ a (
      if_cases (λ n. Covers n a) (has_action x.key state.tags || has_action x.key state.tombstones)
        _ _ (λ present. h) (λ absent. set_winning_action-Covers m _ a h))

  delete_missing-Distinct :
      (xs m : List Action) → Distinct m → Distinct (delete_missing incoming config state xs m)
  unfolding delete_missing
  delete_missing-Distinct [] m d = d
  delete_missing-Distinct (x ∷ xs) m d = delete_missing-Distinct xs _ (
      if_cases Distinct (has_action x.key state.tags || has_action x.key state.tombstones) _ _
        (λ present. d) (λ absent. set_winning_action-Distinct m _ d))

  -- A missing tag's deletion takes part.
  abbrev Deleted : List Action → Action → Type 0
  Deleted m a = Missing state a → Covers m (tombstone_action_from_deleted_tag a incoming config)

  delete_missing-Deleted :
      (xs m : List Action) → All (Deleted (delete_missing incoming config state xs m)) xs
  unfolding delete_missing
  delete_missing-Deleted [] m = tt
  delete_missing-Deleted (x ∷ xs) m = (
    λ missing. delete_missing-Covers xs _ (tombstone_action_from_deleted_tag x incoming config) (
        if_cases (λ n. Covers n (tombstone_action_from_deleted_tag x incoming config))
          (has_action x.key state.tags || has_action x.key state.tombstones) _ _ (λ present. cc)
          (λ absent. set_winning_action-Covers_self m _)),
    delete_missing-Deleted xs _,
  )

set_all-keeps :
    (bs m : List Action) (xs : List Action) → All (Covers m) xs → All (Covers (set_all m bs)) xs
set_all-keeps bs m xs h = All-map xs (λ a. set_all-Covers bs m a) h

-- What a map of survivors owes to the two events.
pub record IsMerge (existing incoming : State) (m : List Action) : Type 0 where
  pub distinct : Distinct m
  pub stored_tags : All (Covers m) existing.tags
  pub stored_tombstones : All (Covers m) existing.tombstones
  pub incoming_tags : All (Covers m) incoming.tags
  pub incoming_tombstones : All (Covers m) incoming.tombstones

abbrev all_set : State → State → List Action
all_set existing incoming =
    set_all (set_all (set_all (set_all [] existing.tags) existing.tombstones) incoming.tags)
      incoming.tombstones

all_set-IsMerge :
    (existing incoming : State) → IsMerge existing incoming (all_set existing incoming)
all_set-IsMerge existing incoming =
    let m1 : List Action = set_all [] existing.tags in
    let m2 : List Action = set_all m1 existing.tombstones in
    let m3 : List Action = set_all m2 incoming.tags in
    record {
      distinct = set_all-Distinct incoming.tombstones m3 (
          set_all-Distinct incoming.tags m2
            (set_all-Distinct existing.tombstones m1 (set_all-Distinct existing.tags [] tt)));
      stored_tags = set_all-keeps incoming.tombstones m3 existing.tags (
          set_all-keeps incoming.tags m2 existing.tags
            (set_all-keeps existing.tombstones m1 existing.tags (set_all-All existing.tags [])));
      stored_tombstones =
          set_all-keeps incoming.tombstones m3 existing.tombstones (
            set_all-keeps incoming.tags m2 existing.tombstones
              (set_all-All existing.tombstones m1));
      incoming_tags =
          set_all-keeps incoming.tombstones m3 incoming.tags (set_all-All incoming.tags m2);
      incoming_tombstones = set_all-All incoming.tombstones m3;
    }

-- In either mode each identity has one survivor, and for every tag and tombstone of the two events
-- there is a survivor on its identity that beats it: a newer one, or as new with a payload that is no
-- smaller.
pub merge_actions-IsMerge :
    (incoming : Event) (config : Config) (existing_state incoming_state : State)
    → IsMerge existing_state incoming_state
        (merge_actions incoming config existing_state incoming_state)
unfolding merge_actions
merge_actions-IsMerge incoming config existing incoming_state =
    if_cases (IsMerge existing incoming_state) config.sync _ _
      (λ sync. all_set-IsMerge existing incoming_state)
      (λ local.
        let v : IsMerge existing incoming_state (all_set existing incoming_state) =
          all_set-IsMerge existing incoming_state in
        let keep = λ (a : Action) (h : Covers (all_set existing incoming_state) a).
          delete_missing-Covers incoming config incoming_state existing.tags _ a h in
        record {
          distinct =
              delete_missing-Distinct incoming config incoming_state existing.tags _ v.distinct;
          stored_tags = All-map existing.tags keep v.stored_tags;
          stored_tombstones = All-map existing.tombstones keep v.stored_tombstones;
          incoming_tags = All-map incoming_state.tags keep v.incoming_tags;
          incoming_tombstones = All-map incoming_state.tombstones keep v.incoming_tombstones;
        })

All-at :
    (P : Action → Type 0) (front : List Action) (a : Action) (back : List Action)
    → All P (front ++ a ∷ back)
    → P a
All-at P [] a back h = h.0
All-at P (x ∷ front) a back h = All-at P front a back h.1

-- A local merge dates the deletion of a missing tag at the incoming event: the cap lies above that.
deleted_at_incoming :
    (a : Action) (incoming : Event) (config : Config)
    → config.sync ≡ false
    → tombstone_action_from_deleted_tag a incoming config
      ≡ tombstone_action a.key a.indexes a.values
          (tombstone_tag_name_for a.tag_name config)
          incoming.created_at
unfolding tombstone_action_from_deleted_tag cap_action_timestamp
deleted_at_incoming a incoming config local =
    ap (tombstone_action a.key a.indexes a.values (tombstone_tag_name_for a.tag_name config))
      (ground (arith, local))

-- In local mode, for every stored tag whose identity the incoming event neither holds nor deletes, the
-- survivor on that identity beats the tombstone with the tag's identity, indexes and values that is dated
-- exactly at the incoming event: it is newer than the incoming event, or as new with a payload that is no
-- smaller than the tombstone's.
pub merge_actions-Deleted :
    (incoming : Event) (config : Config) (existing_state incoming_state : State)
    (front : List Action) (a : Action) (back : List Action)
    → config.sync ≡ false
    → existing_state.tags ≡ front ++ a ∷ back
    → (has_action a.key incoming_state.tags || has_action a.key incoming_state.tombstones) ≡ false
    → (w : Action) × (get a.key (merge_actions incoming config existing_state incoming_state)
        ≡ some w)
      × Beats w (
          tombstone_action a.key a.indexes a.values
            (tombstone_tag_name_for a.tag_name config)
            incoming.created_at)
unfolding merge_actions tombstone_action
merge_actions-Deleted incoming config existing incoming_state front a back local split missing =
    let m : List Action = merge_actions incoming config existing incoming_state in
    let all : All (Deleted incoming config incoming_state m) existing.tags =
      if_cases (λ n. All (Deleted incoming config incoming_state n) existing.tags) config.sync _ _
        (λ sync. cc)
        (λ off. delete_missing-Deleted incoming config incoming_state existing.tags _) in
    subst (Covers m) (deleted_at_incoming a incoming config local) (
      All-at (Deleted incoming config incoming_state m) front a back
        (subst (All (Deleted incoming config incoming_state m)) split all) missing)
