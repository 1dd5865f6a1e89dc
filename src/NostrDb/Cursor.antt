-- ===== src/NostrDb/Cursor.antt =====
-- src/services/idb/nostrdb/recovery-cursor.js: `scanRecoveryCursorChunks` scans an index in chunks, each in
-- a transaction of its own that starts again where the last one stopped. The rows of the index are a list
-- in the order of the cursor's direction; `stored` is what `onStored` answers; the signal is asked for
-- before each chunk, and an abort in the middle of a chunk is not modelled.
pub mod Chunks
pub mod Equivalence
mod Tests
use billion.Common.{
  ℕ, zero, suc, ◌+◌, ◌-◌, Bool, true, false, ◌||◌, Option, none, some, List, [], ◌∷◌, ◌++◌, leb,
  ◌==◌, if◌then◌else◌, length,
}

abbrev pub chunk_size : ℕ
chunk_size = 64

-- The sign of a comparison.
pub data Order : Type 0 where
  before same after : Order

pub data Direction : Type 0 where
  next prev : Direction

pub record Row (K V : Type 0) : Type 0 where
  pub key : K
  pub primary_key : K
  pub value : V

-- A checkpoint.
pub record Position (K : Type 0) : Type 0 where
  pub index_key : K
  pub primary_key : K

pub reverse : Order → Order
reverse before = after
reverse same = same
reverse after = before

pub or_else : Order → Order → Order
or_else before o = before
or_else same o = o
or_else after o = after

pub directed : Direction → Order → Order
unfolding reverse
directed next o = o
directed prev o = reverse o

-- What a chunk resolves with, and the rows that it passed to `onStored`.
pub record Chunk (K V : Type 0) : Type 0 where
  pub done : Bool
  pub examined : ℕ
  pub matched : ℕ
  pub resume : Option (Position K)
  pub seen : List (Row K V)

-- What `onChunk` is told, less the time that passed.
pub record Report : Type 0 where
  pub chunk_index : ℕ
  pub examined : ℕ
  pub matched : ℕ
  pub resumed : Bool
  pub done : Bool

pub data Status : Type 0 where
  finished aborted out_of_fuel : Status

pub record Total (K V : Type 0) : Type 0 where
  pub chunks : ℕ
  pub examined : ℕ
  pub matched : ℕ
  pub seen : List (Row K V)
  pub reports : List Report

pub is_resumed {ℓ} : {A : Type ℓ} → Option A → Bool
is_resumed none = false
is_resumed (some a) = true

module _ {K V : Type 0} where
  pub position_of : Row K V → Position K
  position_of r = record { index_key = r.key; primary_key = r.primary_key }

  pub no_rows : Total K V
  no_rows = record { chunks = 0; examined = 0; matched = 0; seen = []; reports = [] }

  pub add_chunk : Option (Position K) → Chunk K V → Total K V → Total K V
  unfolding is_resumed
  add_chunk resume c t = record {
    chunks = t.chunks + 1;
    examined = t.examined + c.examined;
    matched = t.matched + c.matched;
    seen = t.seen ++ c.seen;
    reports =
        t.reports
        ++ record {
          chunk_index = t.chunks + 1;
          examined = c.examined;
          matched = c.matched;
          resumed = is_resumed resume;
          done = c.done;
        }
          ∷ [];
  }

  module _ (compare : K → K → Order) (direction : Direction) where
    -- `compareCursorPosition`
    pub compare_position : Row K V → Position K → Order
    unfolding directed or_else
    compare_position r c =
        directed direction
          (or_else (compare r.key c.index_key) (compare r.primary_key c.primary_key))

  module _ (stored : V → Bool) where
    pub matched_by : ℕ → Row K V → ℕ
    matched_by matched r = if stored r.value then matched + 1 else matched

    -- The rows of a chunk once the checkpoint is behind the cursor.
    pub scan_rows : ℕ → ℕ → ℕ → List (Row K V) → Chunk K V
    unfolding position_of matched_by
    scan_rows limit examined matched [] = record {
      done = true;
      examined = examined;
      matched = matched;
      resume = none;
      seen = [];
    }
    scan_rows limit examined matched (r ∷ rs) =
        let m : ℕ = matched_by matched r in
        let rest : Chunk K V = scan_rows limit (examined + 1) m rs in
        if leb limit m
        then record {
          done = true;
          examined = examined + 1;
          matched = m;
          resume = none;
          seen = r ∷ [];
        }
        else if leb chunk_size (examined + 1)
        then record {
          done = false;
          examined = examined + 1;
          matched = m;
          resume = some (position_of r);
          seen = r ∷ [];
        }
        else record rest { seen = r ∷ rest.seen }

    module _ (order : Row K V → Position K → Order) where
      -- The cursor up to the checkpoint; `continuePrimaryKey` passes the rows before it one by one.
      pub scan_resumed : ℕ → Position K → List (Row K V) → Chunk K V
      unfolding scan_rows
      scan_resumed limit c [] = scan_rows limit 0 0 []
      scan_resumed limit c (r ∷ rs) = elim (order r c) [
        | before ↦ scan_resumed limit c rs
        | same ↦ scan_rows limit 0 0 rs
        | after ↦ scan_rows limit 0 0 (r ∷ rs)
      ]

      -- `scanChunk`
      pub scan_chunk : ℕ → Option (Position K) → List (Row K V) → Chunk K V
      unfolding scan_resumed
      scan_chunk limit none rows = scan_rows limit 0 0 rows
      scan_chunk limit (some c) rows = scan_resumed limit c rows

      module _ (is_aborted : ℕ → Bool) (limit : ℕ) (rows : List (Row K V)) where
        -- The loop of `scanRecoveryCursorChunks`, with the rounds left.
        pub scan_loop : ℕ → Option (Position K) → Total K V → Status × Total K V
        unfolding scan_chunk add_chunk
        scan_loop zero resume t = (out_of_fuel, t)
        scan_loop (suc rounds) resume t =
            let c : Chunk K V = scan_chunk (limit - t.matched) resume rows in
            let u : Total K V = add_chunk resume c t in
            let rest : Status × Total K V = scan_loop rounds c.resume u in
            if is_aborted t.chunks
            then (aborted, t)
            else if c.done || leb limit u.matched
            then (finished, u)
            else rest

        -- Each chunk but the last examines a row, so there is at most one more chunk than rows.
        pub scan_recovery_cursor_chunks : Status × Total K V
        unfolding scan_loop no_rows
        scan_recovery_cursor_chunks =
            if limit == 0 then (finished, no_rows) else scan_loop (suc (length rows)) none no_rows
