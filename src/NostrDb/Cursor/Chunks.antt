-- ===== src/NostrDb/Cursor/Chunks.antt =====
-- recovery-cursor.js: what one chunk does to the rows after its checkpoint.
use billion.Common.{
  ℕ, zero, suc, ◌+◌, ◌<◌, ◌≡◌, refl, sym, ap, ◌∙◌, inl, inr, Bool, true, false, some, List, [], ◌∷◌,
  ◌++◌, leb, if◌then◌else◌, if_cases, if_true, if_false, Bool-cases, length, count_if, arith,
}
use billion.NostrDb.Cursor.{Row, Chunk, chunk_size, position_of, matched_by, scan_rows}

module _ {K V : Type 0} (stored : V → Bool) where
  -- The rows up to the one that is the last of so many matches.
  unfoldable pub needed : ℕ → List (Row K V) → List (Row K V)
  needed zero rows = []
  needed (suc k) [] = []
  needed (suc k) (r ∷ rs) = r ∷ (if stored r.value then needed k rs else needed (suc k) rs)

  abbrev pub matches : List (Row K V) → ℕ
  matches rs = count_if (λ (r : Row K V). stored r.value) rs

  -- What a chunk resolves with, where `k + 1` matches are missing: it is the last one, or the scan goes on
  -- after its last row.
  pub data Part (limit examined matched k : ℕ) (rows : List (Row K V)) (c : Chunk K V)
      : Type 0 where
    last :
        c.done ≡ true
        → c.seen ≡ needed (suc k) rows
        → c.examined ≡ examined + length c.seen
        → c.matched ≡ matched + matches c.seen
        → Part limit examined matched k rows c
    more :
        (xs : List (Row K V)) (x : Row K V) (ys : List (Row K V)) (j : ℕ)
        → c.done ≡ false
        → c.seen ≡ xs ++ x ∷ []
        → c.resume ≡ some (position_of x)
        → rows ≡ xs ++ x ∷ ys
        → needed (suc k) rows ≡ c.seen ++ needed (suc j) ys
        → limit ≡ c.matched + suc j
        → c.examined ≡ examined + length c.seen
        → c.matched ≡ matched + matches c.seen
        → Part limit examined matched k rows c

  -- A row that is examined before the chunk's others.
  extend :
      (limit examined matched k m i : ℕ) (r : Row K V) (rs : List (Row K V)) (c : Chunk K V)
      → m ≡ matched_by stored matched r
      → needed (suc k) (r ∷ rs) ≡ r ∷ needed (suc i) rs
      → Part limit (examined + 1) m i rs c
      → Part limit examined matched k (r ∷ rs) (record c { seen = r ∷ c.seen })
  unfolding count_if matched_by
  extend limit examined matched k m i r rs c hm hn (last d s e t) =
      last d (ap (λ xs. r ∷ xs) s ∙ sym hn) (omega (arith, e)) (ground (arith, t, hm))
  extend limit examined matched k m i r rs c hm hn (more xs x ys j d s p w n l e t) =
      more (r ∷ xs) x ys j d (ap (λ zs. r ∷ zs) s) p (ap (λ zs. r ∷ zs) w)
        (hn ∙ ap (λ zs. r ∷ zs) n) l (omega (arith, e)) (ground (arith, t, hm))

  abbrev Scans : ℕ → ℕ → ℕ → ℕ → List (Row K V) → Type 0
  Scans limit examined matched k rows =
      Part limit examined matched k rows (scan_rows stored limit examined matched rows)

  matched_one :
      (matched : ℕ) (r : Row K V) → matched_by stored matched r ≡ matched + matches (r ∷ [])
  unfolding matched_by count_if
  matched_one matched r = ground arith

  -- A row that leaves `i + 1` matches missing.
  scan_on :
      (limit examined matched k i : ℕ) (r : Row K V) (rs : List (Row K V))
      → limit ≡ matched_by stored matched r + suc i
      → needed (suc k) (r ∷ rs) ≡ r ∷ needed (suc i) rs
      → (examined + 1 < chunk_size → Scans limit (examined + 1) (matched_by stored matched r) i rs)
      → Scans limit examined matched k (r ∷ rs)
  unfolding scan_rows count_if
  scan_on limit examined matched k i r rs hl hn ih =
      let m : ℕ = matched_by stored matched r in
      if_cases (Part limit examined matched k (r ∷ rs)) (leb limit m) _ _
        (λ e. absurd (ground (arith, e, hl)))
        (λ e.
          if_cases (Part limit examined matched k (r ∷ rs)) (leb chunk_size (examined + 1)) _ _
            (λ f. more [] r rs i refl refl refl refl hn hl (omega arith) (matched_one matched r))
            (λ f. extend limit examined matched k m i r rs _ refl hn (ih (ground (arith, f)))))

  matched_match :
      (matched : ℕ) (r : Row K V)
      → stored r.value ≡ true
      → matched_by stored matched r ≡ matched + 1
  unfolding matched_by
  matched_match matched r h = ground (arith, h)

  matched_miss :
      (matched : ℕ) (r : Row K V) → stored r.value ≡ false → matched_by stored matched r ≡ matched
  unfolding matched_by
  matched_miss matched r h = ground (arith, h)

  needed_match :
      (k : ℕ) (r : Row K V) (rs : List (Row K V))
      → stored r.value ≡ true
      → needed (suc k) (r ∷ rs) ≡ r ∷ needed k rs
  unfolding needed
  needed_match k r rs h = ap (λ zs. r ∷ zs) (if_true _ _ h)

  needed_miss :
      (k : ℕ) (r : Row K V) (rs : List (Row K V))
      → stored r.value ≡ false
      → needed (suc k) (r ∷ rs) ≡ r ∷ needed (suc k) rs
  unfolding needed
  needed_miss k r rs h = ap (λ zs. r ∷ zs) (if_false _ _ h)

  -- The row that is the last match.
  stop :
      (limit examined matched : ℕ) (r : Row K V) (rs : List (Row K V))
      → limit ≡ matched + 1
      → stored r.value ≡ true
      → Scans limit examined matched zero (r ∷ rs)
  unfolding scan_rows needed
  stop limit examined matched r rs hl h =
      let one : matched_by stored matched r ≡ matched + 1 = matched_match matched r h in
      if_cases (Part limit examined matched zero (r ∷ rs)) (leb limit (matched_by stored matched r))
        _ _ (λ e. last refl (sym (needed_match zero r rs h)) (omega arith) (matched_one matched r))
        (λ e. absurd (ground (arith, e, hl, one)))

  pub scan_rows-Part :
      (limit examined matched k : ℕ) (rows : List (Row K V))
      → limit ≡ matched + suc k
      → examined < chunk_size
      → Scans limit examined matched k rows
  unfolding scan_rows needed count_if
  scan_rows-Part limit examined matched k [] hl he = last refl refl (omega arith) (omega arith)
  scan_rows-Part limit examined matched zero (r ∷ rs) hl he = elim (Bool-cases (stored r.value)) [
    | inl h ↦ stop limit examined matched r rs hl h
    | inr h ↦
        let m : ℕ = matched_by stored matched r in
        let same : m ≡ matched = matched_miss matched r h in
        scan_on limit examined matched zero zero r rs (omega (arith, hl, same))
          (needed_miss zero r rs h)
          (λ less. scan_rows-Part limit (examined + 1) m zero rs (omega (arith, hl, same)) less)
  ]
  scan_rows-Part limit examined matched (suc k) (r ∷ rs) hl he =
      elim (Bool-cases (stored r.value)) [
        | inl h ↦
            let m : ℕ = matched_by stored matched r in
            let more_by : m ≡ matched + 1 = matched_match matched r h in
            scan_on limit examined matched (suc k) k r rs (omega (arith, hl, more_by))
              (needed_match (suc k) r rs h)
              (λ less. scan_rows-Part limit (examined + 1) m k rs (omega (arith, hl, more_by)) less)
        | inr h ↦
            let m : ℕ = matched_by stored matched r in
            let same : m ≡ matched = matched_miss matched r h in
            scan_on limit examined matched (suc k) (suc k) r rs (omega (arith, hl, same))
              (needed_miss (suc k) r rs h)
              (λ less.
                scan_rows-Part limit (examined + 1) m (suc k) rs (omega (arith, hl, same)) less)
      ]
