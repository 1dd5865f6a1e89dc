-- ===== src/Accounts/Pages/Windows.antt =====
-- account-event-pages.js: the filters that the generator yields cover the filter it was given.
use mathlib.Core.Path.{subst}
use billion.Common.{
  ℕ, zero, suc, ◌+◌, ◌*◌, ◌≤◌, ◌<◌, ◌≡◌, refl, sym, inl, inr, ◌⊎◌, Bool, false, ◌&&◌, ◌||◌, Option,
  none, some, List, [], ◌∷◌, arith, ltb, leb, ◌==◌, Bool-cases, if_cases, length, ltb→lt,
}
use billion.Common.Text.{Str, str_eq}
use billion.Accounts.Pages.{
  Filter, Report, eose, satisfied, failed, Page, take, drop, half, middle, split, finished, threw,
  Run, Turn, throws, yields, divides, or_yields, turn_of, turn, emit, run, volume,
  account_event_pages, is_eose,
}

pub has_author : List Str → Str → Bool
has_author [] a = false
has_author (x ∷ xs) a = str_eq x a || has_author xs a

pub has_kind : List ℕ → ℕ → Bool
has_kind [] k = false
has_kind (x ∷ xs) k = x == k || has_kind xs k

-- Whether the filter asks for an author's events of a kind at a second.
pub asks_for : Str → ℕ → ℕ → Filter → Bool
unfolding has_author has_kind
asks_for a k t f = leb f.since t && leb t f.until && has_author f.authors a && has_kind f.kinds k

pub one_asks_for : Str → ℕ → ℕ → List Filter → Bool
unfolding asks_for
one_asks_for a k t [] = false
one_asks_for a k t (f ∷ fs) = asks_for a k t f || one_asks_for a k t fs

has_author-halves :
    (a : Str) (n : ℕ) (xs : List Str)
    → (has_author (drop n xs) a || has_author (take n xs) a) ≡ has_author xs a
unfolding has_author take drop
has_author-halves a zero xs = ground arith
has_author-halves a (suc n) [] = refl
has_author-halves a (suc n) (x ∷ xs) = ground (arith, has_author-halves a n xs)

has_kind-halves :
    (k n : ℕ) (xs : List ℕ) → (has_kind (drop n xs) k || has_kind (take n xs) k) ≡ has_kind xs k
unfolding has_kind take drop
has_kind-halves k zero xs = ground arith
has_kind-halves k (suc n) [] = refl
has_kind-halves k (suc n) (x ∷ xs) = ground (arith, has_kind-halves k n xs)

-- The division leaves seconds on both sides.
pub middle-bounds :
    (oldest : Option ℕ) (since until : ℕ)
    → since < until
    → (since ≤ middle oldest since until) × (middle oldest since until < until)
unfolding middle
middle-bounds none since until h = omega arith
middle-bounds (some oldest) since until h =
    if_cases (λ m. (since ≤ m) × (m < until)) (leb since oldest && leb oldest until) _ _
      (λ e. ground arith) (λ e. omega arith)

-- How `split` divides a filter: a window of several seconds, else several authors, else several kinds.
pub data Divided (f : Filter) (oldest : Option ℕ) (r : Filter × Filter) : Type 0 where
  in_time :
      f.since < f.until
      → (
        record f { until = middle oldest f.since f.until },
        record f { since = middle oldest f.since f.until + 1 },
      )
        ≡ r
      → Divided f oldest r
  in_authors :
      1 < length f.authors
      → (
        record f { authors = drop (half (length f.authors)) f.authors },
        record f { authors = take (half (length f.authors)) f.authors },
      )
        ≡ r
      → Divided f oldest r
  in_kinds :
      1 < length f.kinds
      → (
        record f { kinds = drop (half (length f.kinds)) f.kinds },
        record f { kinds = take (half (length f.kinds)) f.kinds },
      )
        ≡ r
      → Divided f oldest r

split-Divided :
    (f : Filter) (oldest : Option ℕ) (r : Filter × Filter)
    → split f oldest ≡ some r
    → Divided f oldest r
unfolding split
split-Divided f oldest r h = elim (Bool-cases (ltb f.since f.until)) [
  | inl e ↦ in_time (ltb→lt f.since f.until e) (ground arith)
  | inr e ↦ elim (Bool-cases (ltb 1 (length f.authors))) [
    | inl g ↦ in_authors (ltb→lt 1 (length f.authors) g) (ground arith)
    | inr g ↦ elim (Bool-cases (ltb 1 (length f.kinds))) [
      | inl k ↦ in_kinds (ltb→lt 1 (length f.kinds) k) (ground arith)
      | inr k ↦ ground arith
    ]
  ]
]

or_yields-divides :
    (o : Option (Filter × Filter)) (a b : Filter) → or_yields o ≡ divides a b → o ≡ some (a, b)
unfolding or_yields
or_yields-divides none a b h = ground arith
or_yields-divides (some (x, y)) a b h = ground arith

turn_of-divides :
    (f : Filter) (page : Page) (r : Report) (a b : Filter)
    → turn_of f page r ≡ divides a b
    → Divided f page.oldest (a, b)
unfolding turn_of is_eose
turn_of-divides f page eose a b h =
    split-Divided f page.oldest (a, b) (or_yields-divides (split f page.oldest) a b (ground arith))
turn_of-divides f page satisfied a b h =
    split-Divided f page.oldest (a, b) (or_yields-divides (split f page.oldest) a b (ground arith))
turn_of-divides f page failed a b h = ground arith

pub turn-Divided :
    (f : Filter) (page : Page) (a b : Filter)
    → turn f page ≡ divides a b
    → Divided f page.oldest (a, b)
unfolding turn
turn-Divided f page a b h = turn_of-divides f page page.report a b h

-- The two filters ask for what the divided one asked for.
asks_for-Divided :
    (x : Str) (k t : ℕ) (f : Filter) (oldest : Option ℕ) (r : Filter × Filter)
    → Divided f oldest r
    → (asks_for x k t r.1 || asks_for x k t r.0) ≡ asks_for x k t f
unfolding asks_for
asks_for-Divided x k t f oldest r (in_time h e) =
    subst (λ q. (asks_for x k t q.1 || asks_for x k t q.0) ≡ asks_for x k t f) e
      (ground (arith, middle-bounds oldest f.since f.until h))
asks_for-Divided x k t f oldest r (in_authors h e) =
    subst (λ q. (asks_for x k t q.1 || asks_for x k t q.0) ≡ asks_for x k t f) e
      (ground (arith, has_author-halves x (half (length f.authors)) f.authors))
asks_for-Divided x k t f oldest r (in_kinds h e) =
    subst (λ q. (asks_for x k t q.1 || asks_for x k t q.0) ≡ asks_for x k t f) e
      (ground (arith, has_kind-halves k (half (length f.kinds)) f.kinds))

Turn-cases : (u : Turn) → (u ≡ throws) ⊎ ((u ≡ yields) ⊎ ((a b : Filter) × (u ≡ divides a b)))
Turn-cases throws = inl refl
Turn-cases yields = inr (inl refl)
Turn-cases (divides a b) = inr (inr (a, b, refl))

module _ (fetch : Filter → Page) where
  -- The run after one turn.
  unfoldable pub after : ℕ → Filter → List Filter → Turn → Run
  unfolding emit
  after rounds f rest throws = record { yielded = []; status = threw }
  after rounds f rest yields = emit f (run fetch rounds rest)
  after rounds f rest (divides a b) = run fetch rounds (b ∷ a ∷ rest)

  pub run-after :
      (rounds : ℕ) (f : Filter) (rest : List Filter)
      → run fetch (suc rounds) (f ∷ rest) ≡ after rounds f rest (turn f (fetch f))
  unfolding run after
  run-after rounds f rest =
      elim (turn f (fetch f))
        as (λ u.
          elim u [
            | throws ↦ record { yielded = []; status = threw }
            | yields ↦ emit f (run fetch rounds rest)
            | divides a b ↦ run fetch rounds (b ∷ a ∷ rest)
          ]
          ≡ after rounds f rest u) [ throws ↦ refl | yields ↦ refl | divides a b ↦ refl ]

  -- What a run that ends without an error has yielded asks for what was pending.
  pub AsksForPending : Str → ℕ → ℕ → List Filter → Run → Type 0
  AsksForPending x k t pending r =
      r.status ≡ finished → one_asks_for x k t r.yielded ≡ one_asks_for x k t pending

  after-asks_for :
      (x : Str) (k t rounds : ℕ) (f : Filter) (rest : List Filter) (u : Turn)
      → ((pending : List Filter) → AsksForPending x k t pending (run fetch rounds pending))
      → turn f (fetch f) ≡ u
      → AsksForPending x k t (f ∷ rest) (after rounds f rest u)
  unfolding AsksForPending after emit one_asks_for
  after-asks_for x k t rounds f rest throws ih e h = ground arith
  after-asks_for x k t rounds f rest yields ih e h = ground (arith, ih rest h)
  after-asks_for x k t rounds f rest (divides a b) ih e h = ground (
    arith,
    ih (b ∷ a ∷ rest) h,
    asks_for-Divided x k t f (fetch f).oldest (a, b) (turn-Divided f (fetch f) a b e),
  )

  run-asks_for :
      (x : Str) (k t rounds : ℕ) (pending : List Filter)
      → AsksForPending x k t pending (run fetch rounds pending)
  unfolding run one_asks_for AsksForPending
  run-asks_for x k t zero pending h = ground arith
  run-asks_for x k t (suc rounds) [] h = refl
  run-asks_for x k t (suc rounds) (f ∷ rest) h =
      subst (AsksForPending x k t (f ∷ rest)) (sym (run-after rounds f rest))
        (after-asks_for x k t rounds f rest (turn f (fetch f)) (run-asks_for x k t rounds) refl) h

  -- If no report fails, the filters that are yielded ask together for exactly the authors' events, kinds
  -- and seconds that the given filter asks for.
  pub account_event_pages-asks_for :
      (f : Filter) (x : Str) (k t : ℕ)
      → (account_event_pages fetch f).status ≡ finished
      → one_asks_for x k t (account_event_pages fetch f).yielded ≡ asks_for x k t f
  unfolding account_event_pages one_asks_for AsksForPending
  account_event_pages-asks_for f x k t h =
      ground (arith, run-asks_for x k t (2 * volume f + 1) (f ∷ []) h)
