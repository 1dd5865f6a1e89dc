-- ===== src/Accounts/Pages.antt =====
-- src/services/account-event-pages.js: `accountEventPages` asks a relay for the events of a filter, and
-- divides the filter while an answer may have been cut off. What the relay answers is a parameter; an
-- event that cannot be persisted ends the generator, as a failed report does.
pub mod Windows
pub mod Ending
mod Tests
use billion.Common.{
  ℕ, zero, suc, ◌+◌, ◌-◌, ◌*◌, ◌/◌, max, Bool, true, false, ◌&&◌, ◌||◌, Option, none, some, List,
  [], ◌∷◌, ◌++◌, ltb, leb, ◌==◌, if◌then◌else◌, length,
}
use billion.Common.Text.{Str, str_eq}

abbrev pub page_size : ℕ
page_size = 200

pub record Filter : Type 0 where
  pub since : ℕ
  pub until : ℕ
  pub authors : List Str
  pub kinds : List ℕ

-- How the relay ended its answer; all that `assertHistoryReport` refuses is `failed`.
pub data Report : Type 0 where
  eose satisfied failed : Report

-- `oldest` is none where no event came.
pub record Page : Type 0 where
  pub count : ℕ
  pub oldest : Option ℕ
  pub report : Report

pub take {ℓ} : {A : Type ℓ} → ℕ → List A → List A
take zero xs = []
take (suc n) [] = []
take (suc n) (x ∷ xs) = x ∷ take n xs

pub drop {ℓ} : {A : Type ℓ} → ℕ → List A → List A
drop zero xs = xs
drop (suc n) [] = []
drop (suc n) (x ∷ xs) = drop n xs

pub half : ℕ → ℕ
half n = (n + 1) / 2

-- Where a window is divided: below the oldest event that came, or in the middle.
pub middle : Option ℕ → ℕ → ℕ → ℕ
middle none since until = since + (until - since) / 2
middle (some oldest) since until =
    if leb since oldest && leb oldest until
    then max since (oldest - 1)
    else since + (until - since) / 2

-- The two filters that are pushed, in their order.
pub split : Filter → Option ℕ → Option (Filter × Filter)
unfolding middle take drop half
split f oldest =
    if ltb f.since f.until
    then some (
      record f { until = middle oldest f.since f.until },
      record f { since = middle oldest f.since f.until + 1 },
    )
    else if ltb 1 (length f.authors)
    then some (
      record f { authors = drop (half (length f.authors)) f.authors },
      record f { authors = take (half (length f.authors)) f.authors },
    )
    else if ltb 1 (length f.kinds)
    then some (
      record f { kinds = drop (half (length f.kinds)) f.kinds },
      record f { kinds = take (half (length f.kinds)) f.kinds },
    )
    else none

pub data Status : Type 0 where
  finished threw out_of_fuel : Status

pub record Run : Type 0 where
  pub yielded : List Filter
  pub status : Status

pub emit : Filter → Run → Run
emit f r = record r { yielded = f ∷ r.yielded }

is_eose : Report → Bool
is_eose eose = true
is_eose satisfied = false
is_eose failed = false

-- What a complete answer, or one that was cut off, does to `pending`: whether the filter is yielded,
-- and the filters to ask for next.
pub data Turn : Type 0 where
  throws yields : Turn
  divides : Filter → Filter → Turn

or_yields : Option (Filter × Filter) → Turn
or_yields none = yields
or_yields (some (a, b)) = divides a b

turn_of : Filter → Page → Report → Turn
unfolding or_yields is_eose
turn_of f page failed = throws
turn_of f page r =
    if ltb page.count page_size && is_eose r then yields else or_yields (split f page.oldest)

pub turn : Filter → Page → Turn
unfolding turn_of
turn f page = turn_of f page page.report

module _ (fetch : Filter → Page) where
  -- The loop of `accountEventPages`, with the rounds left; the last filter pushed comes first.
  pub run : ℕ → List Filter → Run
  unfolding emit
  run zero pending = record { yielded = []; status = out_of_fuel }
  run (suc rounds) [] = record { yielded = []; status = finished }
  run (suc rounds) (f ∷ rest) = elim (turn f (fetch f)) [
    | throws ↦ record { yielded = []; status = threw }
    | yields ↦ emit f (run rounds rest)
    | divides a b ↦ run rounds (b ∷ a ∷ rest)
  ]

-- How many seconds, authors and kinds the filter asks for.
pub volume : Filter → ℕ
volume f = (f.until + 1 - f.since) * max 1 (length f.authors) * max 1 (length f.kinds)

-- Twice the volume bounds the rounds.
pub account_event_pages : (Filter → Page) → Filter → Run
unfolding run volume
account_event_pages fetch f = run fetch (2 * volume f + 1) (f ∷ [])
