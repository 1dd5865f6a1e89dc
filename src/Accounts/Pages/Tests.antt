-- ===== src/Accounts/Pages/Tests.antt =====
-- A run of the pages, and the theorems about it at a concrete input.
use billion.Common.{ℕ, ◌≡◌, ◌≢◌, refl, max, some, [], ◌∷◌, map, ltb, if◌then◌else◌, length, arith}
use billion.Common.Text.{Str}
use billion.Accounts.Pages.Windows.{one_asks_for, asks_for, account_event_pages-asks_for}
use billion.Accounts.Pages.Ending.{account_event_pages-Ends}
use billion.Accounts.Pages.{
  Filter, Page, eose, take, drop, half, middle, split, finished, out_of_fuel, turn, turn_of,
  is_eose, or_yields, emit, run, volume, account_event_pages,
}

abbrev alice : Str
alice = 97 ∷ []

abbrev bob : Str
bob = 98 ∷ []

abbrev filter : Filter
filter = record { since = 5; until = 8; authors = alice ∷ bob ∷ []; kinds = 1 ∷ [] }

-- A relay that holds hundreds of events of the second 7, and few others.
abbrev relay : Filter → Page
relay f = record {
  count = if ltb f.until 7 then 3 else (if ltb 7 f.since then 1 else 200);
  oldest = some (max f.since 7);
  report = eose;
}

-- The test runs with few rounds.
yielded :
    map {B = ℕ × ℕ} (λ f. (f.since, length f.authors)) (run relay 20 (filter ∷ [])).yielded
    ≡ (8, 2) ∷ (7, 1) ∷ (7, 1) ∷ (5, 2) ∷ []
unfolding run turn turn_of is_eose or_yields emit split middle take drop half
yielded = refl

run_finished : (account_event_pages relay filter).status ≡ finished
unfolding account_event_pages volume run turn turn_of is_eose or_yields emit split middle take drop
    half
run_finished = refl

account_event_pages-asks_for_example :
    one_asks_for bob 1 7 (account_event_pages relay filter).yielded ≡ asks_for bob 1 7 filter
account_event_pages-asks_for_example =
    account_event_pages-asks_for relay filter bob 1 7 run_finished

account_event_pages-Ends_example : (account_event_pages relay filter).status ≢ out_of_fuel
account_event_pages-Ends_example = account_event_pages-Ends relay filter (omega arith)
