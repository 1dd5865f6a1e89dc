-- ===== src/Vault/Requests/Tests.antt =====
-- Runs of the request queue, and the theorems about it at concrete inputs.
use billion.Common.{
  ℕ, ◌≤◌, ◌≡◌, refl, true, false, none, some, List, [], ◌∷◌, ◌++◌, ltb, if◌then◌else◌, count_if,
  find, map,
}
use billion.Vault.Requests.Jobs.{remove}
use billion.Vault.Requests.Places.{places}
use billion.Vault.Requests.Limits.{IsBounded}
use billion.Vault.Requests.Idle.{Quiet}
use billion.Vault.Requests.Cancel.{IsCleared}
use billion.Vault.Requests.Streaks.{passing}
use billion.Vault.Requests.Fairness.{passes-run-le-three}
use billion.Vault.Requests.Events.{run-IsPlaced, run-IsBounded, run-Quiet, run-close-IsCleared}
use billion.Vault.Requests.{
  Start, is_there, Caller, Event, asks, finishes, sets_port, result, failure, timed_out, Failure,
  returned, threw, init, run, step, ask, finish, set_port, cancel, close, drain, drain_when,
  drain_loop, advance, launch, start, settle, settle_all, pick, choose, eligible, normal_candidate,
  priority_candidate, is_expired, replace_port, same_port,
}

-- A vault connection whose `send` throws for the request 1.
abbrev calm : Caller
calm = record {
  before_send = λ j. returned none;
  send = λ p j timeout.
      if ltb j.id 1 then returned tt else if ltb 1 j.id then returned tt else threw 9;
}

abbrev idle_calls : Caller
idle_calls = record { before_send = λ j. returned none; send = λ p j timeout. returned tt }

-- Three requests with chunks wait for a port; the one that throws makes room for the third.
abbrev script : List (ℕ × Event)
script =
    (0, asks true true false (some 50))
    ∷ (1, asks true true false (some 50))
    ∷ (2, asks false true false none)
    ∷ (3, asks false true false (some 1))
    ∷ (5, sets_port (some 7))
    ∷ (9, finishes 0 (result 4))
    ∷ []

requests : Unit {0}
unfolding run step ask finish set_port cancel close drain drain_when drain_loop advance launch start
    settle settle_all pick choose eligible normal_candidate priority_candidate is_expired
    replace_port same_port remove count_if find
requests = tt

script_running : map (λ j. j.id) (run calm init script).running ≡ 2 ∷ []
unfolding requests init
script_running = refl

script_settled :
    (run calm init script).settled
    ≡ (1, failure (Failure.thrown 9)) ∷ (0, result 4) ∷ (3, failure timed_out) ∷ []
unfolding requests init
script_settled = refl

run-IsPlaced_example :
    places 2 (run calm init script) ≡ (if ltb 2 (run calm init script).next_id then 1 else 0)
run-IsPlaced_example = run-IsPlaced calm script 2

run-IsBounded_example : IsBounded (run calm init script)
run-IsBounded_example = run-IsBounded calm script

run-Quiet_example : Quiet (run calm init script)
run-Quiet_example = run-Quiet calm script

run-close-IsCleared_example : IsCleared (close (run calm init script))
run-close-IsCleared_example = run-close-IsCleared calm script

-- Four priority requests and a normal one wait for a port: the normal one starts behind three.
abbrev busy : List (ℕ × Event)
busy =
    (0, asks false false false none)
    ∷ (1, asks true false false none)
    ∷ (1, asks true false false none)
    ∷ (2, asks true false false none)
    ∷ (2, asks true false false none)
    ∷ (3, sets_port (some 7))
    ∷ []

abbrev passed : Start
passed = record { priority = true; passes = true }

abbrev window : List Start
window = passed ∷ passed ∷ passed ∷ []

abbrev newer : List Start
newer =
    record { priority = true; passes = false } ∷ record { priority = false; passes = false } ∷ []

busy_starts : (run idle_calls init busy).started ≡ newer ++ (window ++ [])
unfolding requests init is_there
busy_starts = refl

passes-run-le-three_example : count_if passing window ≤ 3
passes-run-le-three_example =
    passes-run-le-three idle_calls busy newer window [] busy_starts (refl, (refl, (refl, tt)))
