-- ===== src/Vault/Requests/Fairness.antt =====
-- src/services/vault-request-queue.js: how long priority requests may pass an eligible normal one.
use billion.Common.{ℕ, ◌≤◌, ◌≡◌, List, ◌++◌, count_if, All}
use billion.Vault.Requests.Streaks.{HasPriority, passing, passes-IsFair}
use billion.Vault.Requests.Events.{run-Inv, init-Inv}
use billion.Vault.Requests.{Start, Caller, Event, init, run}

-- In any history of calls, whatever happens between them: among starts that follow one another, all of
-- priority requests, at most three happened while a normal request was eligible.
pub passes-run-le-three :
    (caller : Caller) (es : List (ℕ × Event)) (newer window older : List Start)
    → (run caller init es).started ≡ newer ++ (window ++ older)
    → All HasPriority window
    → count_if passing window ≤ 3
passes-run-le-three caller es newer window older e h =
    passes-IsFair (run caller init es) newer window older
      (run-Inv caller init es init-Inv).sound.fair e h
