-- ===== src/Relay/Control/Tests.antt =====
-- receive-priority.js: an acknowledgement of a publication, and the theorem about it.
use billion.Common.{◌≡◌, refl, true, List, [], ◌∷◌}
use billion.Common.Text.{Str, str_eq}
use billion.Relay.Receive.Queue.{priority_0, priority_2}
use billion.Relay.Control.{
  publishes, requests, ok, clear, Event, notes, run_all, step, note, take, remember, delete, trim,
  get, or_priority_0, drop,
}
use billion.Relay.Control.Bounds.{IsBounded, run_all-remembers}

abbrev id : Str
id = 97 ∷ []

abbrev sent : List Event
sent = notes (requests id) ∷ notes (publishes id true) ∷ []

first_ok : (take (ok id) (run_all clear sent)).0.priority ≡ priority_2
unfolding take get run_all step note remember delete trim or_priority_0 clear str_eq drop
first_ok = refl

run_all-remembers_example :
    IsBounded (run_all clear sent)
    × ((take (ok id) (take (ok id) (run_all clear sent)).1).0.priority ≡ priority_0)
run_all-remembers_example = run_all-remembers sent id
