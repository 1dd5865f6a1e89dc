-- ===== src/Relay/Recovery/Helpers.antt =====
-- connection-recovery.js: predicates of every state, under the changes of the map.
use billion.Common.{List, [], ◌∷◌, map, if_cases, All}
use billion.Common.Text.{Str, str_eq}
use billion.Relay.Recovery.States.{UrlState, update, without_state, holds}

pub update-All :
    (P : UrlState → Type 0) (url : Str) (f : UrlState → UrlState) (us : List UrlState)
    → ((u : UrlState) → P u → P (f u))
    → All P us
    → All P (update url f us)
unfolding update
update-All P url f [] keeps v = tt
update-All P url f (u ∷ us) keeps v =
    if_cases (All P) (str_eq u.url url) _ _ (λ e. (keeps u v.0, v.1))
      (λ e. (v.0, update-All P url f us keeps v.1))

pub without_state-All :
    (P : UrlState → Type 0) (url : Str) (us : List UrlState)
    → All P us
    → All P (without_state url us)
unfolding without_state
without_state-All P url [] v = tt
without_state-All P url (u ∷ us) v =
    if_cases (All P) (str_eq u.url url) _ _ (λ e. v.1) (λ e. (v.0, without_state-All P url us v.1))

pub map-All :
    (P Q : UrlState → Type 0) (f : UrlState → UrlState) (us : List UrlState)
    → ((u : UrlState) → P u → Q (f u))
    → All P us
    → All Q (map f us)
map-All P Q f [] keeps v = tt
map-All P Q f (u ∷ us) keeps v = (keeps u v.0, map-All P Q f us keeps v.1)

pub map-holds :
    (Q : UrlState → Type 0) (f : UrlState → UrlState) (us : List UrlState)
    → ((u : UrlState) → Q (f u))
    → All Q (map f us)
map-holds Q f [] holds = tt
map-holds Q f (u ∷ us) holds = (holds u, map-holds Q f us holds)
