-- ===== src/Relay/Control/Bounds.antt =====
-- receive-priority.js: what is remembered stays bounded, and an acknowledgement is preferred once.
use billion.Common.{
  ℕ, zero, suc, ◌-◌, ◌≤◌, ◌≡◌, refl, ap, ◌∙◌, true, ◌&&◌, none, some, List, [], ◌∷◌, ◌++◌, if_cases,
  if_false, length, arith,
}
use billion.Common.Text.{Str, str_eq}
use billion.Relay.Receive.Queue.{priority_0}
use billion.Relay.Control.{
  Control, Taken, Outgoing, Incoming, max_remembered, clear, get, delete, drop, trim, remember,
  note, take, publishes, requests, counts, opens_neg, closes, closes_neg, other_sent, auth,
  other_received, ok, event, eose, closed, counted, neg_msg, neg_err, Event, notes, takes, clears,
  step, run_all, has, or_priority_0,
}

-- Each map has at most as many entries as are remembered.
abbrev pub IsBounded : Control → Type 0
IsBounded c =
    (length c.publications ≤ max_remembered)
    × (length c.subscriptions ≤ max_remembered)
    × (length c.count_requests ≤ max_remembered)
    × (length c.negs ≤ max_remembered)

length-drop {ℓ} : {A : Type ℓ} (n : ℕ) (xs : List A) → length (drop n xs) ≡ length xs - n
unfolding drop
length-drop zero xs = omega arith
length-drop (suc n) [] = omega arith
length-drop (suc n) (x ∷ xs) = omega (arith, length-drop n xs)

length-delete {ℓ} : {A : Type ℓ} (id : Str) (m : List (Str × A)) → length (delete id m) ≤ length m
unfolding delete
length-delete id [] = omega arith
length-delete id (e ∷ es) =
    if_cases (λ (l : List (Str × _)). length l ≤ suc (length es)) (str_eq e.0 id) _ _
      (λ h. omega (arith, length-delete id es)) (λ h. omega (arith, length-delete id es))

length-remember {ℓ} :
    {A : Type ℓ} (id : Str) (value : A) (m : List (Str × A))
    → length (remember id value m) ≤ max_remembered
unfolding remember trim
length-remember id value m =
    let all : List (Str × _) = delete id m ++ (id, value) ∷ [] in
    omega (arith, length-drop (length all - max_remembered) all)

-- A deletion leaves a bounded map bounded.
still_bounded {ℓ} :
    {A : Type ℓ} (id : Str) (m : List (Str × A))
    → length m ≤ max_remembered
    → length (delete id m) ≤ max_remembered
still_bounded id m h = omega (arith, h, length-delete id m)

note-IsBounded : (frame : Outgoing) (c : Control) → IsBounded c → IsBounded (note frame c)
unfolding note
note-IsBounded (publishes id is_priority) c h = (length-remember id _ c.publications, h.1, h.2, h.3)
note-IsBounded (requests id) c h = (h.0, length-remember id true c.subscriptions, h.2, h.3)
note-IsBounded (counts id) c h = (h.0, h.1, length-remember id true c.count_requests, h.3)
note-IsBounded (opens_neg id) c h = (h.0, h.1, h.2, length-remember id true c.negs)
note-IsBounded (closes id) c h = (h.0, still_bounded id c.subscriptions h.1, h.2, h.3)
note-IsBounded (closes_neg id) c h = (h.0, h.1, h.2, still_bounded id c.negs h.3)
note-IsBounded other_sent c h = h

abbrev SecondIsBounded : Taken × Control → Type 0
SecondIsBounded r = IsBounded r.1

take-IsBounded : (frame : Incoming) (c : Control) → IsBounded c → SecondIsBounded (take frame c)
unfolding take
take-IsBounded auth c h = h
take-IsBounded other_received c h = h
take-IsBounded (ok id) c h = (still_bounded id c.publications h.0, h.1, h.2, h.3)
take-IsBounded (event id) c h = h
take-IsBounded (eose id well_formed) c h = h
take-IsBounded (closed id well_formed) c h =
    if_cases IsBounded well_formed _ c
      (λ e. (h.0, still_bounded id c.subscriptions h.1, still_bounded id c.count_requests h.2, h.3))
      (λ e. h)
take-IsBounded (counted id well_formed) c h =
    if_cases IsBounded well_formed _ c (λ e. (h.0, h.1, still_bounded id c.count_requests h.2, h.3))
      (λ e. h)
take-IsBounded (neg_msg id well_formed) c h = h
take-IsBounded (neg_err id well_formed) c h =
    if_cases IsBounded (well_formed && has id c.negs) _ c
      (λ e. (h.0, h.1, h.2, still_bounded id c.negs h.3)) (λ e. h)

step-IsBounded : (c : Control) (e : Event) → IsBounded c → IsBounded (step c e)
unfolding step clear
step-IsBounded c (notes frame) h = note-IsBounded frame c h
step-IsBounded c (takes frame) h = take-IsBounded frame c h
step-IsBounded c clears h = (omega arith, omega arith, omega arith, omega arith)

run_all_from-IsBounded : (c : Control) (es : List Event) → IsBounded c → IsBounded (run_all c es)
unfolding run_all
run_all_from-IsBounded c [] h = h
run_all_from-IsBounded c (e ∷ es) h = run_all_from-IsBounded (step c e) es (step-IsBounded c e h)

get-delete {ℓ} : {A : Type ℓ} (id : Str) (m : List (Str × A)) → get id (delete id m) ≡ none
unfolding get delete
get-delete {A = A} id [] = refl
get-delete {A = A} id (e ∷ es) =
    if_cases (λ (l : List (Str × A)). get id l ≡ none) (str_eq e.0 id) (delete id es)
      (e ∷ delete id es) (λ h. get-delete id es)
      (λ h. if_false (some e.1) (get id (delete id es)) h ∙ get-delete id es)

-- After every sequence of frames sent and received, each of the four maps has at most 256 entries; and an
-- acknowledgement is preferred once: behind one of the same publication, another has priority 0.
pub run_all-remembers :
    (es : List Event) (id : Str)
    → IsBounded (run_all clear es)
      × ((take (ok id) (take (ok id) (run_all clear es)).1).0.priority ≡ priority_0)
unfolding clear take or_priority_0
run_all-remembers es id = (
  run_all_from-IsBounded clear es (omega arith, omega arith, omega arith, omega arith),
  ap or_priority_0 (get-delete id (run_all clear es).publications),
)
