-- ===== src/Vault/Requests/Cancel.antt =====
-- src/services/vault-request-queue.js: `cancel` and `close` empty the queue and resolve every promise.
use billion.Common.{
  ℕ, ◌+◌, ◌≤◌, ◌<◌, ◌≡◌, refl, ◌∙◌, inl, inr, ◌⊎◌, true, Option, none, List, [], ◌∷◌, ◌++◌, arith,
  ltb, ◌==◌, if◌then◌else◌, count_if, All, All-append, Bool-cases,
}
use billion.Vault.Requests.Jobs.{
  Job, occurrences, occurrences-remove, occurrences-append, no_occurrences,
}
use billion.Vault.Requests.Places.{
  IsPlaced, Held, settlements, settle-IsPlaced, places-le-one, next_id-settle,
}
use billion.Vault.Requests.Limits.{IsSound, settle-IsBounded}
use billion.Vault.Requests.Streaks.{settle-IsFair}
use billion.Vault.Requests.{
  State, Reply, Failure, failure, is_settled, settle, settle_all, jobs, cancel,
}

-- The job is done, or it is held.
abbrev pub Known : State → Job → Type 0
Known s j = (is_settled j.id s.settled ≡ true) ⊎ Held s j

is_settled-append :
    (k : ℕ) (l : List (ℕ × Reply)) (i : ℕ) (r : Reply)
    → is_settled k (l ++ (i, r) ∷ []) ≡ (if i == k then true else is_settled k l)
is_settled-append k [] i r = ground arith
is_settled-append k ((a, b) ∷ l) i r = ground (arith, is_settled-append k l i r)

settle-Known : (s : State) (j : Job) (r : Reply) (k : Job) → Known s k → Known (settle s j r) k
unfolding settle
settle-Known s j r k known = ground (
  arith,
  is_settled-append k.id s.settled j.id r,
  occurrences-remove k.id j.id s.running,
  occurrences-remove k.id j.id s.waiting_normal,
  occurrences-remove k.id j.id s.waiting_priority,
)

settle-is_settled :
    (s : State) (j : Job) (r : Reply) → is_settled j.id (settle s j r).settled ≡ true
unfolding settle
settle-is_settled s j r = ground (arith, is_settled-append j.id s.settled j.id r)

settle_done :
    (s : State) (j : Job) (r : Reply) → is_settled j.id s.settled ≡ true → settle s j r ≡ s
unfolding settle
settle_done s j r h = ground arith

is_settled-settle :
    (s : State) (j : Job) (r : Reply) (k : ℕ)
    → is_settled k s.settled ≡ true
    → is_settled k (settle s j r).settled ≡ true
unfolding settle
is_settled-settle s j r k h = ground (arith, is_settled-append k s.settled j.id r)

pub settle-Known-IsSound :
    (s : State) (j : Job) (r : Reply) → IsSound s → Known s j → IsSound (settle s j r)
settle-Known-IsSound s j r v (inl done) = rw (settle_done s j r done) v
settle-Known-IsSound s j r v (inr held) = record {
  placed = settle-IsPlaced s j r v.placed held;
  bounded = settle-IsBounded s j r v.bounded;
  fair = settle-IsFair s j r v.fair;
}

All-map : {P Q : Job → Type 0} (js : List Job) → ((j : Job) → P j → Q j) → All P js → All Q js
All-map [] f h = tt
All-map (j ∷ js) f h = (f j h.0, All-map js f h.1)

All-zip :
    {P Q R : Job → Type 0} (js : List Job)
    → ((j : Job) → P j → Q j → R j)
    → All P js
    → All Q js
    → All R js
All-zip [] f h k = tt
All-zip (j ∷ js) f h k = (f j h.0 k.0, All-zip js f h.1 k.1)

members_occur :
    (xs ys : List Job)
    → ((k : ℕ) → occurrences k xs ≤ occurrences k ys)
    → All (λ j. 0 < occurrences j.id ys) xs
unfolding count_if
members_occur [] ys h = tt
members_occur (x ∷ xs) ys h =
    (ground (arith, h x.id), members_occur xs ys (λ k. ground (arith, h k)))

pub jobs-Known : (s : State) → IsPlaced s → All (Known s) (jobs s)
jobs-Known s v =
    All-append (Known s) (s.running ++ s.waiting_normal) s.waiting_priority
      (All-append (Known s) s.running s.waiting_normal
        (All-map s.running (λ j h. inr (omega arith))
          (members_occur s.running s.running (λ k. omega arith)))
        (All-zip s.waiting_normal (λ j h low. inr (ground arith))
          (members_occur s.waiting_normal s.waiting_normal (λ k. omega arith)) v.normal_lane))
      (All-zip s.waiting_priority (λ j h high. inr (ground arith))
        (members_occur s.waiting_priority s.waiting_priority (λ k. omega arith)) v.priority_lane)

pub IsSound-port : (port : Option ℕ) (s : State) → IsSound s → IsSound (record s { port = port })
IsSound-port port s v = record {
  placed = record {
    each = v.placed.each;
    normal_lane = v.placed.normal_lane;
    priority_lane = v.placed.priority_lane;
  };
  bounded = record {
    all = v.bounded.all;
    chunks = v.bounded.chunks;
    archives = v.bounded.archives;
    normals = v.bounded.normals;
    streak = v.bounded.streak;
  };
  fair = record { counted = v.fair.counted; below = v.fair.below };
}

settle_all-IsSound :
    (js : List Job) (r : Reply) (s : State)
    → IsSound s
    → All (Known s) js
    → IsSound (settle_all js r s)
unfolding settle_all
settle_all-IsSound [] r s v h = v
settle_all-IsSound (j ∷ js) r s v h =
    settle_all-IsSound js r (settle s j r) (settle-Known-IsSound s j r v h.0)
      (All-map js (settle-Known s j r) h.1)

is_settled-settle_all :
    (js : List Job) (r : Reply) (s : State) (k : ℕ)
    → (is_settled k s.settled ≡ true) ⊎ (0 < occurrences k js)
    → is_settled k (settle_all js r s).settled ≡ true
unfolding settle_all count_if
is_settled-settle_all [] r s k (inl done) = done
is_settled-settle_all [] r s k (inr member) = absurd (omega arith)
is_settled-settle_all (j ∷ js) r s k (inl done) =
    is_settled-settle_all js r (settle s j r) k (inl (is_settled-settle s j r k done))
is_settled-settle_all (j ∷ js) r s k (inr member) = elim (Bool-cases (j.id == k)) [
  | inl same ↦
      is_settled-settle_all js r (settle s j r) k (inl (ground (arith, settle-is_settled s j r)))
  | inr other ↦ is_settled-settle_all js r (settle s j r) k (inr (ground arith))
]

abbrev held_count : ℕ → State → ℕ
held_count k s =
    occurrences k s.running + occurrences k s.waiting_normal + occurrences k s.waiting_priority

held_count-settle-le :
    (s : State) (j : Job) (r : Reply) (k : ℕ) → held_count k (settle s j r) ≤ held_count k s
unfolding settle
held_count-settle-le s j r k = ground (
  arith,
  occurrences-remove k j.id s.running,
  occurrences-remove k j.id s.waiting_normal,
  occurrences-remove k j.id s.waiting_priority,
)

held_count-settle_all-le :
    (js : List Job) (r : Reply) (s : State) (k : ℕ)
    → held_count k (settle_all js r s) ≤ held_count k s
unfolding settle_all
held_count-settle_all-le [] r s k = omega arith
held_count-settle_all-le (j ∷ js) r s k =
    omega (arith, held_count-settle_all-le js r (settle s j r) k, held_count-settle-le s j r k)

next_id-settle_all :
    (js : List Job) (r : Reply) (s : State) → (settle_all js r s).next_id ≡ s.next_id
unfolding settle_all
next_id-settle_all [] r s = refl
next_id-settle_all (j ∷ js) r s = next_id-settle_all js r (settle s j r) ∙ next_id-settle s j r

settled_count : (k : ℕ) (l : List (ℕ × Reply)) → is_settled k l ≡ true → 0 < settlements k l
unfolding count_if
settled_count k [] h = ground arith
settled_count k ((i, r) ∷ l) h = ground (arith, settled_count k l)

occurrences-jobs : (k : ℕ) (s : State) → occurrences k (jobs s) ≡ held_count k s
occurrences-jobs k s = omega (
  arith,
  occurrences-append k (s.running ++ s.waiting_normal) s.waiting_priority,
  occurrences-append k s.running s.waiting_normal,
)

-- After the snapshot is settled no job is held.
emptied : (r : Reply) (s : State) (k : ℕ) → IsSound s → held_count k (settle_all (jobs s) r s) ≡ 0
emptied r s k v =
    let t = settle_all-IsSound (jobs s) r s v (jobs-Known s v.placed) in
    elim (Bool-cases (ltb 0 (held_count k s))) [
      | inl held ↦
          let done =
            settled_count k _
              (is_settled-settle_all (jobs s) r s k (inr (ground (arith, occurrences-jobs k s)))) in
          omega (arith, places-le-one _ k t.placed)
      | inr none_held ↦ let fewer = held_count-settle_all-le (jobs s) r s k in ground arith
    ]

-- The queue holds nothing, and each request asked so far has its answer.
pub record IsCleared (s : State) : Type 0 where
  pub no_running : s.running ≡ []
  pub no_normal : s.waiting_normal ≡ []
  pub no_priority : s.waiting_priority ≡ []
  pub answered : (k : ℕ) → k < s.next_id → is_settled k s.settled ≡ true

settlements_settled : (k : ℕ) (l : List (ℕ × Reply)) → 0 < settlements k l → is_settled k l ≡ true
unfolding count_if
settlements_settled k [] h = absurd (omega arith)
settlements_settled k ((i, r) ∷ l) h = ground (arith, settlements_settled k l)

settle_all-IsCleared : (r : Reply) (s : State) → IsSound s → IsCleared (settle_all (jobs s) r s)
settle_all-IsCleared r s v =
    let t = settle_all-IsSound (jobs s) r s v (jobs-Known s v.placed) in
    record {
      no_running = no_occurrences _ (λ k. omega (arith, emptied r s k v));
      no_normal = no_occurrences _ (λ k. omega (arith, emptied r s k v));
      no_priority = no_occurrences _ (λ k. omega (arith, emptied r s k v));
      answered =
          λ k below. settlements_settled k _ (ground (arith, t.placed.each k, emptied r s k v));
    }

pub cancel-IsSound : (why : Failure) (s : State) → IsSound s → IsSound (cancel why s)
unfolding cancel
cancel-IsSound why s v =
    let quiet : State = record s { port = none } in
    let w : IsSound quiet = IsSound-port none s v in
    IsSound-port s.port _
      (settle_all-IsSound (jobs s) (failure why) quiet w (jobs-Known quiet w.placed))

-- `cancel` leaves nothing behind, and every promise is resolved.
pub cancel-IsCleared : (why : Failure) (s : State) → IsSound s → IsCleared (cancel why s)
unfolding cancel
cancel-IsCleared why s v =
    let c = settle_all-IsCleared (failure why) (record s { port = none }) (IsSound-port none s v) in
    record {
      no_running = c.no_running;
      no_normal = c.no_normal;
      no_priority = c.no_priority;
      answered = c.answered;
    }
