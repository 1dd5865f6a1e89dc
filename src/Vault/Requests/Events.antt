-- ===== src/Vault/Requests/Events.antt =====
-- src/services/vault-request-queue.js: what holds after any history of calls.
use billion.Common.{
  ℕ, suc, ◌≡◌, refl, inl, inr, Bool, true, false, ◌||◌, Option, none, some, List, [], ◌∷◌, ◌++◌,
  arith, ltb, ◌==◌, if◌then◌else◌, find, All, All-append, Option-cases, find_passes_of, count_if,
  if_cases,
}
use billion.Vault.Requests.Jobs.{Job}
use billion.Vault.Requests.Places.{places, occurrences-snoc}
use billion.Vault.Requests.Limits.{IsBounded, IsSound, drain-IsSound}
use billion.Vault.Requests.Streaks.{streak, BelowLimit}
use billion.Vault.Requests.Idle.{Quiet, drain-Quiet}
use billion.Vault.Requests.Cancel.{
  Known, IsCleared, jobs-Known, settle-Known-IsSound, IsSound-port, cancel-IsSound,
  cancel-IsCleared,
}
use billion.Vault.Requests.{
  State, Reply, Caller, Event, asks, finishes, sets_port, cancels, closes, init, is_settled, drain,
  jobs, finish, ask, cancel, set_port, close, canceled, queue_closed, connection_changed,
  replace_port, same_port, step, run, pick, choose, normal_candidate, priority_candidate,
}

-- The queue's invariant, and that nothing startable is left waiting.
pub record Inv (s : State) : Type 0 where
  pub sound : IsSound s
  pub quiet : Quiet s

drain-Inv : (caller : Caller) (now : ℕ) (s : State) → IsSound s → Inv (drain caller now s)
drain-Inv caller now s v = record {
  sound = drain-IsSound caller now s v;
  quiet = drain-Quiet caller now s v.placed;
}

-- The state in which `ask` has queued its job.
abbrev queued : Job → State → State
queued j s = record s {
  next_id = suc s.next_id;
  waiting_normal = if j.priority then s.waiting_normal else s.waiting_normal ++ j ∷ [];
  waiting_priority = if j.priority then s.waiting_priority ++ j ∷ [] else s.waiting_priority;
}

queued-normal_lane :
    (j : Job) (s : State)
    → All (λ a. a.priority ≡ false) s.waiting_normal
    → All (λ a. a.priority ≡ false) (queued j s).waiting_normal
queued-normal_lane j s h =
    if_cases (All _) j.priority _ _ (λ high. h)
      (λ low. All-append _ s.waiting_normal (j ∷ []) h (low, tt))

queued-priority_lane :
    (j : Job) (s : State)
    → All (λ a. a.priority ≡ true) s.waiting_priority
    → All (λ a. a.priority ≡ true) (queued j s).waiting_priority
queued-priority_lane j s h =
    if_cases (All _) j.priority _ _ (λ high. All-append _ s.waiting_priority (j ∷ []) h (high, tt))
      (λ low. h)

queued-IsSound : (j : Job) (s : State) → j.id ≡ s.next_id → IsSound s → IsSound (queued j s)
queued-IsSound j s e v = record {
  placed = record {
    each = λ k. ground (
      arith,
      v.placed.each k,
      occurrences-snoc k s.waiting_normal j,
      occurrences-snoc k s.waiting_priority j,
    );
    normal_lane = queued-normal_lane j s v.placed.normal_lane;
    priority_lane = queued-priority_lane j s v.placed.priority_lane;
  };
  bounded = record {
    all = v.bounded.all;
    chunks = v.bounded.chunks;
    archives = v.bounded.archives;
    normals = v.bounded.normals;
    streak = v.bounded.streak;
  };
  fair = record { counted = v.fair.counted; below = v.fair.below };
}

module _ (caller : Caller) (now : ℕ) where
  ask-Inv :
      (priority chunk archive : Bool) (timeout : Option ℕ) (s : State)
      → Inv s
      → Inv (ask caller now priority chunk archive timeout s)
  unfolding ask
  ask-Inv priority chunk archive timeout s v =
      if_cases Inv s.closed _ _ (λ e. v)
        (λ e. drain-Inv caller now _ (queued-IsSound _ s refl v.sound))

  finish-Inv : (s : State) (id : ℕ) (r : Reply) → Inv s → Inv (finish caller now s id r)
  unfolding finish
  finish-Inv s id r v = elim (Option-cases (find (λ j. j.id == id) (jobs s))) [
    | inl e ↦ rw (e, finish) v
    | inr (j, e) ↦
        rw (e, finish)
          (if_cases Inv (is_settled j.id s.settled) _ _ (λ done. v)
            (λ pending. drain-Inv caller now _ (
              settle-Known-IsSound s j r v.sound
                (find_passes_of (Known s) _ (jobs s) j (jobs-Known s v.sound.placed) e))))
  ]

  replace_port-IsSound : (port : Option ℕ) (s : State) → IsSound s → IsSound (replace_port port s)
  unfolding replace_port
  replace_port-IsSound none s v = v
  replace_port-IsSound (some p) s v = cancel-IsSound connection_changed s v

  set_port-Inv : (next : Option ℕ) (s : State) → Inv s → Inv (set_port caller now next s)
  unfolding set_port
  set_port-Inv next s v =
      if_cases Inv (same_port next s.port || s.closed) _ _ (λ same. v)
        (λ other.
          drain-Inv caller now _ (IsSound-port next _ (replace_port-IsSound s.port s v.sound)))

IsSound-closed : (closed : Bool) (s : State) → IsSound s → IsSound (record s { closed = closed })
IsSound-closed closed s v = record {
  placed = record {
    each = v.placed.each;
    normal_lane = v.placed.normal_lane;
    priority_lane = v.placed.priority_lane;
  };
  bounded = record {
    all = v.bounded.all;
    chunks = v.bounded.chunks;
    archives = v.bounded.archives;
    normals = v.bounded.normals;
    streak = v.bounded.streak;
  };
  fair = record { counted = v.fair.counted; below = v.fair.below };
}

IsCleared-Quiet : (s : State) → IsCleared s → Quiet s
unfolding pick choose normal_candidate priority_candidate find
IsCleared-Quiet s c = inr (inr (ground (arith, c.no_normal, c.no_priority)))

cancel-Inv : (s : State) → IsSound s → Inv (cancel canceled s)
cancel-Inv s v = record {
  sound = cancel-IsSound canceled s v;
  quiet = IsCleared-Quiet _ (cancel-IsCleared canceled s v);
}

close-Inv : (s : State) → IsSound s → Inv (close s)
unfolding close
close-Inv s v =
    let w = IsSound-closed true s v in
    record { sound = IsSound-port none _ (cancel-IsSound queue_closed _ w); quiet = inl (inr refl) }

-- Every call keeps the invariant and starts all that may start.
pub step-Inv : (caller : Caller) (s : State) (e : ℕ × Event) → Inv s → Inv (step caller s e)
unfolding step
step-Inv caller s (now, asks priority chunk archive timeout) v =
    ask-Inv caller now priority chunk archive timeout s v
step-Inv caller s (now, finishes id r) v = finish-Inv caller now s id r v
step-Inv caller s (now, sets_port next) v = set_port-Inv caller now next s v
step-Inv caller s (now, cancels) v = cancel-Inv s v.sound
step-Inv caller s (now, closes) v = close-Inv s v.sound

pub run-Inv : (caller : Caller) (s : State) (es : List (ℕ × Event)) → Inv s → Inv (run caller s es)
unfolding run
run-Inv caller s [] v = v
run-Inv caller s (e ∷ es) v = run-Inv caller (step caller s e) es (step-Inv caller s e v)

pub init-Inv : Inv init
unfolding init count_if streak BelowLimit
init-Inv = record {
  sound = record {
    placed = record { each = λ k. ground arith; normal_lane = tt; priority_lane = tt };
    bounded = omega arith;
    fair = record { counted = refl; below = tt };
  };
  quiet = inl (inr refl);
}

-- After any history, each request asked so far is in exactly one place: once in a lane, once in the
-- running set, or once among the resolved promises; an id not handed out yet is nowhere.
pub run-IsPlaced :
    (caller : Caller) (es : List (ℕ × Event)) (k : ℕ)
    → let s = run caller init es in places k s ≡ (if ltb k s.next_id then 1 else 0)
run-IsPlaced caller es k = (run-Inv caller init es init-Inv).sound.placed.each k

-- After any history, at most five requests run, at most two of them with chunks, at most two
-- archived, and at most four from the normal lane.
pub run-IsBounded : (caller : Caller) (es : List (ℕ × Event)) → IsBounded (run caller init es)
run-IsBounded caller es = (run-Inv caller init es init-Inv).sound.bounded

-- After any history, a queue that is open and has a port either runs five requests or has no waiting
-- request that the limits allow to start.
pub run-Quiet : (caller : Caller) (es : List (ℕ × Event)) → Quiet (run caller init es)
run-Quiet caller es = (run-Inv caller init es init-Inv).quiet

-- After any history, `close` empties both lanes and the running set, and the promise of every request
-- asked so far is resolved.
pub run-close-IsCleared :
    (caller : Caller) (es : List (ℕ × Event)) → IsCleared (close (run caller init es))
unfolding close
run-close-IsCleared caller es =
    let w = IsSound-closed true _ (run-Inv caller init es init-Inv).sound in
    let c = cancel-IsCleared queue_closed _ w in
    record {
      no_running = c.no_running;
      no_normal = c.no_normal;
      no_priority = c.no_priority;
      answered = c.answered;
    }
