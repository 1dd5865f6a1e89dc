-- ===== src/Network/Retry/Waiters.antt =====
-- connectivity-retry.js: a waiter leaves for exactly one answer.
use billion.Common.{
  ℕ, ◌+◌, ◌≤◌, ◌<◌, ◌≡◌, refl, Option, List, [], ◌∷◌, ◌++◌, map, arith, ◌==◌, if◌then◌else◌,
  count_if, count_if-append, if_cases,
}
use billion.Network.Retry.{
  State, Reply, aborted, online, Waiter, is_aborted, is_empty, stop_if_idle, wait_until_online,
  release_waiters, without_waiter, abort_waiter, listeners, abort_all, abort_signal, has_signal,
}
use billion.Network.Retry.Places.{waiting, settlements, IsPlaced, settlements-append}

waiting-append :
    (k : ℕ) (xs : List Waiter) (w : Waiter)
    → waiting k (xs ++ w ∷ []) ≡ waiting k xs + (if w.id == k then 1 else 0)
unfolding count_if
waiting-append k xs w = omega (arith, count_if-append (λ (e : Waiter). e.id == k) xs (w ∷ []))

settlements-map :
    (k : ℕ) (r : Reply) (ws : List Waiter) → settlements k (map (λ w. (w.id, r)) ws) ≡ waiting k ws
unfolding count_if
settlements-map k r [] = refl
settlements-map k r (w ∷ ws) = omega (arith, settlements-map k r ws)

waiting-without_waiter :
    (i k : ℕ) (ws : List Waiter)
    → 0 < waiting i ws
    → waiting k (without_waiter i ws) + (if i == k then 1 else 0) ≡ waiting k ws
unfolding without_waiter count_if
waiting-without_waiter i k [] h = omega (arith, h)
waiting-without_waiter i k (w ∷ ws) h = ground (arith, waiting-without_waiter i k ws)

stop_if_idle-IsPlaced : (s : State) → IsPlaced s → IsPlaced (stop_if_idle s)
unfolding stop_if_idle
stop_if_idle-IsPlaced s v = if_cases IsPlaced (is_empty s.waiters) _ _ (λ e. v) (λ e. v)

pub wait_until_online-IsPlaced :
    (signal : Option ℕ) (s : State) → IsPlaced s → IsPlaced (wait_until_online signal s)
unfolding wait_until_online
wait_until_online-IsPlaced signal s v =
    if_cases IsPlaced (is_aborted signal s.aborted_signals) _ _
      (λ e k. ground (arith, v k, settlements-append k s.settled s.next_id aborted))
      (λ e k.
        ground
          (arith, v k, waiting-append k s.waiters (record { id = s.next_id; signal = signal })))

pub release_waiters-IsPlaced : (now : ℕ) (s : State) → IsPlaced s → IsPlaced (release_waiters now s)
unfolding release_waiters count_if
release_waiters-IsPlaced now s v =
    stop_if_idle-IsPlaced
      (record s {
        last_online_at = now;
        waiters = [];
        settled = s.settled ++ map (λ w. (w.id, online)) s.waiters;
      })
      (λ k. omega (
        arith,
        v k,
        settlements-map k online s.waiters,
        count_if-append (λ (e : ℕ × Reply). e.0 == k) s.settled
            (map (λ w. (w.id, online)) s.waiters),
      ))

-- The ids are those of waiters.
abbrev Among : List ℕ → List Waiter → Type 0
Among is ws = (k : ℕ) → count_if (λ i. i == k) is ≤ waiting k ws

stop_if_idle-waiters : (s : State) → (stop_if_idle s).waiters ≡ s.waiters
unfolding stop_if_idle
stop_if_idle-waiters s =
    if_cases (λ (t : State). t.waiters ≡ s.waiters) (is_empty s.waiters) _ _ (λ e. refl) (λ e. refl)

abort_waiter-waiters : (i : ℕ) (s : State) → (abort_waiter i s).waiters ≡ without_waiter i s.waiters
unfolding abort_waiter
abort_waiter-waiters i s = stop_if_idle-waiters _

abort_waiter-IsPlaced :
    (i : ℕ) (s : State) → IsPlaced s → 0 < waiting i s.waiters → IsPlaced (abort_waiter i s)
unfolding abort_waiter
abort_waiter-IsPlaced i s v h =
    stop_if_idle-IsPlaced
      (record s { waiters = without_waiter i s.waiters; settled = s.settled ++ (i, aborted) ∷ [] })
      (λ k. omega (
        arith,
        v k,
        waiting-without_waiter i k s.waiters h,
        settlements-append k s.settled i aborted,
      ))

abort_all-IsPlaced :
    (is : List ℕ) (s : State) → IsPlaced s → Among is s.waiters → IsPlaced (abort_all is s)
unfolding abort_all count_if
abort_all-IsPlaced [] s v h = v
abort_all-IsPlaced (i ∷ is) s v h =
    let there : 0 < waiting i s.waiters = ground (arith, h i) in
    abort_all-IsPlaced is (abort_waiter i s) (abort_waiter-IsPlaced i s v there) (λ k.
      rw (abort_waiter-waiters i s)
        (omega (arith, h k, waiting-without_waiter i k s.waiters there)))

listeners-Among : (k : ℕ) (ws : List Waiter) → Among (listeners k ws) ws
unfolding listeners count_if
listeners-Among k [] i = omega arith
listeners-Among k (w ∷ ws) i =
    if_cases (λ is. count_if (λ j. j == i) is ≤ (if w.id == i then 1 else 0) + waiting i ws)
      (has_signal k w.signal) _ _ (λ e. omega (arith, listeners-Among k ws i))
      (λ e. omega (arith, listeners-Among k ws i))

pub abort_signal-IsPlaced : (k : ℕ) (s : State) → IsPlaced s → IsPlaced (abort_signal k s)
unfolding abort_signal
abort_signal-IsPlaced k s v =
    abort_all-IsPlaced (listeners k s.waiters) _ v (listeners-Among k s.waiters)
