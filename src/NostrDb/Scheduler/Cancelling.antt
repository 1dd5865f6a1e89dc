-- ===== src/NostrDb/Scheduler/Cancelling.antt =====
-- access-scheduler.js: `cancelNostrDbAccesses` settles each waiting job once and empties the queues.
use billion.Common.{
  ℕ, ◌+◌, ◌≡◌, refl, List, [], ◌∷◌, ◌++◌, arith, ◌==◌, length, count_if, count_if-append, map,
  length-append,
}
use billion.NostrDb.Scheduler.Lanes.{Job, Consumer, queued, size, occurrences, empty_lane}
use billion.NostrDb.Scheduler.Places.{queued_anywhere, waiting_jobs, endings, IsPlaced}
use billion.NostrDb.Scheduler.{State, Ending, cancelled, waiting_ids, cancel_accesses}

endings-map :
    (k : ℕ) (r : Ending) (js : List Job)
    → endings k (map (λ i. (i, r)) (map (λ j. j.id) js)) ≡ occurrences k js
unfolding count_if
endings-map k r [] = refl
endings-map k r (j ∷ js) = omega (arith, endings-map k r js)

map-++ :
    (r : Ending) (is ks : List ℕ) (k : ℕ)
    → endings k (map (λ i. (i, r)) (is ++ ks))
      ≡ endings k (map (λ i. (i, r)) is) + endings k (map (λ i. (i, r)) ks)
unfolding count_if
map-++ r [] ks k = omega arith
map-++ r (i ∷ is) ks k = omega (arith, map-++ r is ks k)

endings-waiting_ids :
    (k : ℕ) (r : Ending) (cs : List Consumer)
    → endings k (map (λ i. (i, r)) (waiting_ids cs)) ≡ queued k cs
unfolding waiting_ids queued count_if
endings-waiting_ids k r [] = refl
endings-waiting_ids k r (c ∷ cs) = omega (
  arith,
  endings-waiting_ids k r cs,
  endings-map k r c.queue,
  map-++ r (map (λ j. j.id) c.queue) (waiting_ids cs) k,
)

length-map_id : (js : List Job) → length (map (λ j. j.id) js) ≡ length js
length-map_id [] = refl
length-map_id (j ∷ js) = omega (arith, length-map_id js)

length-waiting_ids : (cs : List Consumer) → length (waiting_ids cs) ≡ size cs
unfolding waiting_ids size
length-waiting_ids [] = refl
length-waiting_ids (c ∷ cs) = omega (
  arith,
  length-waiting_ids cs,
  length-append (map (λ j. j.id) c.queue) (waiting_ids cs),
  length-map_id c.queue,
)

-- The ids that the source rejects, in its order.
abbrev rejected : State → List ℕ
rejected s =
    waiting_ids s.foreground_lane.consumers
    ++ (waiting_ids s.normal_lane.consumers
        ++ (waiting_ids s.background_lane.consumers ++ waiting_ids s.maintenance_lane.consumers))

endings-rejected :
    (k : ℕ) (s : State) → endings k (map (λ i. (i, cancelled)) (rejected s)) ≡ queued_anywhere k s
endings-rejected k s =
    let f = waiting_ids s.foreground_lane.consumers in
    let n = waiting_ids s.normal_lane.consumers in
    let b = waiting_ids s.background_lane.consumers in
    let m = waiting_ids s.maintenance_lane.consumers in
    omega (
      arith,
      endings-waiting_ids k cancelled s.foreground_lane.consumers,
      endings-waiting_ids k cancelled s.normal_lane.consumers,
      endings-waiting_ids k cancelled s.background_lane.consumers,
      endings-waiting_ids k cancelled s.maintenance_lane.consumers,
      map-++ cancelled f (n ++ (b ++ m)) k,
      map-++ cancelled n (b ++ m) k,
      map-++ cancelled b m k,
    )

length-rejected : (s : State) → length (rejected s) ≡ waiting_jobs s
length-rejected s =
    let f = waiting_ids s.foreground_lane.consumers in
    let n = waiting_ids s.normal_lane.consumers in
    let b = waiting_ids s.background_lane.consumers in
    let m = waiting_ids s.maintenance_lane.consumers in
    omega (
      arith,
      length-waiting_ids s.foreground_lane.consumers,
      length-waiting_ids s.normal_lane.consumers,
      length-waiting_ids s.background_lane.consumers,
      length-waiting_ids s.maintenance_lane.consumers,
      length-append f (n ++ (b ++ m)),
      length-append n (b ++ m),
      length-append b m,
    )

pub cancel_accesses-IsPlaced : (s : State) → IsPlaced s → IsPlaced (cancel_accesses s)
unfolding cancel_accesses queued size empty_lane
cancel_accesses-IsPlaced s v = record {
  each = λ k. omega (
    arith,
    v.each k,
    endings-rejected k s,
    count_if-append (λ (e : ℕ × Ending). e.0 == k) s.ended (map (λ i. (i, cancelled)) (rejected s)),
  );
  counted = omega (arith, v.counted, length-rejected s);
}
