-- ===== src/Relay/Receive/Sizes.antt =====
-- retry-delivery.js and bridge-receive-queue.js: the sizes of what waits and of what is sent.
use billion.Common.{
  ℕ, zero, suc, ◌+◌, ◌-◌, ◌≤◌, ◌≡◌, refl, min, max, true, Option, none, some, List, [], ◌∷◌, ◌++◌,
  length, arith, All,
}
use billion.Common.Decimal.{length-decimal-le, length-decimal-ge}
use billion.Relay.Receive.Queue.{
  Item, Sent, Retry, is_empty, retry_after_value, rewritten_size, counted_size, max_retry_after_ms,
  take, drop, sent_bytes,
}

-- Whatever the time, a frame that is written again is no larger than what was counted.
pub rewritten_size-le :
    (original : ℕ) (retry : Option Retry) (now : ℕ)
    → rewritten_size original retry now ≤ counted_size original retry
unfolding rewritten_size counted_size retry_after_value
rewritten_size-le original none now = omega arith
rewritten_size-le original (some r) now = omega (
  arith,
  length-decimal-le (min max_retry_after_ms (max 1 (r.retry_at - now))) 5 (omega arith),
  length-decimal-ge max_retry_after_ms 4 (omega arith),
)

abbrev pub IsCounted : Item → Type 0
IsCounted item = counted_size item.original item.retry ≤ item.size

unfoldable pub items_bytes : List Item → ℕ
items_bytes [] = 0
items_bytes (x ∷ xs) = x.size + items_bytes xs

pub items_bytes-append :
    (xs ys : List Item) → items_bytes (xs ++ ys) ≡ items_bytes xs + items_bytes ys
unfolding items_bytes
items_bytes-append [] ys = omega arith
items_bytes-append (x ∷ xs) ys = omega (arith, items_bytes-append xs ys)

pub sent_bytes-append : (xs ys : List Sent) → sent_bytes (xs ++ ys) ≡ sent_bytes xs + sent_bytes ys
unfolding sent_bytes
sent_bytes-append [] ys = omega arith
sent_bytes-append (x ∷ xs) ys = omega (arith, sent_bytes-append xs ys)

pub sent_bytes-take-drop :
    (n : ℕ) (ps : List Sent) → sent_bytes (take n ps) + sent_bytes (drop n ps) ≡ sent_bytes ps
unfolding sent_bytes take drop
sent_bytes-take-drop zero ps = omega arith
sent_bytes-take-drop (suc n) [] = omega arith
sent_bytes-take-drop (suc n) (p ∷ ps) = omega (arith, sent_bytes-take-drop n ps)

pub length-drop-le : (n : ℕ) (ps : List Sent) → length (drop n ps) ≤ length ps
unfolding drop
length-drop-le zero ps = omega arith
length-drop-le (suc n) [] = omega arith
length-drop-le (suc n) (p ∷ ps) = omega (arith, length-drop-le n ps)

pub All-split :
    (P : Item → Type 0) (xs : List Item) (y : Item) (ys : List Item)
    → All P (xs ++ y ∷ ys)
    → P y × All P (xs ++ ys)
All-split P [] y ys h = h
All-split P (x ∷ xs) y ys h =
    let rest : P y × All P (xs ++ ys) = All-split P xs y ys h.1 in (rest.0, (h.0, rest.1))

pub empty_pending : (ps : List Sent) → is_empty ps ≡ true → length ps ≡ 0
unfolding is_empty
empty_pending [] h = refl
empty_pending (p ∷ ps) h = absurd (ground (arith, h))
