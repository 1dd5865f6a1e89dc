-- ===== src/Accounts/Pages/Ending.antt =====
-- account-event-pages.js: the loop ends. Each division splits the volume of a filter between two filters
-- that ask for something, so the rounds stay below twice the volume.
use mathlib.Core.Path.{subst}
use native.Mathlib.Nat.{add-mul, mul-add, mul-pos}
use billion.Common.{
  ℕ, zero, suc, ◌+◌, ◌-◌, ◌*◌, ◌≤◌, ◌<◌, ◌≡◌, ◌≢◌, refl, sym, ap, ◌∙◌, max, Option, List, [], ◌∷◌,
  arith, length, All,
}
use billion.Accounts.Pages.{
  Filter, Page, take, drop, half, middle, out_of_fuel, Run, Turn, throws, yields, divides, turn,
  run, volume, account_event_pages, emit,
}
use billion.Accounts.Pages.Windows.{
  Divided, in_time, in_authors, in_kinds, turn-Divided, middle-bounds, after, run-after,
}

-- The window has a second.
abbrev pub IsWindow : Filter → Type 0
IsWindow f = f.since ≤ f.until

length-take {ℓ} : {A : Type ℓ} (n : ℕ) (xs : List A) → n ≤ length xs → length (take n xs) ≡ n
unfolding take
length-take zero xs h = refl
length-take (suc n) [] h = omega (arith, h)
length-take (suc n) (x ∷ xs) h = omega (arith, length-take n xs (omega (arith, h)))

length-drop {ℓ} : {A : Type ℓ} (n : ℕ) (xs : List A) → length (drop n xs) ≡ length xs - n
unfolding drop
length-drop zero xs = omega arith
length-drop (suc n) [] = omega arith
length-drop (suc n) (x ∷ xs) = omega (arith, length-drop n xs)

volume-pos : (f : Filter) → IsWindow f → 0 < volume f
unfolding volume
volume-pos f h =
    mul-pos
      (mul-pos {m = f.until + 1 - f.since} {n = max 1 (length f.authors)} (omega (arith, h))
        (omega arith))
      (omega arith)

shares_first : (p q a b c : ℕ) → p + q ≡ a → p * b * c + q * b * c ≡ a * b * c
shares_first p q a b c h =
    sym (add-mul (p * b) (q * b) c) ∙ ap (λ n. n * c) (sym (add-mul p q b) ∙ ap (λ n. n * b) h)

shares_second : (a p q b c : ℕ) → p + q ≡ b → a * p * c + a * q * c ≡ a * b * c
shares_second a p q b c h =
    sym (add-mul (a * p) (a * q) c) ∙ ap (λ n. n * c) (sym (mul-add a p q) ∙ ap (λ n. a * n) h)

shares_third : (a p q c : ℕ) → p + q ≡ c → a * p + a * q ≡ a * c
shares_third a p q c h = sym (mul-add a p q) ∙ ap (λ n. a * n) h

halves {ℓ} :
    {A : Type ℓ} (xs : List A)
    → 1 < length xs
    → max 1 (length (drop (half (length xs)) xs)) + max 1 (length (take (half (length xs)) xs))
      ≡ max 1 (length xs)
unfolding half
halves xs h =
    omega (
      arith,
      length-drop (half (length xs)) xs,
      length-take (half (length xs)) xs (omega (arith, h)),
    )

-- What a division does to the volume, and to the windows.
abbrev Shared : Filter → Filter × Filter → Type 0
Shared f r = (volume r.0 + volume r.1 ≡ volume f) × IsWindow r.0 × IsWindow r.1

-- A division shares out the volume.
volume-Divided :
    (f : Filter) (oldest : Option ℕ) (r : Filter × Filter)
    → IsWindow f
    → Divided f oldest r
    → Shared f r
unfolding volume
volume-Divided f oldest r w (in_time h e) =
    let m = middle oldest f.since f.until in
    let (low, high) = middle-bounds oldest f.since f.until h in
    subst (Shared f) e (
      shares_first (m + 1 - f.since) (f.until + 1 - (m + 1)) (f.until + 1 - f.since)
          (max 1 (length f.authors)) (max 1 (length f.kinds)) (omega (arith, low, high)),
      low,
      omega (arith, high),
    )
volume-Divided f oldest r w (in_authors h e) = subst (Shared f) e (
  shares_second (f.until + 1 - f.since) _ _ (max 1 (length f.authors)) (max 1 (length f.kinds))
      (halves f.authors h),
  w,
  w,
)
volume-Divided f oldest r w (in_kinds h e) = subst (Shared f) e (
  shares_third ((f.until + 1 - f.since) * max 1 (length f.authors)) _ _ (max 1 (length f.kinds))
      (halves f.kinds h),
  w,
  w,
)

-- The rounds that pending filters take at most.
weight : List Filter → ℕ
weight [] = 0
weight (f ∷ fs) = 2 * volume f - 1 + weight fs

module _ (fetch : Filter → Page) where
  Ends : Run → Type 0
  Ends r = r.status ≢ out_of_fuel

  after-Ends :
      (rounds : ℕ) (f : Filter) (rest : List Filter) (u : Turn)
      → ((pending : List Filter)
          → All IsWindow pending
          → weight pending < rounds
          → Ends (run fetch rounds pending))
      → turn f (fetch f) ≡ u
      → All IsWindow (f ∷ rest)
      → weight (f ∷ rest) < suc rounds
      → Ends (after fetch rounds f rest u)
  unfolding Ends after emit weight
  after-Ends rounds f rest throws ih e w enough = λ k. ground arith
  after-Ends rounds f rest yields ih e w enough =
      ih rest w.1 (omega (arith, enough, volume-pos f w.0))
  after-Ends rounds f rest (divides a b) ih e w enough =
      let (total, first, second) =
        volume-Divided f (fetch f).oldest (a, b) w.0 (turn-Divided f (fetch f) a b e) in
      ih (b ∷ a ∷ rest) (second, (first, w.1))
        (omega (arith, enough, total, volume-pos a first, volume-pos b second))

  run-Ends :
      (rounds : ℕ) (pending : List Filter)
      → All IsWindow pending
      → weight pending < rounds
      → Ends (run fetch rounds pending)
  unfolding run Ends
  run-Ends zero pending w enough = omega (arith, enough)
  run-Ends (suc rounds) [] w enough = λ k. ground arith
  run-Ends (suc rounds) (f ∷ rest) w enough =
      subst Ends (sym (run-after fetch rounds f rest))
        (after-Ends rounds f rest (turn f (fetch f)) (run-Ends rounds) refl w enough)

  -- For a filter whose window has a second, the generator ends, whatever the relay answers.
  pub account_event_pages-Ends :
      (f : Filter) → IsWindow f → (account_event_pages fetch f).status ≢ out_of_fuel
  unfolding account_event_pages Ends weight
  account_event_pages-Ends f w =
      run-Ends (2 * volume f + 1) (f ∷ []) (w, tt) (omega (arith, volume-pos f w))
