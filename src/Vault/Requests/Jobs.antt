-- ===== src/Vault/Requests/Jobs.antt =====
-- src/services/vault-request-queue.js: a request in the queue, and how often an id stands in a list.
use billion.Common.{
  ℕ, ◌+◌, ◌-◌, ◌≤◌, ◌<◌, ◌≡◌, refl, Bool, Option, List, [], ◌∷◌, ◌++◌, some, arith, ◌==◌,
  if◌then◌else◌, length, count_if, find, All, count_if-append,
}

-- The id stands for the identity of the source's object (`queue.indexOf(job)`, the `Set`).
pub record Job : Type 0 where
  pub id : ℕ
  pub priority : Bool
  pub chunk : Bool
  pub archive : Bool
  pub deadline : Option ℕ

-- `splice(indexOf(job), 1)`, and `Set.delete`
unfoldable pub remove : ℕ → List Job → List Job
remove i [] = []
remove i (j ∷ js) = if j.id == i then js else j ∷ remove i js

abbrev pub occurrences : ℕ → List Job → ℕ
occurrences i = count_if (λ j. j.id == i)

pub occurrences-remove :
    (k i : ℕ) (js : List Job)
    → occurrences k (remove i js) ≡ occurrences k js - (if k == i then 1 else 0)
unfolding remove count_if
occurrences-remove k i [] = ground arith
occurrences-remove k i (j ∷ js) = ground (arith, occurrences-remove k i js)

pub count_if-remove-le :
    (p : Job → Bool) (i : ℕ) (js : List Job) → count_if p (remove i js) ≤ count_if p js
unfolding remove count_if
count_if-remove-le p i [] = omega arith
count_if-remove-le p i (j ∷ js) = ground (arith, count_if-remove-le p i js)

pub length-remove-le : (i : ℕ) (js : List Job) → length (remove i js) ≤ length js
unfolding remove
length-remove-le i [] = omega arith
length-remove-le i (j ∷ js) = ground (arith, length-remove-le i js)

pub length-remove :
    (i : ℕ) (js : List Job) → 0 < occurrences i js → length (remove i js) < length js
unfolding remove count_if
length-remove i [] h = absurd (omega arith)
length-remove i (j ∷ js) h = ground (arith, length-remove i js)

pub occurrences-append :
    (k : ℕ) (xs ys : List Job) → occurrences k (xs ++ ys) ≡ occurrences k xs + occurrences k ys
occurrences-append k xs ys = count_if-append (λ j. j.id == k) xs ys

-- What a search finds stands in the list.
pub find-occurs :
    (p : Job → Bool) (js : List Job) (j : Job) → find p js ≡ some j → 0 < occurrences j.id js
unfolding find count_if
find-occurs p [] j h = ground arith
find-occurs p (x ∷ js) j h = ground (arith, find-occurs p js j)

pub remove-All : (P : Job → Type 0) (i : ℕ) (js : List Job) → All P js → All P (remove i js)
unfolding remove
remove-All P i [] h = tt
remove-All P i (j ∷ js) h = ground (arith, remove-All P i js h.1)

pub no_occurrences : (js : List Job) → ((k : ℕ) → occurrences k js ≡ 0) → js ≡ []
unfolding count_if
no_occurrences [] h = refl
no_occurrences (j ∷ js) h = ground (arith, h j.id)
