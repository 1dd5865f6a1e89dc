-- ===== src/NostrDb/Crdt/Tombstones.antt =====
-- crdt.js, `encodeTombstoneValues` and `decodeTombstoneValues`: the values of a deleted tag, joined
-- by '^'. A '^' in a value is written "-^"; a '-' is not escaped.
use billion.Common.{
  ℕ, ◌+◌, ◌≡◌, refl, sym, ap, ◌∙◌, inl, inr, Bool, true, false, ◌&&◌, List, [], ◌∷◌, ◌++◌, arith,
  ◌==◌, if◌then◌else◌, length, Bool-cases, if_cases,
}
use mathlib.Core.List.{append_assoc, append-nil}
use billion.Common.Text.{Str}

-- `replaceAll('^', '-^')`
escape_unit : ℕ → Str
escape_unit c = if c == b'^' then b'-' ∷ b'^' ∷ [] else c ∷ []

escape : Str → Str
unfolding escape_unit
escape [] = []
escape (c ∷ cs) = escape_unit c ++ escape cs

-- `values.map(escape).join('^')`
unfoldable pub encode_values : List Str → Str
unfolding escape
encode_values [] = []
encode_values (v ∷ []) = escape v
encode_values (v ∷ w ∷ vs) = escape v ++ b'^' ∷ encode_values (w ∷ vs)

-- The loop of the decoder over the rest of the text, with `value` so far.
decode_from : Str → Str → List Str
decode_from value [] = value ∷ []
decode_from value (c ∷ []) = if c == b'^' then value ∷ [] ∷ [] else (value ++ c ∷ []) ∷ []
decode_from value (c ∷ d ∷ cs) =
    let escaped = decode_from (value ++ b'^' ∷ []) cs in
    let ended = value ∷ decode_from [] (d ∷ cs) in
    let longer = decode_from (value ++ c ∷ []) (d ∷ cs) in
    if (c == b'-') && (d == b'^') then escaped else if c == b'^' then ended else longer

unfoldable pub decode_values : Str → List Str
unfolding decode_from
decode_values encoded = decode_from [] encoded

decode_test :
    decode_values (encode_values ((b'a' ∷ b'^' ∷ []) ∷ [] ∷ (b'-' ∷ b'-' ∷ []) ∷ []))
    ≡ (b'a' ∷ b'^' ∷ []) ∷ [] ∷ (b'-' ∷ b'-' ∷ []) ∷ []
unfolding decode_values encode_values
decode_test = refl

-- Does the text end with '-'?
unfoldable pub ends_dash : Str → Bool
ends_dash [] = false
ends_dash (c ∷ []) = c == b'-'
ends_dash (c ∷ d ∷ cs) = ends_dash (d ∷ cs)

-- The separators that decoding takes for an escaped '^': one behind each value but the last that
-- ends with '-'.
unfoldable pub swallowed : List Str → ℕ
swallowed [] = 0
swallowed (v ∷ []) = 0
swallowed (v ∷ w ∷ vs) = (if ends_dash v then 1 else 0) + swallowed (w ∷ vs)

starts_caret : Str → Bool
starts_caret [] = false
starts_caret (c ∷ cs) = c == b'^'

decode_from-caret :
    (value rest : Str) → decode_from value (b'^' ∷ rest) ≡ value ∷ decode_from [] rest
unfolding decode_from
decode_from-caret value [] = refl
decode_from-caret value (d ∷ rest) = refl

decode_from-escaped :
    (value rest : Str)
    → decode_from value (b'-' ∷ b'^' ∷ rest) ≡ decode_from (value ++ b'^' ∷ []) rest
unfolding decode_from
decode_from-escaped value rest = refl

decode_from-plain :
    (value : Str) (c : ℕ) (rest : Str)
    → (c == b'^') ≡ false
    → ((c == b'-') && starts_caret rest) ≡ false
    → decode_from value (c ∷ rest) ≡ decode_from (value ++ c ∷ []) rest
unfolding decode_from starts_caret
decode_from-plain value c [] h k = rw h
decode_from-plain value c (d ∷ rest) h k = rw (k, h)

decode_from-unit :
    (value : Str) (c : ℕ) (rest : Str)
    → ((c == b'-') && starts_caret rest) ≡ false
    → decode_from value (escape_unit c ++ rest) ≡ decode_from (value ++ c ∷ []) rest
unfolding escape_unit
decode_from-unit value c rest h = elim (Bool-cases (c == b'^')) [
  | inl e ↦ rw e (
      decode_from-escaped value rest
      ∙ ap (λ (x : ℕ). decode_from (value ++ x ∷ []) rest) (ground arith))
  | inr e ↦ rw e (decode_from-plain value c rest e h)
]

starts_caret-escape : (d : ℕ) (ds rest : Str) → starts_caret (escape (d ∷ ds) ++ rest) ≡ false
unfolding starts_caret escape
starts_caret-escape d ds rest =
    if_cases (λ u. starts_caret ((u ++ escape ds) ++ rest) ≡ false) (d == b'^') _ _ (λ e. refl)
      (λ e. e)

escape_append :
    (c : ℕ) (cs rest : Str) → escape (c ∷ cs) ++ rest ≡ escape_unit c ++ (escape cs ++ rest)
unfolding escape
escape_append c cs rest = append_assoc (escape_unit c) (escape cs) rest

snoc_append : (value : Str) (c : ℕ) (v : Str) → (value ++ c ∷ []) ++ v ≡ value ++ c ∷ v
snoc_append value c v = append_assoc value (c ∷ []) v

-- A value is read up to its last unit, whatever follows it.
decode_from-escape_init :
    (value : Str) (c d : ℕ) (v rest : Str)
    → decode_from value (escape (c ∷ d ∷ v) ++ rest)
      ≡ decode_from (value ++ c ∷ []) (escape (d ∷ v) ++ rest)
decode_from-escape_init value c d v rest = rw (escape_append c (d ∷ v) rest) (
    decode_from-unit value c (escape (d ∷ v) ++ rest)
      (ground (arith, starts_caret-escape d v rest)))

-- An escaped value before a separator is read back, unless it ends with '-'.
decode_from-escape_caret :
    (value v rest : Str)
    → ends_dash v ≡ false
    → decode_from value (escape v ++ b'^' ∷ rest) ≡ (value ++ v) ∷ decode_from [] rest
unfolding ends_dash
decode_from-escape_caret value [] rest h =
    unfold escape in
    decode_from-caret value rest ∙ ap (λ v. v ∷ decode_from [] rest) (sym (append-nil value))
decode_from-escape_caret value (c ∷ []) rest h = rw (escape_append c [] (b'^' ∷ rest)) (
    decode_from-unit value c (escape [] ++ b'^' ∷ rest) (unfold starts_caret escape in ground arith)
    ∙ unfold escape in decode_from-caret (value ++ c ∷ []) rest)
decode_from-escape_caret value (c ∷ d ∷ v) rest h =
    decode_from-escape_init value c d v (b'^' ∷ rest)
    ∙ decode_from-escape_caret (value ++ c ∷ []) (d ∷ v) rest h
    ∙ ap (λ x. x ∷ decode_from [] rest) (snoc_append value c (d ∷ v))

swallow_dash :
    (value : Str) (c : ℕ) (rest : Str)
    → (c == b'-') ≡ true
    → decode_from value (((if c == b'^' then b'-' ∷ b'^' ∷ [] else c ∷ []) ++ []) ++ b'^' ∷ rest)
      ≡ decode_from (value ++ b'^' ∷ []) rest
swallow_dash value c rest h =
    let e : c ≡ b'-' = ground arith in rw e (decode_from-escaped value rest)

-- One that ends with '-' takes the separator, and runs on.
decode_from-swallow :
    (value v rest : Str)
    → ends_dash v ≡ true
    → (longer : Str) × (decode_from value (escape v ++ b'^' ∷ rest) ≡ decode_from longer rest)
unfolding ends_dash
decode_from-swallow value [] rest h = cc
decode_from-swallow value (c ∷ []) rest h =
    (value ++ b'^' ∷ [], unfold escape escape_unit in swallow_dash value c rest h)
decode_from-swallow value (c ∷ d ∷ v) rest h =
    let (longer, e) = decode_from-swallow (value ++ c ∷ []) (d ∷ v) rest h in
    (longer, decode_from-escape_init value c d v (b'^' ∷ rest) ∙ e)

decode_from-escape_end : (value v : Str) → decode_from value (escape v ++ []) ≡ (value ++ v) ∷ []
decode_from-escape_end value [] =
    unfold decode_from escape in ap (λ x. x ∷ []) (sym (append-nil value))
decode_from-escape_end value (c ∷ []) = rw (escape_append c [] []) (
    decode_from-unit value c (escape [] ++ []) (unfold starts_caret escape in ground arith)
    ∙ unfold decode_from escape in refl)
decode_from-escape_end value (c ∷ d ∷ v) =
    decode_from-escape_init value c d v []
    ∙ decode_from-escape_end (value ++ c ∷ []) (d ∷ v)
    ∙ ap (λ x. x ∷ []) (snoc_append value c (d ∷ v))

decode_from-escape : (value v : Str) → decode_from value (escape v) ≡ (value ++ v) ∷ []
decode_from-escape value v =
    ap (decode_from value) (sym (append-nil (escape v))) ∙ decode_from-escape_end value v

decode_from-encode :
    (value v : Str) (vs : List Str)
    → swallowed (v ∷ vs) ≡ 0
    → decode_from value (encode_values (v ∷ vs)) ≡ (value ++ v) ∷ vs
unfolding encode_values swallowed
decode_from-encode value v [] h = decode_from-escape value v
decode_from-encode value v (w ∷ vs) h =
    decode_from-escape_caret value v (encode_values (w ∷ vs)) (ground arith)
    ∙ ap (λ x. (value ++ v) ∷ x) (decode_from-encode [] w vs (ground arith))

length-decode_from :
    (value v : Str) (vs : List Str)
    → length (decode_from value (encode_values (v ∷ vs))) + swallowed (v ∷ vs) ≡ length (v ∷ vs)
unfolding encode_values swallowed
length-decode_from value v [] = omega (arith, ap length (decode_from-escape value v))
length-decode_from value v (w ∷ vs) = elim (Bool-cases (ends_dash v)) [
  | inl e ↦
      let (longer, same) = decode_from-swallow value v (encode_values (w ∷ vs)) e in
      rw e (omega (arith, ap length same, length-decode_from longer w vs))
  | inr e ↦ rw e (
      omega (
        arith,
        ap length (decode_from-escape_caret value v (encode_values (w ∷ vs)) e),
        length-decode_from [] w vs,
      ))
]

-- The values of a tombstone are read back as they were, if none of them but the last ends with '-'.
pub decode_values-encode_values :
    (v : Str) (vs : List Str)
    → swallowed (v ∷ vs) ≡ 0
    → decode_values (encode_values (v ∷ vs)) ≡ v ∷ vs
unfolding decode_values
decode_values-encode_values v vs h = decode_from-encode [] v vs h

-- Reading back loses exactly one value for each value but the last that ends with '-': such a value
-- is merged with the next one.
pub length-decode_values :
    (v : Str) (vs : List Str)
    → length (decode_values (encode_values (v ∷ vs))) + swallowed (v ∷ vs) ≡ length (v ∷ vs)
unfolding decode_values
length-decode_values v vs = length-decode_from [] v vs
