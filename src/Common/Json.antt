-- ===== src/Common/Json.antt =====
-- `JSON.stringify` of strings and of arrays of strings.
use Prim.Native.Nat.{ℕ, ◌+◌, ◌-◌, ◌/◌, ◌%◌}
use mathlib.Core.Bool.{Bool, ◌&&◌}
use mathlib.Core.List.{List, [], ◌∷◌, ◌++◌}
use billion.Common.Tests.{ltb, leb, ◌==◌, if◌then◌else◌}
use billion.Common.Text.{Str}

hex_digit : ℕ → ℕ
hex_digit d = if ltb d 10 then b'0' + d else b'a' + (d - 10)

unicode_escape : ℕ → Str
unfolding hex_digit
unicode_escape c =
    b'\\'
    ∷ b'u'
    ∷ hex_digit (c / 4096 % 16)
    ∷ hex_digit (c / 256 % 16)
    ∷ hex_digit (c / 16 % 16)
    ∷ hex_digit (c % 16)
    ∷ []

escape_unit : ℕ → Str
unfolding unicode_escape
escape_unit c =
    if c == b'"'
    then b'\\' ∷ b'"' ∷ []
    else if c == b'\\'
    then b'\\' ∷ b'\\' ∷ []
    else if c == 8
    then b'\\' ∷ b'b' ∷ []
    else if c == 12
    then b'\\' ∷ b'f' ∷ []
    else if c == 10
    then b'\\' ∷ b'n' ∷ []
    else if c == 13
    then b'\\' ∷ b'r' ∷ []
    else if c == 9
    then b'\\' ∷ b't' ∷ []
    else if ltb c 32
    then unicode_escape c
    else c ∷ []

is_high : ℕ → Bool
is_high c = leb 0xd800 c && ltb c 0xdc00

is_low : ℕ → Bool
is_low c = leb 0xdc00 c && ltb c 0xe000

-- Surrogates stand in pairs, or they are escaped.
escape_text : Str → Str
unfolding escape_unit is_high is_low
escape_text [] = []
escape_text (c ∷ []) =
    if is_high c then unicode_escape c else if is_low c then unicode_escape c else escape_unit c
escape_text (c ∷ d ∷ rest) =
    let paired = escape_text rest in
    let single = escape_text (d ∷ rest) in
    if is_high c
    then (if is_low d then c ∷ d ∷ paired else unicode_escape c ++ single)
    else if is_low c
    then unicode_escape c ++ single
    else escape_unit c ++ single

unfoldable pub quote : Str → Str
unfolding escape_text
quote s = b'"' ∷ (escape_text s ++ b'"' ∷ [])

join_quoted : List Str → Str
unfolding quote
join_quoted [] = []
join_quoted (s ∷ []) = quote s
join_quoted (s ∷ t ∷ rest) = quote s ++ (b',' ∷ join_quoted (t ∷ rest))

unfoldable pub stringify : List Str → Str
unfolding join_quoted
stringify ss = b'[' ∷ (join_quoted ss ++ b']' ∷ [])
