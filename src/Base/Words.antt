-- ===== src/Base/Words.antt =====
-- What the matching of names uses of Go's `strings` and `unicode`: characters are classed by their
-- code, and a length is that of the UTF-8 text.
use Prim.Native.Char.{code}
use Prim.Native.Nat.{ℕ, ◌+◌}
use Prim.Native.String.{String, ◌++◌ as ◌<>◌}
use mathlib.Core.Bool.{Bool, ◌&&◌, ◌||◌}
use mathlib.Core.Option.{Option, none, some}
use mathlib.Core.List.{List, [], ◌∷◌}
use text.Mathlib.Text.{◌==◌}
use unseat.Base.Tests.{ltb, leb, nat_eq, if◌then◌else◌}
use unseat.Base.Text.{has_prefix}

char_size : ℕ → ℕ
char_size c = if ltb c 128 then 1 else if ltb c 2048 then 2 else if ltb c 65536 then 3 else 4

-- `len(s)`
unfoldable pub byte_length : String → ℕ
unfolding char_size
byte_length String.[] = 0
byte_length (String.◌∷◌ c s) = char_size (code c) + byte_length s

-- The characters that pass a test, in order.
unfoldable pub keep_chars : (ℕ → Bool) → String → String
keep_chars p String.[] = String.[]
keep_chars p (String.◌∷◌ c s) =
    let rest = keep_chars p s in if p (code c) then String.◌∷◌ c rest else rest

fields_from : (ℕ → Bool) → String → String → List String
fields_from p word String.[] = if word == "" then [] else word ∷ []
fields_from p word (String.◌∷◌ c s) =
    let inside = p (code c) in
    let rest = fields_from p (if inside then word <> String.◌∷◌ c String.[] else String.[]) s in
    if inside || word == "" then rest else word ∷ rest

-- `strings.FieldsFunc`, by the test for what belongs to a word.
unfoldable pub fields : (ℕ → Bool) → String → List String
unfolding fields_from
fields p s = fields_from p "" s

-- The text before the first character with a code, if there is one.
unfoldable pub before_char : ℕ → String → Option String
before_char n String.[] = none
before_char n (String.◌∷◌ c s) =
    let rest = before_char n s in
    if nat_eq (code c) n
    then some String.[]
    else elim rest [ none ↦ none | some r ↦ some (String.◌∷◌ c r) ]

after_prefix : String → String → String
after_prefix s String.[] = s
after_prefix String.[] (String.◌∷◌ d t) = String.[]
after_prefix (String.◌∷◌ c s) (String.◌∷◌ d t) = after_prefix s t

-- `strings.Replace(s, t, "", 1)`, for a text `t` that is not empty.
unfoldable pub remove_first : String → String → String
unfolding after_prefix
remove_first String.[] t = String.[]
remove_first (String.◌∷◌ c s) t =
    let rest = remove_first s t in
    if has_prefix (String.◌∷◌ c s) t then after_prefix (String.◌∷◌ c s) t else String.◌∷◌ c rest

-- `strings.TrimSuffix`
unfoldable pub trim_suffix : String → String → String
trim_suffix String.[] t = String.[]
trim_suffix (String.◌∷◌ c s) t =
    let rest = trim_suffix s t in if String.◌∷◌ c s == t then String.[] else String.◌∷◌ c rest

-- `strings.TrimRight(s, "0123456789")`
unfoldable pub trim_digits : String → String
trim_digits String.[] = String.[]
trim_digits (String.◌∷◌ c s) =
    let rest = trim_digits s in
    if (leb b'0' (code c) && leb (code c) b'9') && rest == "" then String.[] else String.◌∷◌ c rest
