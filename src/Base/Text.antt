-- ===== src/Base/Text.antt =====
-- What the program uses of Go's `strings` package. Case folding and white space are those of
-- ASCII; any other character is left as it is.
use Prim.Native.Nat.{ℕ, ◌+◌, ◌<◌, compare, Ordering}
use Prim.Native.Char.{Char, char, code, IsScalar}
use Prim.Native.String.{String, ◌++◌ as ◌<>◌}
use mathlib.Core.Path.{◌≡◌, refl, ap₂}
use mathlib.Core.Bool.{Bool, true, false, ◌&&◌, ◌||◌}
use mathlib.Core.Option.{Option, none, some}
use native.Mathlib.Omega.{arith}
use text.Mathlib.Text.{◌==◌}
use text.Mathlib.TextEquality.{Char-path}
use mathlib.Core.Logic.{inl, inr}
use mathlib.Core.List.{List, [], ◌∷◌}
use unseat.Base.Tests.{leb, nat_eq, if◌then◌else◌, Bool-cases, is_some}

is_upper : ℕ → Bool
is_upper c = leb b'A' c && leb c b'Z'

lower_code : ℕ → ℕ
unfolding is_upper
lower_code c = if is_upper c then c + 32 else c

small-IsScalar : (n : ℕ) → n < 55296 → IsScalar n
small-IsScalar n h = let e : compare n 55296 ≡ Ordering.lt = ground arith in rw e tt

upper-small : (n : ℕ) → is_upper n ≡ true → n + 32 < 55296
unfolding is_upper
upper-small n h = ground arith

lower_code-IsScalar : (n : ℕ) → IsScalar n → IsScalar (lower_code n)
unfolding lower_code
lower_code-IsScalar n h = elim (Bool-cases (is_upper n)) [
  | inl e ↦ rw (e, lower_code) (small-IsScalar (n + 32) (upper-small n e))
  | inr e ↦ rw (e, lower_code) h
]

lower_code_idem : (n : ℕ) → lower_code (lower_code n) ≡ lower_code n
unfolding lower_code
lower_code_idem n = ground arith

lower_char : Char → Char
unfolding lower_code
lower_char (char n p) = char (lower_code n) (lower_code-IsScalar n p)

lower_char_idem : (c : Char) → lower_char (lower_char c) ≡ lower_char c
unfolding lower_char
lower_char_idem (char n p) = Char-path _ _ (lower_code_idem n)

-- `strings.ToLower`
unfoldable pub to_lower : String → String
unfolding lower_char lower_code-IsScalar upper-small small-IsScalar
to_lower String.[] = String.[]
to_lower (String.◌∷◌ c s) = String.◌∷◌ (lower_char c) (to_lower s)

pub to_lower_idem : (s : String) → to_lower (to_lower s) ≡ to_lower s
unfolding to_lower
to_lower_idem String.[] = refl
to_lower_idem (String.◌∷◌ c s) = ap₂ String.◌∷◌ (lower_char_idem c) (to_lower_idem s)

is_space : ℕ → Bool
is_space c = nat_eq c 32 || (leb 9 c && leb c 13)

trim_left : String → String
unfolding is_space
trim_left String.[] = String.[]
trim_left (String.◌∷◌ c s) =
    let rest = trim_left s in if is_space (code c) then rest else String.◌∷◌ c s

trim_right : String → String
unfolding is_space
trim_right String.[] = String.[]
trim_right (String.◌∷◌ c s) =
    let rest = trim_right s in
    if is_space (code c) && rest == "" then String.[] else String.◌∷◌ c rest

-- `strings.TrimSpace`
unfoldable pub trim_space : String → String
unfolding trim_left trim_right
trim_space s = trim_right (trim_left s)

-- `strings.ToLower(strings.TrimSpace(s))`, the form in which the program compares identifiers.
abbrev pub normal : String → String
normal s = to_lower (trim_space s)

-- `strings.EqualFold`
abbrev pub equal_fold : String → String → Bool
equal_fold s t = to_lower s == to_lower t

-- `strings.Contains(s, "@")`
unfoldable pub has_at : String → Bool
has_at String.[] = false
has_at (String.◌∷◌ c s) = nat_eq (code c) b'@' || has_at s

-- `strings.HasSuffix`
unfoldable pub has_suffix : String → String → Bool
has_suffix String.[] t = String.[] == t
has_suffix (String.◌∷◌ c s) t = String.◌∷◌ c s == t || has_suffix s t

-- `strings.HasPrefix`
unfoldable pub has_prefix : String → String → Bool
has_prefix s String.[] = true
has_prefix String.[] (String.◌∷◌ d t) = false
has_prefix (String.◌∷◌ c s) (String.◌∷◌ d t) = nat_eq (code c) (code d) && has_prefix s t

-- `strings.Contains`
unfoldable pub contains : String → String → Bool
unfolding has_prefix
contains String.[] t = has_prefix String.[] t
contains (String.◌∷◌ c s) t = has_prefix (String.◌∷◌ c s) t || contains s t

-- `strings.TrimPrefix(s, "@")`
unfoldable pub trim_at : String → String
trim_at String.[] = String.[]
trim_at (String.◌∷◌ c s) = if nat_eq (code c) b'@' then s else String.◌∷◌ c s

-- The text before the first `@`, and `none` where there is no `@`: `strings.IndexByte(s, '@')`
-- and the slice up to it.
unfoldable pub before_at : String → Option String
before_at String.[] = none
before_at (String.◌∷◌ c s) =
    let rest = before_at s in
    if nat_eq (code c) b'@'
    then some String.[]
    else elim rest [ none ↦ none | some r ↦ some (String.◌∷◌ c r) ]

-- `strings.Join(parts, separator)`
unfoldable pub join : String → List String → String
join sep [] = ""
join sep (x ∷ []) = x
join sep (x ∷ y ∷ xs) = x <> (sep <> join sep (y ∷ xs))

-- A text with an `@` has a part before it, and only such a text.
pub before_at-has_at : (s : String) → is_some (before_at s) ≡ has_at s
unfolding before_at has_at
before_at-has_at String.[] = refl
before_at-has_at (String.◌∷◌ c s) = ground (arith, before_at-has_at s)

pub has_at_empty : has_at "" ≡ false
unfolding has_at
has_at_empty = refl
