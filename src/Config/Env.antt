-- ===== src/Config/Env.antt =====
-- config/env.go: `LoadDotEnv`. The environment of the process is a map; the lines of the file, the
-- error that ends them, and what `os.Setenv` refuses come from outside.
pub mod Laws
use Prim.Native.Char.{code}
use unseat.Base.{
  ℕ, suc, String, ◌<>◌, List, [], ◌∷◌, Bool, true, false, ◌||◌, Option, none, some, ◌==◌, ◌≡◌, refl,
  ap, if◌then◌else◌, nat_eq, has_prefix, trim_space, Bool-cases, Option-cases, inl, inr, ◌⊎◌,
  is_some, arith, eq_iff,
}
use unseat.Base.Decimal.{decimal}
use unseat.Base.Dict.{Dict, lookup, insert, lookup-insert}

-- `strings.Cut` at a character.
unfoldable pub cut : ℕ → String → Option (String × String)
cut c String.[] = none
cut c (String.◌∷◌ d s) =
    let rest = cut c s in
    if nat_eq (code d) c
    then some (String.[], s)
    else elim rest [ none ↦ none | some (a, b) ↦ some (String.◌∷◌ d a, b) ]

-- What follows a prefix.
after_prefix : String → String → Option String
after_prefix String.[] s = some s
after_prefix (String.◌∷◌ c t) String.[] = none
after_prefix (String.◌∷◌ c t) (String.◌∷◌ d s) =
    let rest = after_prefix t s in if nat_eq (code c) (code d) then rest else none

-- `strings.TrimPrefix`
unfoldable pub trim_prefix : String → String → String
unfolding after_prefix
trim_prefix s t = elim (after_prefix t s) [ none ↦ s | some rest ↦ rest ]

-- A text without its last character, where that is the one given.
before_last : ℕ → String → Option String
before_last c String.[] = none
before_last c (String.◌∷◌ d s) =
    let rest = before_last c s in
    if s == ""
    then (if nat_eq (code d) c then some String.[] else none)
    else elim rest [ none ↦ none | some inner ↦ some (String.◌∷◌ d inner) ]

-- The matching surrounding quotes are stripped.
unfoldable pub unquoted : String → String
unfolding before_last
unquoted String.[] = String.[]
unquoted (String.◌∷◌ c s) =
    if nat_eq (code c) b'"' || nat_eq (code c) b'\''
    then elim (before_last (code c) s) [ none ↦ String.◌∷◌ c s | some inner ↦ inner ]
    else String.◌∷◌ c s

-- What a line of the file is.
pub data DotEnvLine : Type 0 where
  blank malformed : DotEnvLine
  pair : (key value : String) → DotEnvLine

unfoldable pub dot_env_line : String → DotEnvLine
unfolding cut trim_prefix unquoted
dot_env_line text =
    let line = trim_space text in
    if line == "" || has_prefix line "#"
    then blank
    else elim (cut b'=' (trim_prefix line "export ")) [
      | none ↦ malformed
      | some (key, value) ↦ pair (trim_space key) (unquoted (trim_space value))
    ]

-- The file, as a scanner reads it: its lines, and the error that ends them.
pub record DotEnvFile : Type 0 where
  pub lines : List String
  pub scan_error : Option String

module _ (setenv_refuses : String → String → Option String) where
  -- A pair of line `n`: a variable that exists is left alone.
  unfoldable pub set_pair : String → ℕ → String → String → Dict String → Option String × Dict String
  set_pair path n key value env =
      if is_some (lookup key env) then (none, env) else elim (setenv_refuses key value) [
        | none ↦ (none, insert key value env)
        | some why ↦
            (some (path <> (":" <> (decimal n <> (": set " <> (key <> (": " <> why)))))), env)
      ]

  -- One line, of number `n`.
  unfoldable pub load_line : String → ℕ → DotEnvLine → Dict String → Option String × Dict String
  unfolding set_pair
  load_line path n blank env = (none, env)
  load_line path n malformed env =
      (some (path <> (":" <> (decimal n <> ": expected KEY=VALUE"))), env)
  load_line path n (pair key value) env = set_pair path n key value env

  -- The loop over the lines, after `n` of them: the error of the scanner when they end.
  unfoldable pub load_lines :
      String → Option String → ℕ → List String → Dict String → Option String × Dict String
  unfolding load_line
  load_lines path scan_error n [] env = (scan_error, env)
  load_lines path scan_error n (text ∷ rest) env =
      let (failure, env') = load_line path (suc n) (dot_env_line text) env in
      elim failure [
        | some why ↦ (some why, env')
        | none ↦ load_lines path scan_error (suc n) rest env'
      ]

  -- `LoadDotEnv`, of what `os.Open` gives: no file, an error, or the file.
  unfoldable pub load_dot_env :
      String → Option (String ⊎ DotEnvFile) → Dict String → Option String × Dict String
  unfolding load_lines
  load_dot_env path none env = (none, env)
  load_dot_env path (some (inl why)) env = (some ("read " <> (path <> (": " <> why))), env)
  load_dot_env path (some (inr file)) env = load_lines path file.scan_error 0 file.lines env

-- The first value that the lines give to a variable.
unfoldable pub first_value : String → List String → Option String
first_value key [] = none
first_value key (text ∷ rest) =
    let later = first_value key rest in
    elim (dot_env_line text) [
      | blank ↦ later
      | malformed ↦ later
      | pair k value ↦ if k == key then some value else later
    ]

-- What is there, or else what is offered.
abbrev pub or_else : Option String → Option String → Option String
or_else (some v) later = some v
or_else none later = later
