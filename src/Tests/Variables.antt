-- ===== src/Tests/Variables.antt =====
-- A file of variables, of which one is set already and one is given twice.
use unseat.Base.{
  String, [], ◌∷◌, Option, none, some, ◌==◌, ◌≡◌, ◌⊎◌, refl, inr, if◌then◌else◌, trim_space,
  has_prefix,
}
use unseat.Base.Dict.{Dict, lookup, insert}
use unseat.Config.Env.{DotEnvFile, dot_env_line, load_dot_env, first_value, or_else}
use unseat.Config.Env.Laws.{lines_of, load_dot_env-lookup}

-- `os.Setenv` refuses an empty name.
abbrev refuses_empty : String → String → Option String
refuses_empty key value = if key == "" then some "setenv: invalid argument" else none

abbrev shell : Dict String
shell = ("LINEAR_API_KEY", "exported") ∷ []

abbrev dot_env : Option (String ⊎ DotEnvFile)
dot_env = some (
    inr (record {
      lines =
          "# tokens" ∷ "export FIGMA_TOKEN = 'a b'" ∷ "" ∷ "FIGMA_TOKEN=later"
          ∷ "LINEAR_API_KEY=file" ∷ [];
      scan_error = none;
    }))

loaded : (load_dot_env refuses_empty ".env" dot_env shell).0 ≡ none
unfolding load_dot_env dot_env_line trim_space has_prefix lookup insert
loaded = refl

first_kept : lookup "FIGMA_TOKEN" (load_dot_env refuses_empty ".env" dot_env shell).1 ≡ some "a b"
unfolding load_dot_env dot_env_line trim_space has_prefix lookup insert
first_kept = refl

load_dot_env-lookup_example :
    lookup "FIGMA_TOKEN" (load_dot_env refuses_empty ".env" dot_env shell).1
    ≡ or_else (lookup "FIGMA_TOKEN" shell) (first_value "FIGMA_TOKEN" (lines_of dot_env))
load_dot_env-lookup_example =
    load_dot_env-lookup refuses_empty ".env" dot_env shell loaded "FIGMA_TOKEN"
