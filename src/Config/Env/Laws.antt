-- ===== src/Config/Env/Laws.antt =====
-- What `LoadDotEnv` of config/env.go does to the environment.
use unseat.Base.{
  ℕ, suc, String, List, [], ◌∷◌, Option, none, some, ◌==◌, ◌≡◌, ◌≢◌, refl, sym, ap, subst, ◌∙◌,
  if◌then◌else◌, Bool-cases, Option-cases, inl, inr, ◌⊎◌, eq_iff,
}
use unseat.Base.Dict.{Dict, lookup, lookup-insert}
use unseat.Config.Env.{
  DotEnvLine, DotEnvFile, blank, malformed, pair, dot_env_line, set_pair, load_line, load_lines,
  load_dot_env, first_value, or_else,
}

some-ne-none {ℓ} : {A : Type ℓ} (a : A) → some a ≢ none
some-ne-none a h = cc

-- The value that a line gives to a variable.
abbrev given : String → DotEnvLine → Option String
given key blank = none
given key malformed = none
given key (pair k value) = if k == key then some value else none

or_else_assoc : (a b c : Option String) → or_else (or_else a b) c ≡ or_else a (or_else b c)
or_else_assoc none b c = refl
or_else_assoc (some v) b c = refl

or_else-none : (a : Option String) → or_else a none ≡ a
or_else-none none = refl
or_else-none (some v) = refl

first_value-cons :
    (key text : String) (rest : List String)
    → first_value key (text ∷ rest) ≡ or_else (given key (dot_env_line text)) (first_value key rest)
unfolding first_value
first_value-cons key text rest = by_line (dot_env_line text)
  where
    by_line :
        (l : DotEnvLine)
        → elim l [
          | blank ↦ first_value key rest
          | malformed ↦ first_value key rest
          | pair k value ↦ if k == key then some value else first_value key rest
        ]
          ≡ or_else (given key l) (first_value key rest)
    by_line blank = refl
    by_line malformed = refl
    by_line (pair k value) = elim (Bool-cases (k == key)) [
      | inl e ↦ rw (e) refl
      | inr e ↦ rw (e) refl
    ]

module _ (setenv_refuses : String → String → Option String) where
  load_line-lookup :
      (path : String) (n : ℕ) (l : DotEnvLine) (env : Dict String)
      → (load_line setenv_refuses path n l env).0 ≡ none
      → (key : String)
      → lookup key (load_line setenv_refuses path n l env).1
        ≡ or_else (lookup key env) (given key l)
  unfolding load_line set_pair
  load_line-lookup path n blank env done key = sym (or_else-none (lookup key env))
  load_line-lookup path n malformed env done key = absurd (some-ne-none _ done)
  load_line-lookup path n (pair k value) env done key = elim (Option-cases (lookup k env)) [
    | inr (old, e) ↦ elim (Bool-cases (k == key)) [
      | inl same ↦
          let here : lookup key env ≡ some old =
            subst (λ x. lookup x env ≡ some old) ((eq_iff k key).0 same) e in
          rw (set_pair, e, here) refl
      | inr other ↦ rw (set_pair, e, other) (sym (or_else-none (lookup key env)))
    ]
    | inl e ↦ elim (Option-cases (setenv_refuses k value)) [
      | inr (why, r) ↦ absurd (some-ne-none _ (rw (set_pair, e, r) at done))
      | inl r ↦ elim (Bool-cases (k == key)) [
        | inl same ↦
            let here : lookup key env ≡ none =
              subst (λ x. lookup x env ≡ none) ((eq_iff k key).0 same) e in
            rw (set_pair, e, r) (rw (lookup-insert, same, here) refl)
        | inr other ↦
            rw (set_pair, e, r) (rw (lookup-insert, other) (sym (or_else-none (lookup key env))))
      ]
    ]
  ]

  load_lines-lookup :
      (path : String) (scan_error : Option String) (n : ℕ) (lines : List String) (env : Dict String)
      → (load_lines setenv_refuses path scan_error n lines env).0 ≡ none
      → (key : String)
      → lookup key (load_lines setenv_refuses path scan_error n lines env).1
        ≡ or_else (lookup key env) (first_value key lines)
  unfolding load_lines first_value
  load_lines-lookup path scan_error n [] env done key = sym (or_else-none (lookup key env))
  load_lines-lookup path scan_error n (text ∷ rest) env done key =
      let l = dot_env_line text in
      let env' = (load_line setenv_refuses path (suc n) l env).1 in
      elim (Option-cases (load_line setenv_refuses path (suc n) l env).0) [
        | inr (why, e) ↦ absurd (some-ne-none _ (rw (load_lines, e) at done))
        | inl e ↦
            rw (load_lines, e)
              (load_lines-lookup path scan_error (suc n) rest env' (rw (load_lines, e) at done) key
                ∙ (ap (λ o. or_else o (first_value key rest))
                      (load_line-lookup path (suc n) l env e key)
                    ∙ (or_else_assoc (lookup key env) (given key l) (first_value key rest)
                        ∙ ap (or_else (lookup key env)) (sym (first_value-cons key text rest)))))
      ]

-- The lines of what was opened.
abbrev pub lines_of : Option (String ⊎ DotEnvFile) → List String
lines_of none = []
lines_of (some (inl why)) = []
lines_of (some (inr file)) = file.lines

-- Where `LoadDotEnv` reports no error, every variable has the value that it had before, or else the
-- first value that the lines of the file give it, or else none.
pub load_dot_env-lookup :
    (setenv_refuses : String → String → Option String) (path : String)
    (opened : Option (String ⊎ DotEnvFile)) (env : Dict String)
    → (load_dot_env setenv_refuses path opened env).0 ≡ none
    → (key : String)
    → lookup key (load_dot_env setenv_refuses path opened env).1
      ≡ or_else (lookup key env) (first_value key (lines_of opened))
unfolding load_dot_env first_value
load_dot_env-lookup setenv_refuses path none env done key = sym (or_else-none (lookup key env))
load_dot_env-lookup setenv_refuses path (some (inl why)) env done key = absurd (some-ne-none _ done)
load_dot_env-lookup setenv_refuses path (some (inr file)) env done key =
    load_lines-lookup setenv_refuses path file.scan_error 0 file.lines env done key
