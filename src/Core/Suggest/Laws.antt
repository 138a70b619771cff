-- ===== src/Core/Suggest/Laws.antt =====
-- When `matchAgainst` and `matchHandle` of internal/core/suggest.go name somebody.
use mathlib.Core.List.{Memᴰ}
use mathlib.Core.List.Memᴰ
use unseat.Base.{
  ℕ, suc, ◌+◌, String, List, [], ◌∷◌, true, Option, none, some, ◌==◌, ◌≡◌, refl, ap, arith,
  if◌then◌else◌, nat_eq, keep, count_of, any, is_some, ◌⊎◌, ◌≢◌, ◌∙◌, inl, inr, Bool-cases,
  Option-cases, some-injective, eq_refl,
}
use unseat.Core.Types.{User}
use unseat.Core.Suggest.{
  Unicode, DirectoryKey, matches_handle, hits_from, match_against, first_match, name_key,
  directory_key, build_directory_keys,
}

pub none-ne-some {ℓ} : {A : Type ℓ} (a : A) → none ≢ some a
none-ne-some a h = cc

-- How many identities of the directory a form may spell.
unfoldable pub claims : String → List DirectoryKey → ℕ
claims form keys = count_of (λ k. is_some (matches_handle k form)) keys

-- A form that one identity of the directory may spell, and no other.
pub record Claims (form : String) (keys : List DirectoryKey) (u : User) : Type 0 where
  pub by : DirectoryKey
  pub known : Memᴰ by keys
  pub is_user : by.user ≡ u
  pub spelled : is_some (matches_handle by form) ≡ true
  pub only : claims form keys ≡ 1

hits_from-count :
    (form : String) (keys : List DirectoryKey) (n : ℕ) (found : Option (User × String))
    → (hits_from form keys n found).0 ≡ n + claims form keys
unfolding hits_from claims keep
hits_from-count form [] n found = omega arith
hits_from-count form (k ∷ keys) n found = elim (Option-cases (matches_handle k form)) [
  | inl e ↦ rw (hits_from, e, keep) (hits_from-count form keys n found)
  | inr (basis, e) ↦
      rw (hits_from, e, keep)
        (omega (arith, hits_from-count form keys (suc n) (some (k.user, basis))))
]

-- A key that a form may spell, of an identity.
abbrev Spelled : String → List DirectoryKey → User → Type 0
Spelled form keys u =
    (k : DirectoryKey) × Memᴰ k keys × (k.user ≡ u) × (is_some (matches_handle k form) ≡ true)

further :
    (form : String) (k : DirectoryKey) (keys : List DirectoryKey) (u : User)
    → Spelled form keys u
    → Spelled form (k ∷ keys) u
further form k keys u (by, known, is_user, spelled) = (by, Memᴰ.tail known, is_user, spelled)

-- What the loop found is what it was given, or the identity of a key.
hits_from-found :
    (form : String) (keys : List DirectoryKey) (n : ℕ) (found : Option (User × String)) (u : User)
    (basis : String)
    → (hits_from form keys n found).1 ≡ some (u, basis)
    → (found ≡ some (u, basis)) ⊎ Spelled form keys u
unfolding hits_from
hits_from-found form [] n found u basis h = inl h
hits_from-found form (k ∷ keys) n found u basis h = elim (Option-cases (matches_handle k form)) [
  | inl e ↦ elim (hits_from-found form keys n found u basis (rw (hits_from, e) at h)) [
    | inl here ↦ inl here
    | inr there ↦ inr (further form k keys u there)
  ]
  | inr (b, e) ↦
      elim (hits_from-found form keys (suc n) (some (k.user, b)) u basis (rw (hits_from, e) at h)) [
        | inl here ↦ inr (k, Memᴰ.head refl, ap (λ x. x.0) (some-injective _ _ here), rw (e) refl)
        | inr there ↦ inr (further form k keys u there)
      ]
]

-- A match names an identity that alone may be spelled by the form.
pub match_against-Claims :
    (form : String) (keys : List DirectoryKey) (u : User) (basis : String)
    → match_against form keys ≡ some (u, basis)
    → Claims form keys u
unfolding match_against
match_against-Claims form keys u basis h = elim (Bool-cases (form == "")) [
  | inl e ↦ absurd (none-ne-some (u, basis) (rw (e) at h))
  | inr e ↦
      let count = hits_from-count form keys 0 none in
      let h' : (if nat_eq (hits_from form keys 0 none).0 1
            then (hits_from form keys 0 none).1
            else none)
          ≡ some (u, basis) =
        rw (e) at h in
      elim (Bool-cases (nat_eq (hits_from form keys 0 none).0 1)) [
        | inr other ↦ absurd (none-ne-some (u, basis) (rw (other) at h'))
        | inl one ↦ elim (hits_from-found form keys 0 none u basis (rw (one) at h')) [
          | inl none_found ↦ absurd (none-ne-some (u, basis) none_found)
          | inr (k, known, is_user, spelled) ↦ record {
            by = k;
            known = known;
            is_user = is_user;
            spelled = spelled;
            only = ground arith;
          }
        ]
      ]
]

-- The first form of a list that names somebody is one of the list.
pub first_match-Claims :
    (forms : List String) (keys : List DirectoryKey) (u : User) (basis : String)
    → first_match forms keys ≡ some (u, basis)
    → (form : String) × (any (λ f. f == form) forms ≡ true) × Claims form keys u
unfolding first_match any
first_match-Claims [] keys u basis h = absurd (none-ne-some (u, basis) h)
first_match-Claims (form ∷ forms) keys u basis h = elim (Option-cases (match_against form keys)) [
  | inr (found, e) ↦ (
    form,
    ground (arith, eq_refl form),
    match_against-Claims form keys u basis (e ∙ (rw (first_match, e) at h)),
  )
  | inl e ↦
      let (other, listed, claimed) =
        first_match-Claims forms keys u basis (rw (first_match, e) at h) in
      (other, ground (arith), claimed)
]

-- The keys are those of the directory.
pub build_directory_keys-mem :
    (unicode : Unicode) (directory : List User) (k : DirectoryKey)
    → Memᴰ k (build_directory_keys unicode directory)
    → Memᴰ k.user directory
unfolding build_directory_keys directory_key
build_directory_keys-mem unicode [] k h = absurd (Memᴰ.not-nil h)
build_directory_keys-mem unicode (u ∷ us) k h =
    elim (Bool-cases (name_key unicode u.display_name == "")) [
      | inl e ↦ Memᴰ.tail (build_directory_keys-mem unicode us k (rw (e) at h))
      | inr e ↦ elim (Memᴰ.cases_cons (rw (e) at h)) [
        | inl here ↦ Memᴰ.head (ap (λ x. x.user) here)
        | inr there ↦ Memᴰ.tail (build_directory_keys-mem unicode us k there)
      ]
    ]
