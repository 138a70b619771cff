-- ===== src/Core/Suggest/Spells.antt =====
-- Which users of a directory a form spells, said of the users themselves, and that the matching of
-- internal/core/suggest.go goes by it.
use mathlib.Core.List.{Memᴰ}
use mathlib.Core.List.Memᴰ
use unseat.Base.{
  String, List, [], ◌∷◌, Bool, true, false, not, ◌&&◌, ◌||◌, Option, none, some, ◌==◌, ◌≡◌, refl,
  sym, subst, ◌∙◌, arith, if◌then◌else◌, leb, byte_length, has_prefix, contains, remove_first,
  before_at, fields, to_lower, is_some, keep, count_of, Bool-cases, inl, inr,
}
use unseat.Core.Types.{User}
use unseat.Core.Suggest.{
  Unicode, DirectoryKey, matches_handle, surname_rule, last_or, given_fits, name_key,
  squashed_local, directory_key, build_directory_keys,
}
use unseat.Core.Suggest.Laws.{claims}

-- The last of a name's words, after the first.
abbrev surname_of : String → List String → String
surname_of word [] = word
surname_of word (next ∷ words) = surname_of next words

-- A surname of four bytes or more stands in the form, and what is left of the form begins like the
-- first word of the name, or the name's first word like it.
abbrev pub has_surname : List String → String → Bool
has_surname [] form = false
has_surname (given ∷ []) form = false
has_surname (given ∷ second ∷ more) form =
    let surname = surname_of second more in
    let left = remove_first form surname in
    leb 4 (byte_length surname)
    && contains form surname
    && not (left == "")
    && (has_prefix given left || has_prefix left given)

surname_of-last_or :
    (word : String) (words : List String) → last_or word words ≡ surname_of word words
unfolding last_or
surname_of-last_or word [] = refl
surname_of-last_or word (next ∷ words) = surname_of-last_or next words

surname_rule-has_surname :
    (words : List String) (form : String) → surname_rule words form ≡ has_surname words form
unfolding surname_rule given_fits
surname_rule-has_surname [] form = refl
surname_rule-has_surname (given ∷ []) form = refl
surname_rule-has_surname (given ∷ second ∷ more) form =
    ground (arith, surname_of-last_or second more)

module _ (unicode : Unicode) where
  -- The letters and digits of a text, without case and accents.
  abbrev full_name : User → String
  full_name u = name_key unicode u.display_name

  abbrev local_name : User → String
  local_name u = elim (before_at u.email) [
    | none ↦ ""
    | some local ↦ if local == "" then "" else name_key unicode local
  ]

  -- A form spells a user who has a name: it is the whole name, or the local part of the address, or
  -- six bytes or more that the name begins with, or it has the surname and fits the first name.
  unfoldable pub spells : String → User → Bool
  spells form u =
      not (full_name u == "")
      && (form == full_name u
          || (not (local_name u == "") && form == local_name u)
          || (leb 6 (byte_length form) && has_prefix (full_name u) form)
          || has_surname
              (fields unicode.is_letter_or_digit (to_lower (unicode.strip_accents u.display_name)))
              form)

  local-squashed :
      (o : Option String)
      → squashed_local unicode o
        ≡ elim o [ none ↦ "" | some local ↦ if local == "" then "" else name_key unicode local ]
  unfolding squashed_local
  local-squashed none = refl
  local-squashed (some local) = refl

  matches-spells :
      (form : String) (u : User)
      → (full_name u == "") ≡ false
      → is_some (matches_handle (directory_key unicode u) form) ≡ spells form u
  unfolding matches_handle directory_key spells
  matches-spells form u named =
      let words =
        fields unicode.is_letter_or_digit (to_lower (unicode.strip_accents u.display_name)) in
      ground (arith, named, surname_rule-has_surname words form, local-squashed (before_at u.email))

  spells-named : (form : String) (u : User) → (full_name u == "") ≡ true → spells form u ≡ false
  unfolding spells
  spells-named form u e = rw (e) refl

  pub claims-spells :
      (form : String) (directory : List User)
      → claims form (build_directory_keys unicode directory) ≡ count_of (spells form) directory
  unfolding claims keep build_directory_keys
  claims-spells form [] = refl
  claims-spells form (u ∷ us) = elim (Bool-cases (full_name u == "")) [
    | inl e ↦
        let none_of : spells form u ≡ false = spells-named form u e in
        rw (e, none_of) (claims-spells form us)
    | inr e ↦ rw (e) (ground (arith, matches-spells form u e, claims-spells form us))
  ]

  -- A key of the directory that a form may spell is that of a user whom the form spells.
  pub known-spells :
      (form : String) (directory : List User) (k : DirectoryKey)
      → Memᴰ k (build_directory_keys unicode directory)
      → is_some (matches_handle k form) ≡ true
      → spells form k.user ≡ true
  unfolding build_directory_keys directory_key
  known-spells form [] k h m = absurd (Memᴰ.not-nil h)
  known-spells form (u ∷ us) k h m = elim (Bool-cases (full_name u == "")) [
    | inl e ↦ known-spells form us k (rw (e) at h) m
    | inr e ↦ elim (Memᴰ.cases_cons (rw (e) at h)) [
      | inl here ↦
          let m' : is_some (matches_handle (directory_key unicode u) form) ≡ true =
            subst (λ x. is_some (matches_handle x form) ≡ true) here m in
          subst (λ (x : DirectoryKey). spells form x.user ≡ true) (sym here)
            (sym (matches-spells form u e) ∙ m')
      | inr there ↦ known-spells form us k there m
    ]
  ]
