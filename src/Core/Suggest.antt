-- ===== src/Core/Suggest.antt =====
-- internal/core/suggest.go: seats that no alias maps, matched with the directory by name or handle.
pub mod Laws
pub mod Report
pub mod Spells
use unseat.Base.{
  ℕ, zero, suc, String, ◌<>◌, List, [], ◌∷◌, ◌++◌, Bool, true, false, not, ◌&&◌, ◌||◌, Option, none,
  some, ◌==◌, if◌then◌else◌, leb, nat_eq, length, to_lower, trim_space, equal_fold, has_suffix,
  has_prefix, contains, before_at, before_char, byte_length, keep_chars, fields, remove_first,
  trim_suffix, trim_digits, keep, map,
}
use unseat.Base.Sorting.{str_lt, sort_by}
use unseat.Core.Types.{User}
use unseat.Core.Seats.{ClassifiedSeat}

-- What of Unicode comes from outside: `stripAccents`, which is made of golang.org/x/text, and the
-- codes of letters and digits.
pub record Unicode : Type 0 where
  pub strip_accents : String → String
  pub is_letter_or_digit : ℕ → Bool

abbrev pub handle_noise : List String
handle_noise = "-collab" ∷ "-dev" ∷ "-io" ∷ "-inc" ∷ "-corp" ∷ []

abbrev pub min_prefix : ℕ
min_prefix = 6

abbrev pub min_surname : ℕ
min_surname = 4

pub record DirectoryKey : Type 0 where
  pub user : User
  pub full : String
  pub tokens : List String
  pub local : String

last_or : String → List String → String
last_or x [] = x
last_or x (y ∷ ys) = last_or y ys

-- `rest != "" && (HasPrefix(given, rest) || HasPrefix(rest, given))`
given_fits : String → String → Bool
given_fits given rest = not (rest == "") && (has_prefix given rest || has_prefix rest given)

-- The rule of the surname and the given name, in `matchesHandle`.
unfoldable pub surname_rule : List String → String → Bool
unfolding last_or given_fits
surname_rule [] h = false
surname_rule (given ∷ []) h = false
surname_rule (given ∷ second ∷ more) h =
    let surname = last_or second more in
    (leb min_surname (byte_length surname) && contains h surname)
    && given_fits given (remove_first h surname)

-- `matchesHandle`: the basis of the match.
unfoldable pub matches_handle : DirectoryKey → String → Option String
unfolding surname_rule
matches_handle k h =
    if h == k.full
    then some "spells the directory name"
    else if not (k.local == "") && h == k.local
    then some "spells the directory address"
    else if leb min_prefix (byte_length h) && has_prefix k.full h
    then some "abbreviates the directory name"
    else if surname_rule k.tokens h
    then some "surname plus given name"
    else none

-- The loop of `matchAgainst`: the number of hits, and the last one.
unfoldable pub hits_from :
    String → List DirectoryKey → ℕ → Option (User × String) → ℕ × Option (User × String)
hits_from form [] n found = (n, found)
hits_from form (k ∷ keys) n found =
    let hit = matches_handle k form in
    hits_from form keys (elim hit [ none ↦ n | some basis ↦ suc n ])
      (elim hit [ none ↦ found | some basis ↦ some (k.user, basis) ])

-- `matchAgainst`
unfoldable pub match_against : String → List DirectoryKey → Option (User × String)
unfolding hits_from
match_against form keys =
    if form == ""
    then none
    else let hits = hits_from form keys 0 none in if nat_eq hits.0 1 then hits.1 else none

-- The loop of `matchHandle` over the forms of a handle.
unfoldable pub first_match : List String → List DirectoryKey → Option (User × String)
first_match [] keys = none
first_match (form ∷ forms) keys =
    let rest = first_match forms keys in
    elim (match_against form keys) [ none ↦ rest | some found ↦ some found ]

module _ (unicode : Unicode) where
  -- `nameKey`
  unfoldable pub name_key : String → String
  name_key s = keep_chars unicode.is_letter_or_digit (to_lower (unicode.strip_accents s))

  -- The local part of an address, squashed.
  squashed_local : Option String → String
  unfolding name_key
  squashed_local none = ""
  squashed_local (some local) = if local == "" then "" else name_key local

  directory_key : User → DirectoryKey
  unfolding squashed_local
  directory_key u = record {
    user = u;
    full = name_key u.display_name;
    tokens = fields unicode.is_letter_or_digit (to_lower (unicode.strip_accents u.display_name));
    local = squashed_local (before_at u.email);
  }

  -- `buildDirectoryKeys`
  unfoldable pub build_directory_keys : List User → List DirectoryKey
  unfolding directory_key
  build_directory_keys [] = []
  build_directory_keys (u ∷ us) =
      let rest = build_directory_keys us in
      if name_key u.display_name == "" then rest else directory_key u ∷ rest

  -- `companyLabel`
  unfoldable pub company_label : String → String
  company_label domain =
      let d = to_lower (trim_space domain) in
      name_key
        (elim (before_char b'.' d) [ none ↦ d | some label ↦ if label == "" then d else label ])

  -- The decorations of a handle, those with the company's name included.
  unfoldable pub noise_for : String → List String
  noise_for domain =
      let label = company_label domain in
      if label == "" then handle_noise else handle_noise ++ (("-" <> label) ∷ ("_" <> label) ∷ [])

  -- The form without the first decoration that the handle ends in.
  undecorated : String → List String → List String
  undecorated trimmed [] = []
  undecorated trimmed (suffix ∷ noise) =
      let rest = undecorated trimmed noise in
      if has_suffix trimmed suffix then name_key (trim_suffix trimmed suffix) ∷ [] else rest

  without_counter : String → List String
  without_counter form =
      let stripped = trim_digits form in
      if not (stripped == form) && not (stripped == "") then stripped ∷ [] else []

  -- The forms that `matchHandle` tries.
  unfoldable pub handle_forms : String → List String → List String
  unfolding undecorated without_counter
  handle_forms handle noise =
      name_key handle ∷ (undecorated (to_lower handle) noise ++ without_counter (name_key handle))

  -- `matchHandle`
  unfoldable pub match_handle : String → List DirectoryKey → List String → Option (User × String)
  match_handle handle keys noise = first_match (handle_forms handle noise) keys

-- The name of a seat, and whether it is more than the handle.
abbrev pub stated_name : ClassifiedSeat → String
stated_name seat = trim_space seat.user.display_name

unfoldable pub has_name : ClassifiedSeat → Bool
has_name seat = not (stated_name seat == "") && not (equal_fold (stated_name seat) seat.raw_email)
