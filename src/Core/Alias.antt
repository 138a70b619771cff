-- ===== src/Core/Alias.antt =====
-- internal/core/engine.go and classify.go: the alias index, which maps a provider-side identifier
-- to a corporate address. A slice of the `explicitAliases` map is an entry of a list here.
pub mod Laws
use Prim.Native.Char.{code}
use unseat.Base.{
  ℕ, String, List, [], ◌∷◌, Bool, ◌||◌, Option, none, some, ◌==◌, if◌then◌else◌, to_lower, normal,
  before_at, nat_eq, any,
}
use unseat.Base.Dict.{Dict, lookup, insert, erase}

-- Whether a character is one of those that people vary: a dot, a dash, an underscore.
is_separator : ℕ → Bool
is_separator c = nat_eq c b'.' || nat_eq c b'-' || nat_eq c b'_'

-- `squashSeparators`
unfoldable pub squash_separators : String → String
unfolding is_separator
squash_separators String.[] = String.[]
squash_separators (String.◌∷◌ c s) =
    let rest = squash_separators s in if is_separator (code c) then rest else String.◌∷◌ c rest

-- The two maps that `BuildAliasIndex` fills: the index, and the set of ambiguous keys.
pub record Building : Type 0 where
  pub index : Dict String
  pub ambiguous : List String

abbrev pub contains : List String → String → Bool
contains xs k = any (λ x. x == k) xs

-- The closure `add`.
unfoldable pub add : Building → String → String → Building
add b k email = if k == "" then b else elim (lookup k b.index) [
  | none ↦ record b { index = insert k email b.index }
  | some existing ↦
      if existing == email
      then record b { index = insert k email b.index }
      else record b { ambiguous = k ∷ b.ambiguous }
]

-- The body of the loop over the desired addresses.
unfoldable pub add_email : Building → String → Building
add_email b email =
    let lower = to_lower email in
    elim (before_at lower) [
      | none ↦ b
      | some local ↦
          if local == "" then b else add (add b local lower) (squash_separators local) lower
    ]

unfoldable pub add_emails : Building → List String → Building
unfolding add_email
add_emails b [] = b
add_emails b (e ∷ es) = add_emails (add_email b e) es

-- The loop that deletes the ambiguous keys.
unfoldable pub drop_keys : List String → Dict String → Dict String
drop_keys [] m = m
drop_keys (k ∷ ks) m = drop_keys ks (erase k m)

unfoldable pub implicit_index : List String → Dict String
implicit_index emails =
    let b = add_emails (record { index = []; ambiguous = [] }) emails in
    drop_keys b.ambiguous b.index

-- The two loops over the aliases that the configuration declares.
unfoldable pub add_aliases : String → List String → Dict String → Dict String
add_aliases canonical [] m = m
add_aliases canonical (alias ∷ aliases) m =
    add_aliases canonical aliases (insert (to_lower alias) canonical m)

unfoldable pub add_explicit : Dict (List String) → Dict String → Dict String
add_explicit [] m = m
add_explicit ((canonical, aliases) ∷ rest) m =
    add_explicit rest (add_aliases (to_lower canonical) aliases m)

-- `BuildAliasIndex`
unfoldable pub build_alias_index : Dict (List String) → List String → Dict String
build_alias_index explicit desired = add_explicit explicit (implicit_index desired)

-- `resolveAlias`; `none` stands for a nil index.
unfoldable pub resolve_alias : Option (Dict String) → String → String
resolve_alias none email = normal email
resolve_alias (some index) email = elim (lookup (normal email) index) [
  | some canonical ↦ canonical
  | none ↦ elim (lookup (squash_separators (normal email)) index) [
    | some canonical ↦ canonical
    | none ↦ normal email
  ]
]
