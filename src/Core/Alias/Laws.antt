-- ===== src/Core/Alias/Laws.antt =====
-- The alias index: an implicit key belongs to one address or to none, and the configuration wins.
use unseat.Base.{
  String, List, [], ◌∷◌, Bool, true, false, not, ◌&&◌, ◌||◌, Option, none, some, ◌==◌, eq_iff,
  eq_refl, arith, ◌≡◌, ◌↔◌, ◌⊎◌, inl, inr, refl, if◌then◌else◌, any, to_lower, before_at, ap, ◌∙◌,
  Bool-cases, Option-cases,
}
use unseat.Base.Dict.{Dict, lookup, insert, erase, lookup-insert, lookup-erase}
use unseat.Core.Alias.{
  squash_separators, Building, contains, add, add_email, add_emails, drop_keys, implicit_index,
  add_aliases, add_explicit, build_alias_index,
}

-- A desired address claims a key: its local part, or the local part with the separators removed.
abbrev pub claims : String → String → Bool
claims k email = elim (before_at (to_lower email)) [
  | none ↦ false
  | some local ↦ not (k == "") && not (local == "") && (local == k || squash_separators local == k)
]

-- What the claims made so far say of one key.
data Claim : Type 0 where
  nobody many : Claim
  one : String → Claim

abbrev meet : Claim → String → Claim
meet nobody e = one e
meet many e = many
meet (one x) e = if x == e then one x else many

abbrev known : Option String → Claim
known none = nobody
known (some e) = one e

abbrev status : String → Building → Claim
status k b = if contains b.ambiguous k then many else known (lookup k b.index)

abbrev as_option : Claim → Option String
as_option (one e) = some e
as_option nobody = none
as_option many = none

abbrev owner : String → Claim → List String → Claim
owner k c [] = c
owner k c (x ∷ xs) = owner k (if claims k x then meet c (to_lower x) else c) xs

status-add :
    (k j e : String) (b : Building)
    → status k (add b j e) ≡ (if j == k && not (j == "") then meet (status k b) e else status k b)
unfolding add any
status-add k j e b = elim (Option-cases (lookup j b.index)) [
  | inl h ↦ ground (arith, eq_iff j k, lookup-insert j k e b.index)
  | inr (x, h) ↦ ground (arith, eq_iff j k, eq_iff x e, lookup-insert j k e b.index)
]

meet_idem : (c : Claim) (e : String) → meet (meet c e) e ≡ meet c e
meet_idem nobody e = ground (arith, eq_refl e)
meet_idem many e = refl
meet_idem (one x) e = ground arith

status-add_email :
    (k email : String) (b : Building)
    → status k (add_email b email)
      ≡ (if claims k email then meet (status k b) (to_lower email) else status k b)
unfolding add_email
status-add_email k email b =
    let low = to_lower email in
    elim (Option-cases (before_at low)) [
      | inl h ↦ ground arith
      | inr (local, h) ↦
          let squashed = squash_separators local in
          ground (
            arith,
            status-add k local low b,
            status-add k squashed low (add b local low),
            meet_idem (status k b) low,
            eq_iff local k,
            eq_iff squashed k,
            eq_iff k "",
            eq_iff local "",
            eq_iff squashed "",
          )
    ]

status-add_emails :
    (k : String) (b : Building) (emails : List String)
    → status k (add_emails b emails) ≡ owner k (status k b) emails
unfolding add_emails
status-add_emails k b [] = refl
status-add_emails k b (x ∷ xs) =
    status-add_emails k (add_email b x) xs ∙ ap (λ c. owner k c xs) (status-add_email k x b)

lookup-drop_keys :
    (k : String) (ks : List String) (m : Dict String)
    → lookup k (drop_keys ks m) ≡ (if contains ks k then none else lookup k m)
unfolding drop_keys any
lookup-drop_keys k [] m = refl
lookup-drop_keys k (j ∷ ks) m =
    ground (arith, lookup-drop_keys k ks (erase j m), lookup-erase j k m)

as_option-status :
    (ambiguous : Bool) (found : Option String)
    → (if ambiguous then none else found) ≡ as_option (if ambiguous then many else known found)
as_option-status true found = refl
as_option-status false none = refl
as_option-status false (some e) = refl

lookup-implicit_index :
    (k : String) (emails : List String)
    → lookup k (implicit_index emails) ≡ as_option (owner k nobody emails)
unfolding implicit_index any lookup
lookup-implicit_index k emails =
    let b = add_emails (record { index = []; ambiguous = [] }) emails in
    lookup-drop_keys k b.ambiguous b.index
    ∙ as_option-status (contains b.ambiguous k) (lookup k b.index)
    ∙ ap as_option (status-add_emails k (record { index = []; ambiguous = [] }) emails)

-- Some desired address claims the key and is not this one.
abbrev pub has_rival : String → String → List String → Bool
has_rival k e emails = any (λ x. claims k x && not (to_lower x == e)) emails

-- Some desired address claims the key and is this one.
abbrev pub is_claimed : String → String → List String → Bool
is_claimed k e emails = any (λ x. claims k x && to_lower x == e) emails

owner-many : (k : String) (xs : List String) → owner k many xs ≡ many
owner-many k [] = refl
owner-many k (x ∷ xs) = elim (Bool-cases (claims k x)) [
  | inl h ↦ rw (h, owner) (owner-many k xs)
  | inr h ↦ rw (h, owner) (owner-many k xs)
]

owner-one :
    (k y e : String) (xs : List String)
    → (as_option (owner k (one y) xs) ≡ some e) ↔ ((y ≡ e) × (has_rival k e xs ≡ false))
unfolding any
owner-one k y e [] = ground arith
owner-one k y e (x ∷ xs) =
    ground
      (arith, owner-one k y e xs, owner-many k xs, eq_iff y (to_lower x), eq_iff (to_lower x) e)

owner-nobody :
    (k e : String) (xs : List String)
    → (as_option (owner k nobody xs) ≡ some e)
      ↔ ((is_claimed k e xs ≡ true) × (has_rival k e xs ≡ false))
unfolding any
owner-nobody k e [] = ground arith
owner-nobody k e (x ∷ xs) =
    ground (arith, owner-nobody k e xs, owner-one k (to_lower x) e xs, eq_iff (to_lower x) e)

-- Without declared aliases, a key resolves to an address exactly when that address, lowercased, is
-- among the desired ones that claim the key and every desired address that claims it is the same.
pub implicit_index_unique :
    (emails : List String) (k e : String)
    → (lookup k (implicit_index emails) ≡ some e)
      ↔ ((is_claimed k e emails ≡ true) × (has_rival k e emails ≡ false))
implicit_index_unique emails k e = rw (lookup-implicit_index k emails) (owner-nobody k e emails)

-- The canonical address of the last declared alias that is the key.
abbrev pub in_aliases : String → List String → Bool
in_aliases k aliases = any (λ a. to_lower a == k) aliases

abbrev pub declared : String → Dict (List String) → Option String
declared k [] = none
declared k ((canonical, aliases) ∷ rest) = elim (declared k rest) [
  | some c ↦ some c
  | none ↦ if in_aliases k aliases then some (to_lower canonical) else none
]

lookup-add_aliases :
    (k canonical : String) (aliases : List String) (m : Dict String)
    → lookup k (add_aliases canonical aliases m)
      ≡ (if in_aliases k aliases then some canonical else lookup k m)
unfolding add_aliases any
lookup-add_aliases k canonical [] m = refl
lookup-add_aliases k canonical (a ∷ aliases) m = ground (
  arith,
  lookup-add_aliases k canonical aliases (insert (to_lower a) canonical m),
  lookup-insert (to_lower a) k canonical m,
)

lookup-add_explicit :
    (k : String) (ex : Dict (List String)) (m : Dict String)
    → lookup k (add_explicit ex m) ≡ elim (declared k ex) [ some c ↦ some c | none ↦ lookup k m ]
unfolding add_explicit
lookup-add_explicit k [] m = refl
lookup-add_explicit k ((canonical, aliases) ∷ rest) m = ground (
  arith,
  lookup-add_explicit k rest (add_aliases (to_lower canonical) aliases m),
  lookup-add_aliases k (to_lower canonical) aliases m,
)

-- The configuration declares the key as an alias of some address.
abbrev pub is_declared : String → Dict (List String) → Bool
is_declared k explicit = any (λ entry. in_aliases k entry.1) explicit

-- The configuration declares the key as an alias of this address.
abbrev pub is_declared_for : String → String → Dict (List String) → Bool
is_declared_for k e explicit = any (λ entry. in_aliases k entry.1 && to_lower entry.0 == e) explicit

declared-cases :
    (k : String) (explicit : Dict (List String))
    → ((is_declared k explicit ≡ false) × (declared k explicit ≡ none))
      ⊎ ((e : String) × (is_declared_for k e explicit ≡ true) × (declared k explicit ≡ some e))
unfolding any
declared-cases k [] = inl (refl, refl)
declared-cases k ((canonical, aliases) ∷ rest) = elim (declared-cases k rest) [
  | inr (e, known, h) ↦ inr (e, ground (arith, known), ground (arith, h))
  | inl (free, h) ↦ elim (Bool-cases (in_aliases k aliases)) [
    | inl t ↦
        inr (
          to_lower canonical,
          ground (arith, t, eq_refl (to_lower canonical)),
          ground (arith, h, t),
        )
    | inr f ↦ inl (ground (arith, free, f), ground (arith, h, f))
  ]
]

-- A key that the configuration declares as an alias resolves to an address that it is declared for,
-- the only one where there is one; any other key resolves as it does without declared aliases.
pub lookup-build_alias_index :
    (explicit : Dict (List String)) (desired : List String) (k : String)
    → let index = build_alias_index explicit desired in
      ((is_declared k explicit ≡ false) × (lookup k index ≡ lookup k (implicit_index desired)))
      ⊎ ((e : String) × (is_declared_for k e explicit ≡ true) × (lookup k index ≡ some e))
unfolding build_alias_index
lookup-build_alias_index explicit desired k =
    let all = lookup-add_explicit k explicit (implicit_index desired) in
    elim (declared-cases k explicit) [
      | inl (free, e) ↦ inl (free, all ∙ rw (e) refl)
      | inr (c, known, e) ↦ inr (c, known, all ∙ rw (e) refl)
    ]
