-- ===== src/Core/Engine/Additions.antt =====
-- `Reconcile`: who gets a seat, with which role, and when there is no plan.
use unseat.Base.{
  String, List, [], ◌∷◌, Bool, true, false, not, ◌&&◌, ◌||◌, Option, none, some, ◌==◌, eq_iff,
  arith, ◌≡◌, refl, if◌then◌else◌, any, keep, count_of, ok, err, Result-cases, Yields, Yields-bind,
  inl, inr, to_lower,
}
use unseat.Base.Dict.{Dict, lookup, insert, lookup-insert, Unique, insert-Unique}
use unseat.Core.Types.{User, key}
use unseat.Core.Alias.{resolve_alias}
use unseat.Core.Seats.{flag}
use unseat.Core.Engine.{
  GroupMappingInput, DesiredResolver, ReconcileInput, ReconcilePlan, reconcile, want_users,
  desired_map, actual_set, additions, started, seats_of,
}
use unseat.Core.Engine.Laws.{place_all-to_add, reconcile-eq-ok}

-- The address is that of a member of the mapping's group.
abbrev pub in_group : DesiredResolver → String → GroupMappingInput → Bool
in_group resolver k gm = elim (resolver gm.group_email) [
  | ok users ↦ any (λ u. key u == k) users
  | err e ↦ false
]

-- The role of the last mapping whose group holds the address.
abbrev pub role_for : DesiredResolver → String → List GroupMappingInput → Option String
role_for resolver k [] = none
role_for resolver k (gm ∷ gms) = elim (role_for resolver k gms) [
  | some r ↦ some r
  | none ↦ if in_group resolver k gm then some gm.role else none
]

-- The error of the first group that cannot be read.
abbrev pub first_error : DesiredResolver → List GroupMappingInput → Option String
first_error resolver [] = none
first_error resolver (gm ∷ gms) = elim (resolver gm.group_email) [
  | ok users ↦ first_error resolver gms
  | err e ↦ some e
]

-- Some seat resolves to the address.
abbrev pub holds_seat : ReconcileInput → String → Bool
holds_seat input k = any (λ u. resolve_alias input.alias_index u.email == k) input.actual_users

abbrev pub grants : Option String → String → Bool
grants none r = false
grants (some q) r = q == r

lookup-want_users :
    (k role : String) (m : Dict String) (us : List User)
    → lookup k (want_users role m us) ≡ (if any (λ u. key u == k) us then some role else lookup k m)
unfolding want_users any key
lookup-want_users k role m [] = refl
lookup-want_users k role m (u ∷ us) = ground (
  arith,
  lookup-want_users k role (insert (to_lower u.email) role m) us,
  lookup-insert (to_lower u.email) k role m,
)

want_users-Unique :
    (role : String) (m : Dict String) (us : List User) → Unique m → Unique (want_users role m us)
unfolding want_users
want_users-Unique role m [] h = h
want_users-Unique role m (u ∷ us) h =
    want_users-Unique role (insert (to_lower u.email) role m) us
      (insert-Unique (to_lower u.email) role m h)

module _ (resolver : DesiredResolver) where
  desired_map-Unique :
      (m d : Dict String) (gms : List GroupMappingInput)
      → desired_map resolver m gms ≡ ok d
      → Unique m
      → Unique d
  unfolding desired_map
  desired_map-Unique m d [] h u = ground arith
  desired_map-Unique m d (gm ∷ gms) h u = elim (Result-cases (resolver gm.group_email)) [
    | inl (users, e) ↦
        let m' = want_users gm.role m users in
        desired_map-Unique m' d gms (ground arith) (want_users-Unique gm.role m users u)
    | inr (error, e) ↦ absurd (ground arith)
  ]

  lookup-desired_map :
      (k : String) (m d : Dict String) (gms : List GroupMappingInput)
      → desired_map resolver m gms ≡ ok d
      → lookup k d ≡ elim (role_for resolver k gms) [ some r ↦ some r | none ↦ lookup k m ]
  unfolding desired_map
  lookup-desired_map k m d [] h = ground arith
  lookup-desired_map k m d (gm ∷ gms) h = elim (Result-cases (resolver gm.group_email)) [
    | inl (users, e) ↦
        let m' = want_users gm.role m users in
        ground
          (arith, lookup-desired_map k m' d gms (ground arith), lookup-want_users k gm.role m users)
    | inr (error, e) ↦ absurd (ground arith)
  ]

  desired_map_outcome :
      (m : Dict String) (gms : List GroupMappingInput)
      → Yields (first_error resolver gms) (desired_map resolver m gms)
  unfolding desired_map
  desired_map_outcome m [] = (m, refl)
  desired_map_outcome m (gm ∷ gms) = elim (Result-cases (resolver gm.group_email)) [
    | inl (users, e) ↦
        rw (e, desired_map, first_error) (desired_map_outcome (want_users gm.role m users) gms)
    | inr (error, e) ↦ rw (e, desired_map, first_error) refl
  ]

flag-actual_set :
    (index : Option (Dict String)) (k : String) (m : Dict Bool) (us : List User)
    → flag k (actual_set index m us) ≡ (any (λ u. resolve_alias index u.email == k) us || flag k m)
unfolding actual_set any flag
flag-actual_set index k m [] = refl
flag-actual_set index k m (u ∷ us) = ground (
  arith,
  flag-actual_set index k (insert (resolve_alias index u.email) true m) us,
  lookup-insert (resolve_alias index u.email) k true m,
)

count-additions :
    (k r : String) (actual : Dict Bool) (m : Dict String)
    → Unique m
    → count_of (λ a. a.email == k && a.role == r) (additions actual m)
      ≡ (if grants (lookup k m) r && not (flag k actual) then 1 else 0)
unfolding additions keep lookup
count-additions k r actual [] u = refl
count-additions k r actual ((e, q) ∷ m) u =
    ground (arith, eq_iff e k, count-additions k r actual m u.1)

-- For every address and role, a successful plan adds the address with that role exactly once if the
-- role is that of the last mapping whose group holds the address and no seat resolves to it, and
-- never otherwise.
pub reconcile_additions :
    (input : ReconcileInput) (plan : ReconcilePlan) (k r : String)
    → reconcile input ≡ ok plan
    → count_of (λ a. a.email == k && a.role == r) plan.to_add ≡ (
        if grants (role_for input.desired_resolver k input.group_mappings) r
          && not (holds_seat input k)
        then 1
        else 0)
unfolding started flag lookup
reconcile_additions input plan k r h =
    let (desired, found, e) = reconcile-eq-ok input plan h in
    let actual = actual_set input.alias_index [] input.actual_users in
    ground (
      arith,
      place_all-to_add (started input desired) (seats_of input desired),
      count-additions k r actual desired
          (desired_map-Unique input.desired_resolver [] desired input.group_mappings found tt),
      lookup-desired_map input.desired_resolver k [] desired input.group_mappings found,
      flag-actual_set input.alias_index k [] input.actual_users,
    )

-- There is a plan exactly when every mapped group can be read; otherwise the error is that of the
-- first group that cannot.
pub reconcile_outcome :
    (input : ReconcileInput)
    → Yields (first_error input.desired_resolver input.group_mappings) (reconcile input)
unfolding reconcile
reconcile_outcome input =
    Yields-bind (first_error input.desired_resolver input.group_mappings) _ _
      (desired_map_outcome input.desired_resolver [] input.group_mappings)
