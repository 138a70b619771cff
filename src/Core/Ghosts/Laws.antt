-- ===== src/Core/Ghosts/Laws.antt =====
-- Whom `FindGhostIdentities` of internal/core/ghost.go reports.
use mathlib.Core.List.{Memᴰ}
use unseat.Base.{
  String, List, [], ◌∷◌, ◌++◌, Bool, true, false, not, ◌||◌, ◌&&◌, Option, none, some, ◌==◌, ◌≡◌,
  refl, sym, ap, subst, count_of, arith, if◌then◌else◌, any, any-append, All, All-append, All-self,
  flat_map, to_lower, inl, inr, ◌∙◌, Bool-cases, Option-cases, some-injective, eq_iff, eq_refl,
  equal_fold,
}
use unseat.Base.Sorting.{All-sort_by}
use unseat.Core.Types.{User, status_active}
use unseat.Core.Seats.{ClassifiedSeat}
use unseat.Core.Identity.{local_part}
use unseat.Core.Suggest.{
  Unicode, DirectoryKey, build_directory_keys, noise_for, name_key, match_against, match_handle,
  handle_forms, stated_name, has_name,
}
use unseat.Core.Suggest.Laws.{
  Claims, match_against-Claims, first_match-Claims, build_directory_keys-mem, none-ne-some,
}
use unseat.Core.Suggest.Spells.{spells, claims-spells, known-spells}
use unseat.Core.Ghosts.{
  GhostIdentity, is_external, login_of, labelled, try_handle, handle_match, ghost_match, ghost,
  ghosts_of, ghost_before, find_ghost_identities,
}

-- The forms under which a seat may be matched: its name where it states one, else those of the local
-- part of its address and of its login.
unfoldable pub ghost_forms : Unicode → List String → ClassifiedSeat → List String
ghost_forms unicode noise seat =
    if has_name seat
    then name_key unicode (stated_name seat) ∷ []
    else handle_forms unicode (local_part seat.raw_email) noise
      ++ handle_forms unicode (login_of seat) noise

-- What stands behind a report: an external seat, and an active employee, the only user of the
-- directory whom one of the seat's forms spells; a form spells nobody who has no display name.
pub record IsGhost (unicode : Unicode) (seats : List ClassifiedSeat) (directory : List User)
    (domain : String) (g : GhostIdentity) : Type 0 where
  pub seat : ClassifiedSeat
  pub employee : User
  pub form : String
  pub seat_known : Memᴰ seat seats
  pub employee_known : Memᴰ employee directory
  pub outside : is_external seat.class ≡ true
  pub active : employee.status ≡ status_active
  pub same_seat : (g.provider ≡ seat.provider) × (g.identifier ≡ seat.raw_email)
  pub address : g.email ≡ to_lower employee.email
  pub form_of_seat :
      any (λ f. f == form) (ghost_forms unicode (noise_for unicode domain) seat) ≡ true
  pub spelled : spells unicode form employee ≡ true
  pub alone : count_of (spells unicode form) directory ≡ 1

or-true : (b : Bool) → (b || true) ≡ true
or-true true = refl
or-true false = refl

-- The identity that a match names, and the form it was made on.
abbrev Matched : List String → List DirectoryKey → User → Type 0
Matched forms keys u = (form : String) × (any (λ f. f == form) forms ≡ true) × Claims form keys u

labelled-some :
    (label : String) (m : Option (User × String)) (u : User) (basis : String)
    → labelled label m ≡ some (u, basis)
    → (b : String) × (m ≡ some (u, b))
unfolding labelled
labelled-some label none u basis h = absurd (none-ne-some (u, basis) h)
labelled-some label (some (v, b)) u basis h = (b, ap (λ x. some (x.0, b)) (some-injective _ _ h))

module _ (unicode : Unicode) (keys : List DirectoryKey) (noise : List String) where
  match_handle-Matched :
      (handle : String) (u : User) (basis : String)
      → match_handle unicode handle keys noise ≡ some (u, basis)
      → Matched (handle_forms unicode handle noise) keys u
  unfolding match_handle
  match_handle-Matched handle u basis h =
      first_match-Claims (handle_forms unicode handle noise) keys u basis h

  try_handle-Matched :
      (test : Bool) (label handle : String) (u : User) (basis : String)
      → try_handle unicode keys noise test label handle ≡ some (u, basis)
      → Matched (handle_forms unicode handle noise) keys u
  unfolding try_handle
  try_handle-Matched true label handle u basis h =
      let (b, m) = labelled-some label (match_handle unicode handle keys noise) u basis h in
      match_handle-Matched handle u b m
  try_handle-Matched false label handle u basis h = absurd (none-ne-some (u, basis) h)

  handle_match-Matched :
      (seat : ClassifiedSeat) (u : User) (basis : String)
      → handle_match unicode keys noise seat ≡ some (u, basis)
      → Matched
          (handle_forms unicode (local_part seat.raw_email) noise
            ++ handle_forms unicode (login_of seat) noise)
          keys
          u
  unfolding handle_match
  handle_match-Matched seat u basis h =
      let local = local_part seat.raw_email in
      let login = login_of seat in
      let here = handle_forms unicode local noise in
      let there = handle_forms unicode login noise in
      let test = not (login == "") && not (equal_fold login local) in
      let label : String = "local part of external address " in
      elim (Option-cases (try_handle unicode keys noise (not (local == "")) label local)) [
        | inr ((v, b), e) ↦
            let (form, listed, claimed) =
              try_handle-Matched (not (local == "")) label local u basis
                (e ∙ (rw (handle_match, e) at h)) in
            (form, any-append (λ f. f == form) here there ∙ rw (listed) refl, claimed)
        | inl e ↦
            let (form, listed, claimed) =
              try_handle-Matched test "handle " login u basis (rw (handle_match, e) at h) in
            (
              form,
              any-append (λ f. f == form) here there
                  ∙ rw (listed) (or-true (any (λ f. f == form) here)),
              claimed,
            )
      ]

  ghost_match-Matched :
      (seat : ClassifiedSeat) (u : User) (basis : String)
      → ghost_match unicode keys noise seat ≡ some (u, basis)
      → Matched (ghost_forms unicode noise seat) keys u
  unfolding ghost_match ghost_forms
  ghost_match-Matched seat u basis h =
      let form = name_key unicode (stated_name seat) in
      elim (Bool-cases (has_name seat)) [
        | inr e ↦ rw (e) (handle_match-Matched seat u basis (rw (e) at h))
        | inl e ↦
            let (b, m) =
              labelled-some "reported name " (match_against form keys) u basis (rw (e) at h) in
            rw (e) (
              form,
              unfold any in ground (arith, eq_refl form),
              match_against-Claims form keys u b m,
            )
      ]

module _ (unicode : Unicode) (all : List ClassifiedSeat) (directory : List User)
    (domain : String) where
  abbrev keys : List DirectoryKey
  keys = build_directory_keys unicode directory

  abbrev noise : List String
  noise = noise_for unicode domain

  ghosts_of-IsGhost :
      (seat : ClassifiedSeat)
      → Memᴰ seat all
      → All (IsGhost unicode all directory domain) (ghosts_of unicode keys noise seat)
  unfolding ghosts_of ghost
  ghosts_of-IsGhost seat known = elim (Bool-cases (is_external seat.class)) [
    | inr e ↦ rw (e) tt
    | inl e ↦ elim (Option-cases (ghost_match unicode keys noise seat)) [
      | inl m ↦ rw (ghosts_of, e, m) tt
      | inr ((u, basis), m) ↦ elim (Bool-cases (u.status == status_active)) [
        | inr s ↦ rw (ghosts_of, e, m, s) tt
        | inl s ↦
            let (form, listed, claimed) = ghost_match-Matched unicode keys noise seat u basis m in
            rw (ghosts_of, e, m, s)
              (
                record {
                  seat = seat;
                  employee = u;
                  form = form;
                  seat_known = known;
                  employee_known =
                      subst (λ x. Memᴰ x directory) claimed.is_user
                        (build_directory_keys-mem unicode directory claimed.by claimed.known);
                  outside = e;
                  active = (eq_iff _ _).0 s;
                  same_seat = (refl, refl);
                  address = refl;
                  form_of_seat = listed;
                  spelled =
                      subst (λ x. spells unicode form x ≡ true) claimed.is_user
                        (known-spells unicode form directory claimed.by claimed.known
                          claimed.spelled);
                  alone = sym (claims-spells unicode form directory) ∙ claimed.only;
                },
                tt,
              )
      ]
    ]
  ]

  flat_map-IsGhost :
      (seats : List ClassifiedSeat)
      → All (λ s. Memᴰ s all) seats
      → All (IsGhost unicode all directory domain) (flat_map (ghosts_of unicode keys noise) seats)
  unfolding flat_map
  flat_map-IsGhost [] h = tt
  flat_map-IsGhost (seat ∷ seats) h =
      All-append _ (ghosts_of unicode keys noise seat) _ (ghosts_of-IsGhost seat h.0)
        (flat_map-IsGhost seats h.1)

-- Every identity that `FindGhostIdentities` reports stands for an external seat that was given, and
-- for an active user of the directory, whose address in lower case is reported. A form of the seat
-- spells that user and no other user of the directory who has a display name; users without one are
-- left out of account. The form is the name, where the seat states one, and otherwise a form of the
-- local part of its address or of its login. It spells a user if it is the whole display name or the
-- local part of the address, or six bytes or more that the display name begins with, or if it holds
-- the last word of the display name, of four bytes or more, and the rest fits the first word.
pub find_ghost_identities-IsGhost :
    (unicode : Unicode) (seats : List ClassifiedSeat) (directory : List User) (domain : String)
    → All
        (IsGhost unicode seats directory domain)
        (find_ghost_identities unicode seats directory domain)
unfolding find_ghost_identities
find_ghost_identities-IsGhost unicode seats directory domain =
    All-sort_by ghost_before (IsGhost unicode seats directory domain) _
      (flat_map-IsGhost unicode seats directory domain seats (All-self seats))
