-- ===== src/Core/Ghosts.antt =====
-- internal/core/ghost.go: external seats that belong to a current employee.
pub mod Laws
use unseat.Base.{
  String, ◌<>◌, List, [], ◌∷◌, Bool, true, false, not, ◌&&◌, Option, none, some, ◌==◌,
  if◌then◌else◌, to_lower, equal_fold, flat_map,
}
use unseat.Base.Dict.{lookup}
use unseat.Base.Sorting.{str_lt, sort_by}
use unseat.Core.Types.{User, status_active}
use unseat.Core.Seats.{SeatClass, ClassifiedSeat}
use unseat.Core.Identity.{local_part}
use unseat.Core.Suggest.{
  Unicode, DirectoryKey, build_directory_keys, noise_for, name_key, match_against, match_handle,
  stated_name, has_name,
}

pub record GhostIdentity : Type 0 where
  pub provider : String
  pub identifier : String
  pub display_name : String
  pub email : String
  pub basis : String

unfoldable pub is_external : SeatClass → Bool
is_external SeatClass.external = true
is_external _ = false

-- `seat.User.Metadata["login"]`
unfoldable pub login_of : ClassifiedSeat → String
login_of seat = elim (lookup "login" seat.user.metadata) [ none ↦ "" | some login ↦ login ]

-- A match, with what it was made on before its basis.
labelled : String → Option (User × String) → Option (User × String)
labelled label none = none
labelled label (some (match, basis)) = some (match, label <> basis)

module _ (unicode : Unicode) (keys : List DirectoryKey) (noise : List String) where
  -- A match by a handle, where a test lets it be tried.
  try_handle : Bool → String → String → Option (User × String)
  unfolding labelled
  try_handle test label handle =
      if test then labelled label (match_handle unicode handle keys noise) else none

  -- The matches by a handle, in `FindGhostIdentities`: the local part, then the login.
  handle_match : ClassifiedSeat → Option (User × String)
  unfolding try_handle
  handle_match seat =
      let local = local_part seat.raw_email in
      let login = login_of seat in
      elim (try_handle (not (local == "")) "local part of external address " local) [
        | some found ↦ some found
        | none ↦ try_handle (not (login == "") && not (equal_fold login local)) "handle " login
      ]

  -- The match of an external seat: a name that is stated decides alone.
  unfoldable pub ghost_match : ClassifiedSeat → Option (User × String)
  unfolding labelled handle_match
  ghost_match seat =
      if has_name seat
      then labelled "reported name " (match_against (name_key unicode (stated_name seat)) keys)
      else handle_match seat

  ghost : ClassifiedSeat → User → String → GhostIdentity
  ghost seat match basis = record {
    provider = seat.provider;
    identifier = seat.raw_email;
    display_name = stated_name seat;
    email = to_lower match.email;
    basis = basis;
  }

  -- The body of the loop of `FindGhostIdentities`.
  unfoldable pub ghosts_of : ClassifiedSeat → List GhostIdentity
  unfolding ghost_match ghost
  ghosts_of seat = if not (is_external seat.class) then [] else elim (ghost_match seat) [
    | none ↦ []
    | some (match, basis) ↦
        if match.status == status_active then ghost seat match basis ∷ [] else []
  ]

ghost_before : GhostIdentity → GhostIdentity → Bool
ghost_before a b =
    if not (a.email == b.email) then str_lt a.email b.email else str_lt a.identifier b.identifier

-- `FindGhostIdentities`
unfoldable pub find_ghost_identities :
    Unicode → List ClassifiedSeat → List User → String → List GhostIdentity
unfolding ghosts_of ghost_before
find_ghost_identities unicode seats directory domain = sort_by ghost_before (
    flat_map (ghosts_of unicode (build_directory_keys unicode directory) (noise_for unicode domain))
      seats)
