-- ===== src/Core/Engine.antt =====
-- internal/core/engine.go: the reconciliation plan of one provider. The resolver of group members
-- is an argument. The context, which only passes cancellation on to the resolver, is left out.
pub mod Laws
pub mod Removals
pub mod Reviews
pub mod Additions
use unseat.Base.{
  ℕ, ◌+◌, String, List, [], ◌∷◌, ◌++◌, Bool, true, false, Option, none, some, ◌==◌, Result, ok, err,
  ◌>>=◌, if◌then◌else◌, to_lower, map,
}
use unseat.Base.Dict.{Dict, lookup, insert}
use unseat.Core.Types.{User, status_suspended}
use unseat.Core.Alias.{resolve_alias}
use unseat.Core.Seats.{
  SeatClass, managed, unmapped, orphan, external, unresolved, DirectoryUser, ClassifyInput,
  ClassifiedSeat, flag, classify_seats,
}

pub record GroupMappingInput : Type 0 where
  pub group_email : String
  pub role : String

abbrev pub DesiredResolver : Type 0
DesiredResolver = String → Result (List User)

-- `none` in `exceptions`, `alias_index` and `directory` stands for a nil map.
pub record ReconcileInput : Type 0 where
  pub provider_name : String
  pub group_mappings : List GroupMappingInput
  pub desired_resolver : DesiredResolver
  pub actual_users : List User
  pub exceptions : Option (Dict Bool)
  pub alias_index : Option (Dict String)
  pub dry_run : Bool
  pub grace_period : ℕ
  pub directory : Option (Dict DirectoryUser)
  pub domain : String

pub record UserAction : Type 0 where
  pub email : String
  pub provider_email : String
  pub role : String

pub record SeatReview : Type 0 where
  pub email : String
  pub class : SeatClass
  pub reason : String

pub record ReconcilePlan : Type 0 where
  pub provider_name : String
  pub to_add : List UserAction
  pub to_remove : List UserAction
  pub to_review : List SeatReview
  pub already_deactivated : List UserAction
  pub unchanged : ℕ
  pub dry_run : Bool

-- `UserAction.Target`
unfoldable pub target : UserAction → String
target a = if a.provider_email == "" then a.email else a.provider_email

-- The loop over the members of one group.
unfoldable pub want_users : String → Dict String → List User → Dict String
want_users role m [] = m
want_users role m (u ∷ us) = want_users role (insert (to_lower u.email) role m) us

-- The loop over the group mappings: the desired addresses with their roles, or the first error.
unfoldable pub desired_map :
    DesiredResolver → Dict String → List GroupMappingInput → Result (Dict String)
desired_map resolver m [] = ok m
desired_map resolver m (gm ∷ gms) = elim (resolver gm.group_email) [
  | ok users ↦ desired_map resolver (want_users gm.role m users) gms
  | err e ↦ err e
]

-- The addresses that hold a seat, aliases resolved.
unfoldable pub actual_set : Option (Dict String) → Dict Bool → List User → Dict Bool
actual_set index m [] = m
actual_set index m (u ∷ us) = actual_set index (insert (resolve_alias index u.email) true m) us

-- The loop that collects the additions.
unfoldable pub additions : Dict Bool → Dict String → List UserAction
unfolding flag
additions actual [] = []
additions actual ((email, role) ∷ m) =
    let rest = additions actual m in
    if flag email actual
    then rest
    else record { email = email; provider_email = ""; role = role } ∷ rest

-- `desiredSet`
unfoldable pub all_true : Dict String → Dict Bool
all_true m = map (λ (e, _). (e, true)) m

abbrev pub seat_action : ClassifiedSeat → UserAction
seat_action seat = record { email = seat.email; provider_email = seat.raw_email; role = "" }

-- The `switch` over one classified seat. A protected seat comes first, then the class.
unfoldable pub place_class : ReconcilePlan → ClassifiedSeat → SeatClass → ReconcilePlan
place_class plan seat orphan =
    if seat.user.status == status_suspended
    then record plan { already_deactivated = plan.already_deactivated ++ (seat_action seat ∷ []) }
    else record plan { to_remove = plan.to_remove ++ (seat_action seat ∷ []) }
place_class plan seat managed = record plan { unchanged = plan.unchanged + 1 }
place_class plan seat class = record plan {
  to_review =
      plan.to_review ++ (record { email = seat.email; class = class; reason = seat.reason } ∷ []);
}

unfoldable pub place : ReconcilePlan → ClassifiedSeat → ReconcilePlan
place plan seat =
    if seat.protected
    then record plan { unchanged = plan.unchanged + 1 }
    else place_class plan seat seat.class

unfoldable pub place_all : ReconcilePlan → List ClassifiedSeat → ReconcilePlan
place_all plan [] = plan
place_all plan (s ∷ ss) = place_all (place plan s) ss

unfoldable pub classify_input : ReconcileInput → Dict String → ClassifyInput
classify_input input desired = record {
  provider_name = input.provider_name;
  actual_users = input.actual_users;
  directory = input.directory;
  desired_emails = all_true desired;
  domain = input.domain;
  alias_index = input.alias_index;
  exceptions = elim input.exceptions [ none ↦ [] | some m ↦ m ];
}

-- The seats that the plan is made from.
abbrev pub seats_of : ReconcileInput → Dict String → List ClassifiedSeat
seats_of input desired = classify_seats (classify_input input desired)

-- The plan before the loop over the seats.
unfoldable pub started : ReconcileInput → Dict String → ReconcilePlan
started input desired = record {
  provider_name = input.provider_name;
  to_add = additions (actual_set input.alias_index [] input.actual_users) desired;
  to_remove = [];
  to_review = [];
  already_deactivated = [];
  unchanged = 0;
  dry_run = input.dry_run;
}

-- `Reconcile`
unfoldable pub reconcile : ReconcileInput → Result ReconcilePlan
reconcile input = do
  desired ← desired_map input.desired_resolver [] input.group_mappings
  ok (place_all (started input desired) (seats_of input desired))
