-- ===== src/Tests/Planning.antt =====
-- The plan of one provider, and the seats and addresses that it is made from.
use unseat.Base.{
  length, ◌⊎◌, String, List, [], ◌∷◌, true, false, not, ◌&&◌, none, some, ok, err, ◌≡◌, ◌↔◌, refl,
  map, keep, count_of, ◌==◌, if◌then◌else◌, has_at, to_lower, trim_space, trim_at, has_suffix,
}
use unseat.Base.Dict.{lookup, insert}
use unseat.Core.Types.{key}
use unseat.Core.Diff.{compute_diff}
use unseat.Core.Diff.Laws.{compute_diff_exact, listed}
use unseat.Core.Alias.{implicit_index, build_alias_index, resolve_alias, squash_separators}
use unseat.Core.Alias.Laws.{
  implicit_index_unique, lookup-build_alias_index, is_claimed, has_rival, is_declared,
  is_declared_for,
}
use unseat.Core.Seats.{
  ClassifyInput, ClassifiedSeat, flag, reclaimable, normal_domain, directory_verdict, verdict,
  classify_seat, classify_seats,
}
use unseat.Core.Seats.Laws.{
  classify_seat_lem, reclaimable-classify_seat, expected_class, is_internal, has_left,
}
use unseat.Core.Engine.{
  ReconcileInput, SeatReview, reconcile, desired_map, want_users, actual_set, additions, all_true,
  place_class, place, place_all, classify_input, started,
}
use unseat.Core.Engine.Laws.{seats_placed}
use unseat.Core.Engine.Removals.{action_on, departed, already_off, reconcile_removals}
use unseat.Core.Engine.Reviews.{looked_at, to_look_at, to_keep, reconcile_conserves}
use unseat.Core.Engine.Additions.{
  reconcile_additions, reconcile_outcome, grants, role_for, holds_seat,
}
use unseat.Tests.Fixtures.{reconciliation, planned, alice, bob, carol, dave, directory}

reconciled : reconcile reconciliation ≡ ok planned
unfolding reconcile desired_map place_all classify_seats classify_input place classify_seat flag
    lookup place_class verdict has_at resolve_alias to_lower trim_space normal_domain trim_at
    has_suffix insert squash_separators actual_set additions all_true started want_users
    directory_verdict
reconciled = refl

reconcile_removals_example :
    (planned.to_remove
      ≡ map (action_on reconciliation) (
          keep (λ u. departed reconciliation u && not (already_off u)) reconciliation.actual_users))
    × (planned.already_deactivated
        ≡ map
            (action_on reconciliation)
            (keep (λ u. departed reconciliation u && already_off u) reconciliation.actual_users))
reconcile_removals_example = reconcile_removals reconciliation planned reconciled

reconcile_conserves_example :
    (desired : List (String × String)) × (desired_map reconciliation.desired_resolver []
        reconciliation.group_mappings
      ≡ ok desired)
    × (map (λ (r : SeatReview). (r.email, r.class)) planned.to_review
        ≡ map
            (looked_at reconciliation desired)
            (keep (to_look_at reconciliation desired) reconciliation.actual_users))
    × (planned.unchanged ≡ count_of (to_keep reconciliation desired) reconciliation.actual_users)
    × (seats_placed planned ≡ length reconciliation.actual_users)
reconcile_conserves_example = reconcile_conserves reconciliation planned reconciled

reconcile_additions_example :
    count_of (λ a. a.email == "carol@corp.com" && a.role == "editor") planned.to_add ≡ (
      if grants
          (role_for reconciliation.desired_resolver "carol@corp.com" reconciliation.group_mappings)
          "editor"
        && not (holds_seat reconciliation "carol@corp.com")
      then 1
      else 0)
reconcile_additions_example =
    reconcile_additions reconciliation planned "carol@corp.com" "editor" reconciled

abbrev unreadable : ReconcileInput
unreadable = record reconciliation {
  group_mappings = record { group_email = "sales"; role = "viewer" } ∷ [];
}

reconcile_outcome_example : reconcile unreadable ≡ err "no such group"
unfolding to_lower
reconcile_outcome_example = reconcile_outcome unreadable

-- Two people who share a first name: the first name alone is nobody's.
abbrev two_johns : List String
two_johns = "john.doe@corp.com" ∷ "john.roe@corp.com" ∷ []

implicit_index_unique_example :
    (lookup "john.doe" (implicit_index two_johns) ≡ some "john.doe@corp.com") ↔ (
      (is_claimed "john.doe" "john.doe@corp.com" two_johns ≡ true)
      × (has_rival "john.doe" "john.doe@corp.com" two_johns ≡ false))
implicit_index_unique_example = implicit_index_unique two_johns "john.doe" "john.doe@corp.com"

abbrev handles : List (String × List String)
handles = ("alice@corp.com", "a-dev" ∷ "alice-gh" ∷ []) ∷ []

lookup-build_alias_index_example :
    ((is_declared "a-dev" handles ≡ false)
      × (lookup "a-dev" (build_alias_index handles two_johns)
          ≡ lookup "a-dev" (implicit_index two_johns)))
    ⊎ ((e : String) × (is_declared_for "a-dev" e handles ≡ true)
        × (lookup "a-dev" (build_alias_index handles two_johns) ≡ some e))
lookup-build_alias_index_example = lookup-build_alias_index handles two_johns "a-dev"

abbrev seats_input : ClassifyInput
seats_input = record {
  provider_name = "figma";
  actual_users = alice ∷ bob ∷ dave ∷ [];
  directory = some directory;
  desired_emails = ("alice@corp.com", true) ∷ [];
  domain = "corp.com";
  alias_index = none;
  exceptions = ("bob@corp.com", true) ∷ [];
}

classify_seat_example :
    ((classify_seat seats_input bob).email ≡ resolve_alias none "bob@corp.com")
    × ((classify_seat seats_input bob).raw_email ≡ "bob@corp.com")
    × ((classify_seat seats_input bob).user ≡ bob)
    × ((classify_seat seats_input bob).provider ≡ "figma")
    × ((classify_seat seats_input bob).class
        ≡ expected_class seats_input (resolve_alias none "bob@corp.com"))
    × ((classify_seat seats_input bob).protected
        ≡ flag (resolve_alias none "bob@corp.com") seats_input.exceptions)
classify_seat_example = classify_seat_lem seats_input bob

reclaimable-classify_seat_example : reclaimable (classify_seat seats_input dave) ≡ (
    has_at (resolve_alias none "dave@corp.com")
    && is_internal (normal_domain "corp.com") (resolve_alias none "dave@corp.com")
    && has_left (some directory) (resolve_alias none "dave@corp.com")
    && not (flag (resolve_alias none "dave@corp.com") seats_input.exceptions))
reclaimable-classify_seat_example = reclaimable-classify_seat seats_input dave

abbrev seats : List ClassifiedSeat
seats = classify_seats seats_input

compute_diff_example :
    (count_of
        (λ u. key u == "carol@corp.com")
        (compute_diff (alice ∷ carol ∷ []) (alice ∷ bob ∷ [])).to_add
      ≡ (if listed "carol@corp.com" (alice ∷ carol ∷ [])
            && not (listed "carol@corp.com" (alice ∷ bob ∷ []))
          then 1
          else 0))
    × (count_of
          (λ u. key u == "carol@corp.com")
          (compute_diff (alice ∷ carol ∷ []) (alice ∷ bob ∷ [])).to_remove
        ≡ (if listed "carol@corp.com" (alice ∷ bob ∷ [])
              && not (listed "carol@corp.com" (alice ∷ carol ∷ []))
            then 1
            else 0))
compute_diff_example = compute_diff_exact (alice ∷ carol ∷ []) (alice ∷ bob ∷ []) "carol@corp.com"
