-- ===== src/Core/Engine/Removals.antt =====
-- `Reconcile`: who loses a seat.
use unseat.Base.{
  String, List, [], ◌∷◌, Bool, not, ◌&&◌, none, some, ◌==◌, arith, ◌≡◌, refl, has_at, map, keep, ok,
  ap, ◌∙◌,
}
use unseat.Base.Dict.{Dict}
use unseat.Core.Types.{User, status_suspended}
use unseat.Core.Alias.{resolve_alias}
use unseat.Core.Seats.{
  ClassifiedSeat, flag, reclaimable, normal_domain, classify_seat, classify_seats,
}
use unseat.Core.Seats.Laws.{has_left, is_internal, reclaimable-classify_seat}
use unseat.Core.Engine.{
  ReconcileInput, UserAction, ReconcilePlan, reconcile, seat_action, seats_of, started,
  classify_input,
}
use unseat.Core.Engine.Laws.{
  removes, deactivates, place_all-to_remove, place_all-already_deactivated, reconcile-eq-ok,
}

-- The exceptions, a nil map read as an empty one.
abbrev pub excepted : ReconcileInput → String → Bool
excepted input email = elim input.exceptions [ none ↦ flag email [] | some m ↦ flag email m ]

-- The holder of a seat has left: an address of the corporate domain that the directory, which was
-- read, lacks or holds as suspended, and that no exception names.
abbrev pub departed : ReconcileInput → User → Bool
departed input u =
    let email = resolve_alias input.alias_index u.email in
    has_at email
    && is_internal (normal_domain input.domain) email
    && has_left input.directory email
    && not (excepted input email)

-- The action on a user's seat: the corporate address, and the identifier that the provider knows.
abbrev pub action_on : ReconcileInput → User → UserAction
action_on input u = record {
  email = resolve_alias input.alias_index u.email;
  provider_email = u.email;
  role = "";
}

abbrev pub already_off : User → Bool
already_off u = u.status == status_suspended

reclaimable-departed :
    (input : ReconcileInput) (desired : Dict String) (u : User)
    → reclaimable (classify_seat (classify_input input desired) u) ≡ departed input u
unfolding classify_input
reclaimable-departed input desired u =
    reclaimable-classify_seat (classify_input input desired) u ∙ ground arith

module _ (input : ReconcileInput) (desired : Dict String) where
  abbrev seats : List User → List ClassifiedSeat
  seats us = map (classify_seat (classify_input input desired)) us

  removed :
      (us : List User)
      → map seat_action (keep removes (seats us))
        ≡ map (action_on input) (keep (λ u. departed input u && not (already_off u)) us)
  unfolding keep classify_seat classify_input
  removed [] = refl
  removed (u ∷ us) = ground (arith, reclaimable-departed input desired u, removed us)

  deactivated :
      (us : List User)
      → map seat_action (keep deactivates (seats us))
        ≡ map (action_on input) (keep (λ u. departed input u && already_off u) us)
  unfolding keep classify_seat classify_input
  deactivated [] = refl
  deactivated (u ∷ us) = ground (arith, reclaimable-departed input desired u, deactivated us)

-- A successful plan removes exactly the seats, in the provider's order, whose holders have left (an
-- address of the corporate domain, absent from the directory that was read or suspended there, and
-- excepted by no policy) and which the provider does not report as suspended; those that it does
-- report as suspended are listed as already deactivated instead. Both carry the resolved and the
-- provider's identifier.
pub reconcile_removals :
    (input : ReconcileInput) (plan : ReconcilePlan)
    → reconcile input ≡ ok plan
    → (plan.to_remove
        ≡ map
            (action_on input)
            (keep (λ u. departed input u && not (already_off u)) input.actual_users))
      × (plan.already_deactivated
          ≡ map
              (action_on input)
              (keep (λ u. departed input u && already_off u) input.actual_users))
unfolding started keep classify_seats classify_input
reconcile_removals input plan h =
    let (desired, found, e) = reconcile-eq-ok input plan h in
    (
      ap (λ (p : ReconcilePlan). p.to_remove) e
          ∙ place_all-to_remove (started input desired) (seats_of input desired)
          ∙ removed input desired input.actual_users,
      ap (λ (p : ReconcilePlan). p.already_deactivated) e
          ∙ place_all-already_deactivated (started input desired) (seats_of input desired)
          ∙ deactivated input desired input.actual_users,
    )
