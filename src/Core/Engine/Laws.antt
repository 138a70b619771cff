-- ===== src/Core/Engine/Laws.antt =====
-- `Reconcile`: what stands in each list of the plan.
use unseat.Base.{
  ℕ, ◌+◌, String, List, [], ◌∷◌, ◌++◌, Bool, not, ◌&&◌, ◌==◌, arith, ◌≡◌, refl, if◌then◌else◌, map,
  length, length-append, append-map-keep, keep, ok, >>=-eq-ok, ◌∙◌,
}
use mathlib.Core.List.{append-nil}
use unseat.Base.Dict.{Dict}
use unseat.Core.Types.{status_suspended}
use unseat.Core.Seats.{ClassifiedSeat, reclaimable}
use unseat.Core.Engine.{
  ReconcileInput, SeatReview, ReconcilePlan, reconcile, seat_action, place, place_class, place_all,
  seats_of, started, desired_map,
}

-- What the loop over the seats adds to each list, in the order of the seats.
abbrev pub is_suspended : ClassifiedSeat → Bool
is_suspended s = s.user.status == status_suspended

abbrev pub removes : ClassifiedSeat → Bool
removes s = reclaimable s && not (is_suspended s)

abbrev pub deactivates : ClassifiedSeat → Bool
deactivates s = reclaimable s && is_suspended s

place-to_remove :
    (plan : ReconcilePlan) (s : ClassifiedSeat)
    → (place plan s).to_remove ≡ plan.to_remove ++ (if removes s then seat_action s ∷ [] else [])
unfolding place place_class reclaimable
place-to_remove plan s = ground (arith, append-nil plan.to_remove)

pub place_all-to_remove :
    (plan : ReconcilePlan) (ss : List ClassifiedSeat)
    → (place_all plan ss).to_remove ≡ plan.to_remove ++ map seat_action (keep removes ss)
unfolding place_all keep
place_all-to_remove plan [] = rw append-nil
place_all-to_remove plan (s ∷ ss) =
    rw (place_all-to_remove (place plan s) ss, place-to_remove plan s)
      (append-map-keep seat_action removes plan.to_remove s ss)

place-already_deactivated :
    (plan : ReconcilePlan) (s : ClassifiedSeat)
    → (place plan s).already_deactivated
      ≡ plan.already_deactivated ++ (if deactivates s then seat_action s ∷ [] else [])
unfolding place place_class reclaimable
place-already_deactivated plan s = ground (arith, append-nil plan.already_deactivated)

pub place_all-already_deactivated :
    (plan : ReconcilePlan) (ss : List ClassifiedSeat)
    → (place_all plan ss).already_deactivated
      ≡ plan.already_deactivated ++ map seat_action (keep deactivates ss)
unfolding place_all keep
place_all-already_deactivated plan [] = rw append-nil
place_all-already_deactivated plan (s ∷ ss) =
    rw (place_all-already_deactivated (place plan s) ss, place-already_deactivated plan s)
      (append-map-keep seat_action deactivates plan.already_deactivated s ss)

pub place_all-to_add :
    (plan : ReconcilePlan) (ss : List ClassifiedSeat) → (place_all plan ss).to_add ≡ plan.to_add
unfolding place_all place place_class
place_all-to_add plan [] = refl
place_all-to_add plan (s ∷ ss) = place_all-to_add (place plan s) ss ∙ ground arith

abbrev pub review : ClassifiedSeat → SeatReview
review s = record { email = s.email; class = s.class; reason = s.reason }

-- The seats that a plan accounts for.
abbrev pub seats_placed : ReconcilePlan → ℕ
seats_placed plan =
    length plan.to_remove + length plan.to_review + length plan.already_deactivated + plan.unchanged

place_size :
    (plan : ReconcilePlan) (s : ClassifiedSeat)
    → seats_placed (place plan s) ≡ seats_placed plan + 1
unfolding place place_class
place_size plan s = ground (
  arith,
  length-append plan.to_remove (seat_action s ∷ []),
  length-append plan.already_deactivated (seat_action s ∷ []),
  length-append plan.to_review (review s ∷ []),
)

pub place_all_size :
    (plan : ReconcilePlan) (ss : List ClassifiedSeat)
    → seats_placed (place_all plan ss) ≡ seats_placed plan + length ss
unfolding place_all
place_all_size plan [] = omega arith
place_all_size plan (s ∷ ss) = omega (arith, place_all_size (place plan s) ss, place_size plan s)

-- A plan that is returned comes from some desired addresses.
pub reconcile-eq-ok :
    (input : ReconcileInput) (plan : ReconcilePlan)
    → reconcile input ≡ ok plan
    → (desired : Dict String) × (desired_map input.desired_resolver [] input.group_mappings
        ≡ ok desired)
      × (plan ≡ place_all (started input desired) (seats_of input desired))
unfolding reconcile
reconcile-eq-ok input plan h =
    let (desired, found, rest) =
      >>=-eq-ok (desired_map input.desired_resolver [] input.group_mappings) _ h in
    (desired, found, cc)
