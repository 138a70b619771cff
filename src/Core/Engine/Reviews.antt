-- ===== src/Core/Engine/Reviews.antt =====
-- `Reconcile`: which seats a plan puts under review or leaves as they are, and that it places each
-- seat once.
use unseat.Base.{
  ◌+◌, String, List, [], ◌∷◌, ◌++◌, Bool, true, false, not, ◌&&◌, ◌||◌, arith, ◌≡◌, refl, ap, ◌∙◌,
  map, length, length-map, keep, count_of, ok, if◌then◌else◌, append-map-keep, append-nil,
}
use unseat.Base.Dict.{Dict}
use unseat.Core.Types.{User}
use unseat.Core.Alias.{resolve_alias}
use unseat.Core.Seats.{
  ClassifiedSeat, SeatClass, managed, unmapped, external, unresolved, classify_seat, classify_seats,
}
use unseat.Core.Seats.Laws.{expected_class, classify_seat_lem}
use unseat.Core.Engine.{
  ReconcileInput, ReconcilePlan, SeatReview, reconcile, place, place_class, place_all, seats_of,
  started, classify_input, desired_map,
}
use unseat.Core.Engine.Laws.{review, seats_placed, place_all_size, reconcile-eq-ok}
use unseat.Core.Engine.Removals.{excepted}

-- The classes that a person has to look at.
abbrev asks : SeatClass → Bool
asks unmapped = true
asks external = true
asks unresolved = true
asks _ = false

abbrev is_managed : SeatClass → Bool
is_managed managed = true
is_managed _ = false

abbrev reviews : ClassifiedSeat → Bool
reviews s = not s.protected && asks s.class

abbrev stays : ClassifiedSeat → Bool
stays s = s.protected || is_managed s.class

place-to_review :
    (plan : ReconcilePlan) (s : ClassifiedSeat)
    → (place plan s).to_review ≡ plan.to_review ++ (if reviews s then review s ∷ [] else [])
unfolding place place_class
place-to_review plan s = ground (arith, append-nil plan.to_review)

place_all-to_review :
    (plan : ReconcilePlan) (ss : List ClassifiedSeat)
    → (place_all plan ss).to_review ≡ plan.to_review ++ map review (keep reviews ss)
unfolding place_all keep
place_all-to_review plan [] = rw append-nil
place_all-to_review plan (s ∷ ss) =
    rw (place_all-to_review (place plan s) ss, place-to_review plan s)
      (append-map-keep review reviews plan.to_review s ss)

place-unchanged :
    (plan : ReconcilePlan) (s : ClassifiedSeat)
    → (place plan s).unchanged ≡ plan.unchanged + (if stays s then 1 else 0)
unfolding place place_class
place-unchanged plan s = ground arith

place_all-unchanged :
    (plan : ReconcilePlan) (ss : List ClassifiedSeat)
    → (place_all plan ss).unchanged ≡ plan.unchanged + count_of stays ss
unfolding place_all keep
place_all-unchanged plan [] = omega arith
place_all-unchanged plan (s ∷ ss) =
    ground (arith, place_all-unchanged (place plan s) ss, place-unchanged plan s)

module _ (input : ReconcileInput) (desired : Dict String) where
  -- The class of a user's seat, by the table of the rules.
  abbrev pub class_of : User → SeatClass
  class_of u =
      expected_class (classify_input input desired) (resolve_alias input.alias_index u.email)

  -- A seat that no exception names, and that a person has to look at.
  abbrev pub to_look_at : User → Bool
  to_look_at u = not (excepted input (resolve_alias input.alias_index u.email)) && asks (class_of u)

  -- A seat that an exception names, or that a group grants to an active holder.
  abbrev pub to_keep : User → Bool
  to_keep u = excepted input (resolve_alias input.alias_index u.email) || is_managed (class_of u)

  -- What a review says: the resolved address, and the class.
  abbrev pub looked_at : User → String × SeatClass
  looked_at u = (resolve_alias input.alias_index u.email, class_of u)

  abbrev seats : List User → List ClassifiedSeat
  seats us = map (classify_seat (classify_input input desired)) us

  abbrev seat_of : User → ClassifiedSeat
  seat_of u = classify_seat (classify_input input desired) u

  seat_of-protected :
      (u : User) → (seat_of u).protected ≡ excepted input (resolve_alias input.alias_index u.email)
  unfolding classify_seat classify_input
  seat_of-protected u = ground arith

  seat_of-class : (u : User) → (seat_of u).class ≡ class_of u
  unfolding classify_input
  seat_of-class u = (classify_seat_lem (classify_input input desired) u).4

  seat_of-email : (u : User) → (seat_of u).email ≡ resolve_alias input.alias_index u.email
  unfolding classify_seat classify_input
  seat_of-email u = refl

  abbrev stated : SeatReview → String × SeatClass
  stated r = (r.email, r.class)

  reviewed :
      (us : List User)
      → map stated (map review (keep reviews (seats us))) ≡ map looked_at (keep to_look_at us)
  unfolding keep
  reviewed [] = refl
  reviewed (u ∷ us) =
      ground (arith, seat_of-protected u, seat_of-class u, seat_of-email u, reviewed us)

  kept : (us : List User) → count_of stays (seats us) ≡ count_of to_keep us
  unfolding keep
  kept [] = refl
  kept (u ∷ us) = ground (arith, seat_of-protected u, seat_of-class u, kept us)

-- A successful plan, for some desired addresses, puts under review exactly the seats, in the
-- provider's order, that no exception names and whose class is unmapped, external or unresolved, with
-- the resolved address and the class; it counts as unchanged exactly the seats that an exception names
-- or whose class is managed; and the seats to remove, to review, already deactivated and unchanged are
-- together as many as the provider has.
pub reconcile_conserves :
    (input : ReconcileInput) (plan : ReconcilePlan)
    → reconcile input ≡ ok plan
    → (desired : Dict String) × (desired_map input.desired_resolver [] input.group_mappings
        ≡ ok desired)
      × (map (λ (r : SeatReview). (r.email, r.class)) plan.to_review
          ≡ map (looked_at input desired) (keep (to_look_at input desired) input.actual_users))
      × (plan.unchanged ≡ count_of (to_keep input desired) input.actual_users)
      × (seats_placed plan ≡ length input.actual_users)
unfolding started classify_seats classify_input
reconcile_conserves input plan h =
    let (desired, found, e) = reconcile-eq-ok input plan h in
    let start = started input desired in
    let all = seats_of input desired in
    (
      desired,
      found,
      ap (λ (p : ReconcilePlan). map (stated input desired) p.to_review) e
          ∙ ap (map (stated input desired)) (place_all-to_review start all)
          ∙ reviewed input desired input.actual_users,
      omega (
        arith,
        ap (λ (p : ReconcilePlan). p.unchanged) e,
        place_all-unchanged start all,
        kept input desired input.actual_users,
      ),
      ap seats_placed e
          ∙ omega (
            arith,
            place_all_size start all,
            length-map (classify_seat (classify_input input desired)) input.actual_users,
          ),
    )
