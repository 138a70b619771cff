-- ===== src/Core/Seats/Laws.antt =====
-- The verdicts on seats: what each class says of the seat.
use unseat.Base.{
  ◌+◌, String, List, [], ◌∷◌, Bool, true, false, not, ◌&&◌, Option, none, some, ◌==◌, arith, ◌≡◌,
  refl, if◌then◌else◌, has_at, has_suffix, ◌<>◌, length, count_of, keep,
}
use unseat.Base.Dict.{Dict, lookup}
use unseat.Core.Types.{User}
use unseat.Core.Alias.{resolve_alias}
use unseat.Core.Seats.{
  SeatClass, managed, unmapped, orphan, external, unresolved, DirectoryUser, ClassifyInput,
  ClassifiedSeat, ClassSummary, flag, reclaimable, normal_domain, verdict, classify_seat, tally,
  tally_all, empty_summary, summarize_seats,
}

-- The directory carries the address as active.
abbrev pub is_active : Option (Dict DirectoryUser) → String → Bool
is_active none email = false
is_active (some dir) email = elim (lookup email dir) [ none ↦ false | some d ↦ not d.suspended ]

-- The directory was read and does not carry the address as active.
abbrev pub has_left : Option (Dict DirectoryUser) → String → Bool
has_left none email = false
has_left (some dir) email = elim (lookup email dir) [ none ↦ true | some d ↦ d.suspended ]

-- The address is one of the corporate domain, or no domain is set.
abbrev pub is_internal : String → String → Bool
is_internal domain email = if domain == "" then true else has_suffix email ("@" <> domain)

-- The class that the rules of the documentation give a resolved identifier, as one table.
abbrev pub expected_class : ClassifyInput → String → SeatClass
expected_class input email =
    if not (has_at email)
    then unresolved
    else if not (is_internal (normal_domain input.domain) email)
    then external
    else if has_left input.directory email
    then orphan
    else if not (is_active input.directory email)
    then unresolved
    else if flag email input.desired_emails
    then managed
    else unmapped

-- A seat keeps what the provider reported, carries its resolved address, and has the class of the
-- table; it is protected exactly when the exceptions hold that address.
pub classify_seat_lem :
    (input : ClassifyInput) (u : User)
    → let seat = classify_seat input u in
      let email = resolve_alias input.alias_index u.email in
      (seat.email ≡ email)
      × (seat.raw_email ≡ u.email)
      × (seat.user ≡ u)
      × (seat.provider ≡ input.provider_name)
      × (seat.class ≡ expected_class input email)
      × (seat.protected ≡ flag email input.exceptions)
unfolding classify_seat verdict
classify_seat_lem input u = (refl, refl, refl, refl, ground arith, refl)

-- A seat may be reclaimed automatically exactly when its identifier is an address of the corporate
-- domain, the directory was read and lacks the address or holds it as suspended, and no exception
-- names it.
pub reclaimable-classify_seat :
    (input : ClassifyInput) (u : User)
    → let email = resolve_alias input.alias_index u.email in
      reclaimable (classify_seat input u) ≡ (
        has_at email
        && is_internal (normal_domain input.domain) email
        && has_left input.directory email
        && not (flag email input.exceptions))
unfolding classify_seat verdict reclaimable
reclaimable-classify_seat input u = ground arith

abbrev same_class : SeatClass → SeatClass → Bool
same_class managed managed = true
same_class unmapped unmapped = true
same_class orphan orphan = true
same_class external external = true
same_class unresolved unresolved = true
same_class _ _ = false

abbrev pub of_class : SeatClass → ClassifiedSeat → Bool
of_class c seat = same_class c seat.class

-- The counts of a summary, added to those of another.
abbrev Counted : ClassSummary → List ClassifiedSeat → ClassSummary → Type 0
Counted s seats t =
    (t.managed_count ≡ s.managed_count + count_of (of_class managed) seats)
    × (t.unmapped_count ≡ s.unmapped_count + count_of (of_class unmapped) seats)
    × (t.orphan_count ≡ s.orphan_count + count_of (of_class orphan) seats)
    × (t.external_count ≡ s.external_count + count_of (of_class external) seats)
    × (t.unresolved_count ≡ s.unresolved_count + count_of (of_class unresolved) seats)
    × (t.protected_count ≡ s.protected_count + count_of (λ seat. seat.protected) seats)
    × (t.total ≡ s.total)

tally_all-Counted :
    (s : ClassSummary) (seats : List ClassifiedSeat) → Counted s seats (tally_all s seats)
unfolding tally_all tally keep
tally_all-Counted s [] = omega arith
tally_all-Counted s (seat ∷ seats) = ground (arith, tally_all-Counted (tally s seat) seats)

classes_add_up :
    (seats : List ClassifiedSeat)
    → count_of (of_class managed) seats
        + count_of (of_class unmapped) seats
        + count_of (of_class orphan) seats
        + count_of (of_class external) seats
        + count_of (of_class unresolved) seats
      ≡ length seats
unfolding keep
classes_add_up [] = refl
classes_add_up (seat ∷ seats) = ground (arith, classes_add_up seats)

-- Each count of a summary is the number of seats of its class, the protected count that of the
-- protected seats, and the total the number of seats, which the five classes add up to.
pub summarize_seats_lem :
    (provider : String) (seats : List ClassifiedSeat)
    → let s = summarize_seats provider seats in
      (s.managed_count ≡ count_of (of_class managed) seats)
      × (s.unmapped_count ≡ count_of (of_class unmapped) seats)
      × (s.orphan_count ≡ count_of (of_class orphan) seats)
      × (s.external_count ≡ count_of (of_class external) seats)
      × (s.unresolved_count ≡ count_of (of_class unresolved) seats)
      × (s.protected_count ≡ count_of (λ seat. seat.protected) seats)
      × (s.total ≡ length seats)
      × (s.managed_count + s.unmapped_count + s.orphan_count + s.external_count + s.unresolved_count
          ≡ s.total)
unfolding summarize_seats
summarize_seats_lem provider seats =
    omega
      (arith, tally_all-Counted (empty_summary provider (length seats)) seats, classes_add_up seats)
