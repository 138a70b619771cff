-- ===== src/Core/Suggest/Report.antt =====
-- `AttributeUnresolved` and `SuggestAliases` of internal/core/suggest.go.
use unseat.Base.{
  String, ◌<>◌, List, [], ◌∷◌, ◌++◌, Bool, not, Option, none, some, ◌==◌, if◌then◌else◌, to_lower,
}
use unseat.Base.Sorting.{str_lt, sort_by}
use unseat.Core.Types.{User}
use unseat.Core.Seats.{ClassifiedSeat}
use unseat.Core.Suggest.{
  Unicode, DirectoryKey, build_directory_keys, noise_for, name_key, match_against, match_handle,
  stated_name, has_name,
}

pub record AliasSuggestion : Type 0 where
  pub provider : String
  pub identifier : String
  pub display_name : String
  pub email : String
  pub basis : String

pub record AttributionReport : Type 0 where
  pub matched : List AliasSuggestion
  pub named_but_unknown : List ClassifiedSeat
  pub anonymous : List ClassifiedSeat

suggestion : ClassifiedSeat → String → User → String → AliasSuggestion
suggestion seat name match basis = record {
  provider = seat.provider;
  identifier = seat.raw_email;
  display_name = name;
  email = to_lower match.email;
  basis = basis;
}

module _ (unicode : Unicode) (keys : List DirectoryKey) (noise : List String) where
  by_name : ClassifiedSeat → Option AliasSuggestion
  unfolding suggestion
  by_name seat =
      if has_name seat
      then (elim (match_against (name_key unicode (stated_name seat)) keys) [
        | none ↦ none
        | some (match, basis) ↦
            some (suggestion seat (stated_name seat) match ("reported name " <> basis))
      ])
      else none

  by_handle : ClassifiedSeat → Option AliasSuggestion
  unfolding suggestion
  by_handle seat = elim (match_handle unicode seat.raw_email keys noise) [
    | none ↦ none
    | some (match, basis) ↦ some (suggestion seat match.display_name match ("handle " <> basis))
  ]

  -- What a seat is attributed to: by its name, or else by its handle.
  unfoldable pub attribution : ClassifiedSeat → Option AliasSuggestion
  unfolding by_name by_handle
  attribution seat = elim (by_name seat) [ none ↦ by_handle seat | some s ↦ some s ]

  -- The body of the loop of `AttributeUnresolved`.
  unfoldable pub report_seat : AttributionReport → ClassifiedSeat → AttributionReport
  unfolding attribution
  report_seat rep seat = elim (attribution seat) [
    | some s ↦ record rep { matched = rep.matched ++ (s ∷ []) }
    | none ↦
        if has_name seat
        then record rep { named_but_unknown = rep.named_but_unknown ++ (seat ∷ []) }
        else record rep { anonymous = rep.anonymous ++ (seat ∷ []) }
  ]

  unfoldable pub report_seats : AttributionReport → List ClassifiedSeat → AttributionReport
  unfolding report_seat
  report_seats rep [] = rep
  report_seats rep (seat ∷ seats) = report_seats (report_seat rep seat) seats

suggestion_before : AliasSuggestion → AliasSuggestion → Bool
suggestion_before a b =
    if not (a.email == b.email) then str_lt a.email b.email else str_lt a.identifier b.identifier

-- The order of `sortSeats`.
seat_before : ClassifiedSeat → ClassifiedSeat → Bool
seat_before a b =
    if not (a.provider == b.provider)
    then str_lt a.provider b.provider
    else str_lt (to_lower a.raw_email) (to_lower b.raw_email)

abbrev pub empty_report : AttributionReport
empty_report = record { matched = []; named_but_unknown = []; anonymous = [] }

-- `AttributeUnresolved`
unfoldable pub attribute_unresolved :
    Unicode → List ClassifiedSeat → List User → String → AttributionReport
unfolding report_seats suggestion_before seat_before
attribute_unresolved unicode unresolved directory domain =
    let rep =
      report_seats unicode (build_directory_keys unicode directory) (noise_for unicode domain)
        empty_report unresolved in
    record {
      matched = sort_by suggestion_before rep.matched;
      named_but_unknown = sort_by seat_before rep.named_but_unknown;
      anonymous = sort_by seat_before rep.anonymous;
    }

-- `SuggestAliases`
unfoldable pub suggest_aliases :
    Unicode → List ClassifiedSeat → List User → String → List AliasSuggestion
unfolding attribute_unresolved
suggest_aliases unicode unresolved directory domain =
    (attribute_unresolved unicode unresolved directory domain).matched
