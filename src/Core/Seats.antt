-- ===== src/Core/Seats.antt =====
-- internal/core/classify.go: why a seat exists, relative to the corporate directory.
pub mod Laws
use unseat.Base.{
  ℕ, ◌+◌, String, List, [], ◌∷◌, Bool, true, false, not, ◌&&◌, Option, none, some, ◌==◌,
  if◌then◌else◌, to_lower, trim_space, trim_at, has_at, has_suffix, map, length, count_of, keep,
  ◌<>◌,
}
use unseat.Base.Dict.{Dict, lookup}
use unseat.Core.Types.{User}
use unseat.Core.Alias.{resolve_alias}

pub data SeatClass : Type 0 where
  managed unmapped orphan external unresolved : SeatClass

pub record DirectoryUser : Type 0 where
  pub email : String
  pub suspended : Bool

-- `none` in `directory` and `alias_index` stands for a nil map.
pub record ClassifyInput : Type 0 where
  pub provider_name : String
  pub actual_users : List User
  pub directory : Option (Dict DirectoryUser)
  pub desired_emails : Dict Bool
  pub domain : String
  pub alias_index : Option (Dict String)
  pub exceptions : Dict Bool

pub record ClassifiedSeat : Type 0 where
  pub provider : String
  pub email : String
  pub raw_email : String
  pub user : User
  pub class : SeatClass
  pub reason : String
  pub protected : Bool

-- A read of a `map[string]bool`: a missing key reads false.
unfoldable pub flag : String → Dict Bool → Bool
flag k m = elim (lookup k m) [ none ↦ false | some b ↦ b ]

abbrev pub is_orphan : SeatClass → Bool
is_orphan orphan = true
is_orphan _ = false

-- `ClassifiedSeat.Reclaimable`
unfoldable pub reclaimable : ClassifiedSeat → Bool
reclaimable s = is_orphan s.class && not s.protected

-- The first line of `ClassifySeats`.
unfoldable pub normal_domain : String → String
normal_domain d = to_lower (trim_at (trim_space d))

-- The inner `switch`, on the directory's entry for the seat.
unfoldable pub directory_verdict : Option DirectoryUser → Bool → SeatClass × String
directory_verdict none desired = (orphan, "no matching identity in the directory")
directory_verdict (some dir) desired =
    if dir.suspended
    then (orphan, "directory identity is suspended")
    else if desired
    then (managed, "member of a group mapped to this provider")
    else (unmapped, "active employee, but no mapped group grants this provider")

-- The outer `switch`.
unfoldable pub verdict :
    String → Option (Dict DirectoryUser) → Dict Bool → String → SeatClass × String
unfolding directory_verdict flag
verdict domain directory desired resolved =
    if not (has_at resolved)
    then (unresolved, "provider reports a username with no email, and no alias maps it to a person")
    else if not (domain == "") && not (has_suffix resolved ("@" <> domain))
    then (external, "identity outside the corporate domain " <> domain)
    else elim directory [
      | none ↦ (unresolved, "directory unavailable — cannot determine employment status")
      | some dir ↦ directory_verdict (lookup resolved dir) (flag resolved desired)
    ]

-- The body of the loop of `ClassifySeats`.
unfoldable pub classify_seat : ClassifyInput → User → ClassifiedSeat
classify_seat input u =
    let resolved = resolve_alias input.alias_index u.email in
    let v = verdict (normal_domain input.domain) input.directory input.desired_emails resolved in
    record {
      provider = input.provider_name;
      email = resolved;
      raw_email = u.email;
      user = u;
      class = v.0;
      reason = v.1;
      protected = flag resolved input.exceptions;
    }

-- `ClassifySeats`
unfoldable pub classify_seats : ClassifyInput → List ClassifiedSeat
classify_seats input = map (classify_seat input) input.actual_users

pub record ClassSummary : Type 0 where
  pub provider : String
  pub managed_count : ℕ
  pub unmapped_count : ℕ
  pub orphan_count : ℕ
  pub external_count : ℕ
  pub unresolved_count : ℕ
  pub protected_count : ℕ
  pub total : ℕ

-- The two switches of `SummarizeSeats`, for one seat.
unfoldable pub tally : ClassSummary → ClassifiedSeat → ClassSummary
tally s seat =
    let s' = if seat.protected then record s { protected_count = s.protected_count + 1 } else s in
    elim seat.class [
      | managed ↦ record s' { managed_count = s'.managed_count + 1 }
      | unmapped ↦ record s' { unmapped_count = s'.unmapped_count + 1 }
      | orphan ↦ record s' { orphan_count = s'.orphan_count + 1 }
      | external ↦ record s' { external_count = s'.external_count + 1 }
      | unresolved ↦ record s' { unresolved_count = s'.unresolved_count + 1 }
    ]

unfoldable pub tally_all : ClassSummary → List ClassifiedSeat → ClassSummary
tally_all s [] = s
tally_all s (seat ∷ seats) = tally_all (tally s seat) seats

abbrev pub empty_summary : String → ℕ → ClassSummary
empty_summary provider total = record {
  provider = provider;
  managed_count = 0;
  unmapped_count = 0;
  orphan_count = 0;
  external_count = 0;
  unresolved_count = 0;
  protected_count = 0;
  total = total;
}

-- `SummarizeSeats`
unfoldable pub summarize_seats : String → List ClassifiedSeat → ClassSummary
unfolding tally_all tally
summarize_seats provider seats = tally_all (empty_summary provider (length seats)) seats
