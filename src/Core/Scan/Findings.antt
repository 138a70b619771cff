-- ===== src/Core/Scan/Findings.antt =====
-- internal/core/scan.go: the findings of a scan, and `Scan`.
use unseat.Base.{
  ℕ, String, ◌<>◌, List, [], ◌∷◌, Bool, not, ◌&&◌, Option, none, some, if◌then◌else◌, ltb, length,
  take, nat_eq, to_lower, trim_space, trim_at,
}
use unseat.Base.Decimal.{decimal}
use unseat.Base.Int64.{is_positive, is_negative, negate64, add64, mul64}
use unseat.Base.Sorting.{sort_by, sort_strings}
use unseat.Core.Types.{SuspendedBilling}
use unseat.Core.Billing.{BillingSource, BillingSnapshot, billed_seat_count, filled_seat_count}
use unseat.Core.Scan.{
  FindingKind, Severity, Finding, ScanInput, ProviderScan, SeatLists, no_seats, scan_users,
  billing_unit_minor, completed, monthly_cost,
}

abbrev pub max_subjects : ℕ
max_subjects = 20

-- `capSubjects`
unfoldable pub cap_subjects : List String → List String
cap_subjects labels = take max_subjects (sort_strings labels)

-- `strconv.Itoa`
unfoldable pub int_text : ℕ → String
int_text n = if is_negative n then "-" <> decimal (negate64 n) else decimal n

abbrev pub unpriced : String
unpriced = "; price unknown because the provider API did not state the seat rate"

-- A count at the rate per seat, where there is one; the message says so where there is none.
unfoldable pub priced : Option ℕ → Finding → Finding
priced none f = record f { message = f.message <> unpriced }
priced (some rate) f = record f { monthly_waste_minor = some (mul64 f.count rate) }

-- A finding about the accounts of a list, without a price.
unfoldable pub finding_of : FindingKind → Severity → List String → String → Finding
finding_of kind severity labels message = record {
  kind = kind;
  severity = severity;
  count = length labels;
  subjects = cap_subjects labels;
  message = message;
  monthly_waste_minor = none;
}

-- `suspendedFinding`
unfoldable pub suspended_finding : SuspendedBilling → List String → Option ℕ → Finding
unfolding finding_of priced
suspended_finding SuspendedBilling.charged labels rate = priced rate (
    finding_of FindingKind.suspended_but_billed Severity.high labels
      "deactivated accounts still billed — this vendor charges for a seat until the user is fully deleted")
suspended_finding SuspendedBilling.released labels rate =
    finding_of FindingKind.suspended_accounts Severity.info labels
      "deactivated accounts, not billed by this vendor — no saving to make, but they remain reactivatable and are worth an access review"
suspended_finding SuspendedBilling.unknown labels rate =
    finding_of FindingKind.suspended_accounts Severity.medium labels
      "deactivated accounts still holding a seat — billing depends on the vendor and your contract; unseat will not price them unless the provider API states they are billed"

-- `occupiedSeats`: the seats taken, and the unused remainder.
unfoldable pub occupied_seats : ℕ → ℕ → ℕ → ℕ × ℕ
occupied_seats billed filled active =
    let occupied = if nat_eq filled 0 then active else filled in
    (occupied, add64 billed (negate64 occupied))

unfoldable pub over_provisioned : ℕ → ℕ → ℕ → Finding
over_provisioned billed occupied gap = record {
  kind = FindingKind.billed_seats_unused;
  severity = Severity.high;
  count = gap;
  subjects = [];
  message =
      "the vendor bills "
      <> (int_text billed
          <> (" seats but only "
              <> (int_text occupied
                  <> " are occupied — a prepaid block or plan minimum worth revisiting")));
  monthly_waste_minor = none;
}

unfoldable pub no_activity : Finding
no_activity = record {
  kind = FindingKind.no_activity_data;
  severity = Severity.info;
  count = 0;
  subjects = [];
  message = "this provider's API exposes no activity data — unused seats cannot be detected here";
  monthly_waste_minor = none;
}

unfoldable pub sprawl : List String → ℕ → ℕ → Finding
unfolding finding_of
sprawl labels count percent =
    record (finding_of FindingKind.admin_sprawl Severity.medium labels (
      "privileged accounts exceed "
      <> (decimal percent
          <> "% of all seats (role names are matched heuristically — verify before acting)"))) {
            count = count;
          }

-- The findings whose test holds, in order.
unfoldable pub selected : List (Bool × Finding) → List Finding
selected [] = []
selected ((test, f) ∷ rest) = let others = selected rest in if test then f ∷ others else others

-- The findings of `Scan` with the tests under which they are appended, in their order.
unfoldable pub guarded_findings :
    ScanInput → String → SeatLists → ℕ → ℕ → Option ℕ → List (Bool × Finding)
unfolding suspended_finding occupied_seats over_provisioned no_activity sprawl finding_of priced
guarded_findings input domain s billed filled rate =
    let (occupied, gap) = occupied_seats billed filled s.active_count in
    let seats = length input.users in
    (is_positive billed && is_positive gap, priced rate (over_provisioned billed occupied gap))
    ∷ (ltb 0 (length s.suspended), suspended_finding input.suspended_billing s.suspended rate)
    ∷ (
      ltb 0 (length s.inactive),
      priced rate (
          finding_of FindingKind.inactive Severity.high s.inactive
            ("no recorded activity in the last " <> (decimal input.floats.whole_days <> " days"))),
    )
    ∷ (
      ltb 0 (length s.external),
      finding_of FindingKind.external_identity Severity.medium s.external
          ("identities outside " <> (domain <> " — guests, contractors or personal accounts")),
    )
    ∷ (
      (ltb 0 seats && input.floats.admins_exceed s.admin_count seats) && ltb 1 s.admin_count,
      sprawl s.admins s.admin_count input.floats.admin_percent,
    )
    ∷ (not input.reports_activity, no_activity)
    ∷ []

-- The loop that adds up what the findings waste; `none` until one of them states an amount.
unfoldable pub add_waste : Option ℕ → Option ℕ → Option ℕ
add_waste none sum = sum
add_waste (some waste) none = some (add64 0 waste)
add_waste (some waste) (some sum) = some (add64 sum waste)

unfoldable pub total_waste : Option ℕ → List Finding → Option ℕ
unfolding add_waste
total_waste sum [] = sum
total_waste sum (f ∷ fs) = total_waste (add_waste f.monthly_waste_minor sum) fs

-- `severityRank`
abbrev pub severity_rank : Severity → ℕ
severity_rank Severity.high = 0
severity_rank Severity.medium = 1
severity_rank Severity.info = 2

-- The order of `sortFindings`.
unfoldable pub finding_before : Finding → Finding → Bool
finding_before f g =
    if nat_eq (severity_rank f.severity) (severity_rank g.severity)
    then ltb g.count f.count
    else ltb (severity_rank f.severity) (severity_rank g.severity)

abbrev pub if_charged : SuspendedBilling → ℕ → Option ℕ → Option ℕ
if_charged SuspendedBilling.charged n (some rate) = some (mul64 n rate)
if_charged SuspendedBilling.charged n none = none
if_charged SuspendedBilling.released n rate = none
if_charged SuspendedBilling.unknown n rate = none

-- What `Scan` reads in the snapshot.
abbrev pub source_of : Option BillingSnapshot → BillingSource
source_of none = BillingSource.no_source
source_of (some b) = b.source

-- The time of `Scan`: the one given, or the clock's.
unfoldable pub scan_time : ℕ → ScanInput → ℕ
scan_time clock input = elim input.now [ none ↦ clock | some t ↦ t ]

-- The corporate domain of `Scan`, lowered and without a leading `@`.
unfoldable pub scan_domain : ScanInput → String
scan_domain input = to_lower (trim_at (trim_space input.domain))

-- The pass of `Scan` over the users.
unfoldable pub scan_seats : ℕ → ScanInput → SeatLists
scan_seats clock input =
    scan_users input (scan_time clock input) (scan_domain input) no_seats input.users

-- The snapshot of `Scan`, with its defaults.
unfoldable pub scan_billing : String → ℕ → Option BillingSnapshot → Option BillingSnapshot
scan_billing provider now none = none
scan_billing provider now (some b) = some (completed provider now b)

-- What `Scan` finds, before it is sorted.
unfoldable pub scan_findings : ℕ → ScanInput → List Finding
unfolding guarded_findings selected scan_time scan_domain scan_seats scan_billing
scan_findings clock input =
    let billing = scan_billing input.provider (scan_time clock input) input.billing in
    selected (
      guarded_findings input (scan_domain input) (scan_seats clock input)
        (billed_seat_count billing) (filled_seat_count billing) (billing_unit_minor billing))

-- `Scan`, at a time of the clock.
unfoldable pub scan : ℕ → ScanInput → ProviderScan
unfolding scan_findings total_waste finding_before
scan clock input =
    let s = scan_seats clock input in
    let billing = scan_billing input.provider (scan_time clock input) input.billing in
    record {
      provider = input.provider;
      total = length input.users;
      active = s.active_count;
      suspended = s.suspended_count;
      admins = s.admin_count;
      findings = sort_by finding_before (scan_findings clock input);
      billing = billing;
      cost_per_seat_minor = billing_unit_minor billing;
      monthly_cost_minor = elim billing [ none ↦ none | some b ↦ monthly_cost s.active_count b ];
      rate_source = source_of billing;
      plan = elim billing [ none ↦ "" | some b ↦ b.plan ];
      billed_seats = billed_seat_count billing;
      filled_seats = filled_seat_count billing;
      next_billing_at = elim billing [ none ↦ none | some b ↦ b.next_billing_at ];
      billing_unavailable_reason = elim billing [ none ↦ "" | some b ↦ b.unavailable_reason ];
      monthly_waste_minor = total_waste none (scan_findings clock input);
      suspended_exposure_minor =
          if_charged input.suspended_billing s.suspended_count (billing_unit_minor billing);
    }
