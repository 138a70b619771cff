-- ===== src/Core/Scan.antt =====
-- internal/core/scan.go: what one provider's list of seats says by itself, with its data, its pass over
-- the users and what it takes from the billing snapshot. Findings has the rest of `Scan`. The legacy
-- `float64` copies of amounts are left out.
pub mod Told
pub mod Counts
pub mod Findings
pub mod Laws
use unseat.Base.{
  ℕ, suc, ◌+◌, ◌-◌, ◌/◌, String, ◌<>◌, List, [], ◌∷◌, ◌++◌, Bool, true, false, not, ◌&&◌, ◌||◌,
  Option, none, some, ◌==◌, if◌then◌else◌, ltb, leb, is_some, to_lower, trim_space, trim_at, normal,
  contains, has_at, has_suffix, any,
}
use unseat.Base.Int64.{int64_mod, is_positive, negate64, add64, mul64, div64}
use unseat.Core.Types.{User, SuspendedBilling, status_suspended}
use unseat.Core.Billing.{
  BillingSnapshot, BillingSource, BillingConfidence, billed_seat_count, filled_seat_count,
  has_money,
}

pub data FindingKind : Type 0 where
  suspended_but_billed suspended_accounts external_identity admin_sprawl inactive : FindingKind
  no_activity_data billed_seats_unused : FindingKind

pub data Severity : Type 0 where
  high medium info : Severity

pub record Finding : Type 0 where
  pub kind : FindingKind
  pub severity : Severity
  pub count : ℕ
  pub subjects : List String
  pub message : String
  pub monthly_waste_minor : Option ℕ

-- What `float64` arithmetic makes of the threshold of admin sprawl, its default included, and of the
-- threshold of inactivity: whether a number of admins exceeds it in a number of seats, the threshold
-- in percent, and in days.
pub record Floats : Type 0 where
  pub admins_exceed : ℕ → ℕ → Bool
  pub admin_percent : ℕ
  pub whole_days : ℕ

-- `now` is `none` for the zero time.
pub record ScanInput : Type 0 where
  pub provider : String
  pub users : List User
  pub domain : String
  pub reports_activity : Bool
  pub inactive_threshold : ℕ
  pub billing : Option BillingSnapshot
  pub suspended_billing : SuspendedBilling
  pub now : Option ℕ
  pub floats : Floats

pub record ProviderScan : Type 0 where
  pub provider : String
  pub total : ℕ
  pub active : ℕ
  pub suspended : ℕ
  pub admins : ℕ
  pub findings : List Finding
  pub billing : Option BillingSnapshot
  pub cost_per_seat_minor : Option ℕ
  pub monthly_cost_minor : Option ℕ
  pub rate_source : BillingSource
  pub plan : String
  pub billed_seats : ℕ
  pub filled_seats : ℕ
  pub next_billing_at : Option ℕ
  pub billing_unavailable_reason : String
  pub monthly_waste_minor : Option ℕ
  pub suspended_exposure_minor : Option ℕ

-- `adminRoleTokens`
abbrev pub admin_role_tokens : List String
admin_role_tokens = "admin" ∷ "owner" ∷ "superuser" ∷ "super_user" ∷ "root" ∷ []

unfoldable pub is_privileged_role : String → Bool
is_privileged_role role = any (contains (to_lower role)) admin_role_tokens

-- What the pass over the users counts and lists.
pub record SeatLists : Type 0 where
  pub active_count : ℕ
  pub suspended_count : ℕ
  pub admin_count : ℕ
  pub suspended : List String
  pub external : List String
  pub admins : List String
  pub inactive : List String

abbrev pub no_seats : SeatLists
no_seats = record {
  active_count = 0;
  suspended_count = 0;
  admin_count = 0;
  suspended = [];
  external = [];
  admins = [];
  inactive = [];
}

unfoldable pub label_of : User → String
label_of u = let email = normal u.email in if email == "" then u.display_name else email

-- `now.Sub(t)` of an instant in the past, which stops at the greatest `int64`, and zero otherwise.
unfoldable pub elapsed : ℕ → ℕ → ℕ
elapsed now t = let d = now - t in if leb (int64_mod / 2) d then int64_mod / 2 - 1 else d

unfoldable pub is_suspended : User → Bool
is_suspended u = u.status == status_suspended

unfoldable pub is_external : String → User → Bool
is_external domain u =
    not (domain == "")
    && (has_at (normal u.email) && not (has_suffix (normal u.email) ("@" <> domain)))

unfoldable pub is_inactive : ScanInput → ℕ → User → Bool
unfolding elapsed is_suspended
is_inactive input now u =
    (input.reports_activity && is_positive input.inactive_threshold)
    && (not (is_suspended u) && elim u.last_activity_at [
      | none ↦ true
      | some t ↦ ltb input.inactive_threshold (elapsed now t)
    ])

-- `append(labels, label)` under a test.
abbrev pub noted : Bool → String → List String → List String
noted test label labels = labels ++ (if test then label ∷ [] else [])

-- `count++` under a test.
abbrev pub tick : Bool → ℕ → ℕ
tick test n = if test then suc n else n

-- The body of the loop over the users.
unfoldable pub scan_user : ScanInput → ℕ → String → SeatLists → User → SeatLists
unfolding is_suspended is_privileged_role is_external is_inactive label_of
scan_user input now domain s u =
    let label = label_of u in
    record {
      active_count = tick (not (is_suspended u)) s.active_count;
      suspended_count = tick (is_suspended u) s.suspended_count;
      admin_count = tick (is_privileged_role u.role) s.admin_count;
      suspended = noted (is_suspended u) label s.suspended;
      external = noted (is_external domain u) label s.external;
      admins = noted (is_privileged_role u.role) label s.admins;
      inactive = noted (is_inactive input now u) label s.inactive;
    }

unfoldable pub scan_users : ScanInput → ℕ → String → SeatLists → List User → SeatLists
unfolding scan_user
scan_users input now domain s [] = s
scan_users input now domain s (u ∷ us) =
    scan_users input now domain (scan_user input now domain s u) us

-- `billingUnitMinor`
unfoldable pub billing_unit_minor : Option BillingSnapshot → Option ℕ
billing_unit_minor none = none
billing_unit_minor (some b) = elim b.cost_per_seat_minor [
  | some cost ↦ some cost
  | none ↦ elim b.monthly_amount_minor [
    | none ↦ none
    | some amount ↦
        let billed = billed_seat_count (some b) in
        if is_positive billed then some (div64 (add64 amount (billed / 2)) billed) else none
  ]
]

or_source : BillingSource → BillingSource
or_source BillingSource.no_source = BillingSource.api_seat_count
or_source source = source

or_confidence : Bool → BillingConfidence → BillingConfidence
or_confidence money BillingConfidence.no_confidence =
    if money then BillingConfidence.exact else BillingConfidence.partial
or_confidence money confidence = confidence

-- The snapshot with the defaults of `Scan` for what it leaves empty.
unfoldable pub completed : String → ℕ → BillingSnapshot → BillingSnapshot
unfolding or_source or_confidence
completed provider now b = record b {
  provider = if b.provider == "" then provider else b.provider;
  fetched_at = some (elim b.fetched_at [ none ↦ now | some t ↦ t ]);
  source = or_source b.source;
  confidence = or_confidence (has_money b) b.confidence;
  unavailable_reason =
      if not (has_money b) && b.unavailable_reason == ""
      then "provider billing API did not return price or spend"
      else b.unavailable_reason;
}

-- What the seats cost in a month, of a snapshot and a number of live seats.
unfoldable pub monthly_cost : ℕ → BillingSnapshot → Option ℕ
unfolding billing_unit_minor
monthly_cost active b = elim b.monthly_amount_minor [
  | some amount ↦ some amount
  | none ↦ elim (billing_unit_minor (some b)) [
    | none ↦ none
    | some rate ↦
        let billed = billed_seat_count (some b) in
        some (mul64 (if is_positive billed then billed else active) rate)
  ]
]
