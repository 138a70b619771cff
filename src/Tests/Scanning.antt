-- ===== src/Tests/Scanning.antt =====
-- A scan of three seats, of which one is suspended and one is outside the domain, at a vendor that
-- bills suspended seats and states a price.
use unseat.Base.{
  ◌*◌, All, [], ◌∷◌, false, none, some, ◌≡◌, refl, ltb, to_lower, trim_space, trim_at, has_at,
  has_suffix, contains, any,
}
use unseat.Base.Int64.{add64, mul64, div64}
use unseat.Core.Types.{charged, status_active}
use unseat.Core.Billing.{
  BillingSnapshot, api_subscription, no_confidence, billed_seat_count, filled_seat_count,
}
use unseat.Core.Scan.{ScanInput, billing_unit_minor, completed, scan_users}
use unseat.Core.Scan.Findings.{scan_domain, scan_time, scan, total_waste}
use unseat.Core.Scan.Counts.{Told, scan-Told}
use unseat.Core.Scan.Laws.{Justified, scan-Justified}
use unseat.Tests.Fixtures.{user_at, bob, dave}

abbrev stated : BillingSnapshot
stated = record {
  provider = "";
  account_id = "";
  fetched_at = none;
  plan = "pro";
  billed_seats = some 3;
  filled_seats = none;
  monthly_amount_minor = some 3000;
  cost_per_seat_minor = none;
  currency = "EUR";
  line_items = [];
  source = api_subscription;
  confidence = no_confidence;
  unavailable_reason = "";
  period_start = none;
  period_end = none;
  next_billing_at = none;
}

abbrev seats : ScanInput
seats = record {
  provider = "figma";
  users = bob ∷ dave ∷ user_at "eve@gmail.com" status_active ∷ [];
  domain = "@Corp.com";
  reports_activity = false;
  inactive_threshold = 0;
  billing = some stated;
  suspended_billing = charged;
  now = some 1000;
  floats = record {
    admins_exceed = λ admins total. ltb total (4 * admins);
    admin_percent = 25;
    whole_days = 0;
  };
}

-- The suspended seat is priced twice: as one of the three billed seats that no active user holds, and
-- as suspended but billed.
waste_stated : (scan 5 seats).monthly_waste_minor ≡ some 2000
unfolding scan billed_seat_count completed add64 filled_seat_count scan_users to_lower trim_at
    trim_space has_at has_suffix any contains billing_unit_minor mul64 div64
waste_stated = refl

scan-Justified_example :
    All (Justified seats) (scan 5 seats).findings
    × ((scan 5 seats).monthly_waste_minor ≡ total_waste none (scan 5 seats).findings)
scan-Justified_example = scan-Justified 5 seats

scan-Told_example : All (Told seats (scan_time 5 seats) (scan_domain seats)) (scan 5 seats).findings
scan-Told_example = scan-Told 5 seats
