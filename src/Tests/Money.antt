-- ===== src/Tests/Money.antt =====
-- Billing claims.
use unseat.Base.{◌≤◌, [], ◌∷◌, none, some, ◌≡◌, refl, arith}
use unseat.Core.Billing.{
  BillingSnapshot, BillingClaim, BillingClaimInput, api_subscription, exact, build_billing_claims,
  reclaim_amount_minor,
}
use unseat.Tests.People.{same_text}
use unseat.Core.Billing.Laws.{
  build_billing_claims_lem, reclaim-le-monthly, saves, expected_type, expected_amount,
}

abbrev invoice : BillingSnapshot
invoice = record {
  provider = "figma";
  account_id = "";
  fetched_at = none;
  plan = "pro";
  billed_seats = some 7;
  filled_seats = some 6;
  monthly_amount_minor = some 10000;
  cost_per_seat_minor = none;
  currency = "EUR";
  line_items = [];
  source = api_subscription;
  confidence = exact;
  unavailable_reason = "";
  period_start = none;
  period_end = none;
  next_billing_at = none;
}

abbrev two_seats : BillingClaimInput
two_seats = record {
  provider = "figma";
  subject = "bob@corp.com";
  billing = some invoice;
  reclaimable_seat_count = 2;
}

build_billing_claims_example :
    (claim : BillingClaim) × (build_billing_claims same_text two_seats ≡ claim ∷ [])
    × (claim.verified ≡ saves two_seats)
    × (claim.type ≡ expected_type two_seats)
    × (claim.amount_minor ≡ expected_amount two_seats)
build_billing_claims_example = build_billing_claims_lem same_text two_seats

reclaim-le-monthly_example : (reclaim_amount_minor invoice 2 ≡ some 2856) × (2856 ≤ 10000)
reclaim-le-monthly_example =
    reclaim-le-monthly invoice 10000 7 2 refl refl refl (omega arith) (omega arith) (omega arith)
      (omega arith)
