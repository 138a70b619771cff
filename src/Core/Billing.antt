-- ===== src/Core/Billing.antt =====
-- internal/core/billing.go and billing_claim.go: what a provider's API says of its subscription, and
-- the claims that unseat makes from it. Money and vendor counts are `int64` patterns.
pub mod Laws
use Prim.Native.String.{slice}
use unseat.Base.{
  ℕ, String, ◌<>◌, List, [], ◌∷◌, Bool, true, false, not, ◌&&◌, ◌||◌, Option, none, some, ◌==◌,
  if◌then◌else◌, join, ltb, is_some,
}
use unseat.Base.Int64.{is_positive, mul64, div64}

pub data BillingSource : Type 0 where
  no_source api_invoice api_subscription api_billing_portal api_seat_count unavailable :
      BillingSource

pub data BillingConfidence : Type 0 where
  no_confidence exact partial unavailable : BillingConfidence

pub record BillingLine : Type 0 where
  pub id : String
  pub description : String
  pub quantity : Option ℕ
  pub amount_minor : Option ℕ
  pub currency : String
  pub period_start : Option ℕ
  pub period_end : Option ℕ

pub record BillingSnapshot : Type 0 where
  pub provider : String
  pub account_id : String
  pub fetched_at : Option ℕ
  pub plan : String
  pub billed_seats : Option ℕ
  pub filled_seats : Option ℕ
  pub monthly_amount_minor : Option ℕ
  pub cost_per_seat_minor : Option ℕ
  pub currency : String
  pub line_items : List BillingLine
  pub source : BillingSource
  pub confidence : BillingConfidence
  pub unavailable_reason : String
  pub period_start : Option ℕ
  pub period_end : Option ℕ
  pub next_billing_at : Option ℕ

-- `ptrIntValue`
abbrev pub int_value : Option ℕ → ℕ
int_value none = 0
int_value (some n) = n

-- `BilledSeatCount` and `FilledSeatCount`
unfoldable pub billed_seat_count : Option BillingSnapshot → ℕ
billed_seat_count none = 0
billed_seat_count (some b) = int_value b.billed_seats

unfoldable pub filled_seat_count : Option BillingSnapshot → ℕ
filled_seat_count none = 0
filled_seat_count (some b) = int_value b.filled_seats

-- `HasMoney`
unfoldable pub has_money : BillingSnapshot → Bool
has_money b = is_some b.monthly_amount_minor || is_some b.cost_per_seat_minor

pub data BillingClaimType : Type 0 where
  saving_verified saving_estimated_by_provider seat_reclaim_verified : BillingClaimType
  renewal_opportunity money_unknown procurement_required : BillingClaimType

unfoldable pub claim_type_name : BillingClaimType → String
claim_type_name saving_verified = "saving_verified"
claim_type_name saving_estimated_by_provider = "saving_estimated_by_provider"
claim_type_name seat_reclaim_verified = "seat_reclaim_verified"
claim_type_name renewal_opportunity = "renewal_opportunity"
claim_type_name money_unknown = "money_unknown"
claim_type_name procurement_required = "procurement_required"

pub record BillingClaim : Type 0 where
  pub id : String
  pub provider : String
  pub type : BillingClaimType
  pub subject : String
  pub seat_count_known : Bool
  pub billed_seat_known : Bool
  pub unit_price_known : Bool
  pub contract_unknown : Bool
  pub verified : Bool
  pub amount_minor : Option ℕ
  pub currency : String
  pub reason : String
  pub source : BillingSource

pub record BillingClaimInput : Type 0 where
  pub provider : String
  pub subject : String
  pub billing : Option BillingSnapshot
  pub reclaimable_seat_count : ℕ

-- `reclaimAmountMinor`
unfoldable pub reclaim_amount_minor : BillingSnapshot → ℕ → Option ℕ
unfolding mul64 div64
reclaim_amount_minor b seats =
    if not (is_positive seats) then none else elim b.cost_per_seat_minor [
      | some cost ↦ some (mul64 cost seats)
      | none ↦ elim b.monthly_amount_minor [
        | none ↦ none
        | some monthly ↦ elim b.billed_seats [
          | none ↦ none
          | some billed ↦
              if is_positive billed then some (mul64 (div64 monthly billed) seats) else none
        ]
      ]
    ]

-- SHA-256 in hexadecimal is a function of the text, given from outside.
module _ (sha256_hex : String → String) where
  -- `newBillingClaim`
  unfoldable pub new_billing_claim :
      String → String → BillingClaimType → String → Option ℕ → String → BillingClaim
  new_billing_claim provider subject type reason amount currency = record {
    id =
        "bill_"
        <> slice (sha256_hex (join ":" (provider ∷ subject ∷ claim_type_name type ∷ reason ∷ []))) 0
            16;
    provider = provider;
    type = type;
    subject = subject;
    seat_count_known = false;
    billed_seat_known = false;
    unit_price_known = false;
    contract_unknown = false;
    verified = false;
    amount_minor = amount;
    currency = currency;
    reason = reason;
    source = no_source;
  }

  -- The branch of a vendor that stated money while the subject holds reclaimable seats.
  unfoldable pub saving_claim : BillingClaimInput → BillingSnapshot → BillingClaim
  unfolding new_billing_claim
  saving_claim input b =
      let claim =
        new_billing_claim input.provider input.subject saving_verified
          "provider API exposed money and reclaimable seats"
          (reclaim_amount_minor b input.reclaimable_seat_count) b.currency in
      record claim {
        verified = true;
        unit_price_known = is_some b.cost_per_seat_minor;
        seat_count_known = true;
        billed_seat_known = is_some b.billed_seats;
        source = b.source;
      }

  -- The branch of a vendor that stated its billed seats.
  unfoldable pub seats_claim : BillingClaimInput → BillingSnapshot → BillingClaim
  unfolding new_billing_claim
  seats_claim input b =
      let opportunity =
        new_billing_claim input.provider input.subject renewal_opportunity
          "provider API exposed billed seats, but no immediate reclaimable subject seat was proven"
          none b.currency in
      let unpriced =
        new_billing_claim input.provider input.subject money_unknown
          "provider API exposed seat counts but not contracted price" none b.currency in
      if has_money b
      then record opportunity {
        unit_price_known = is_some b.cost_per_seat_minor || is_some b.monthly_amount_minor;
        seat_count_known = true;
        billed_seat_known = true;
        source = b.source;
      }
      else record unpriced {
        seat_count_known = true;
        billed_seat_known = true;
        contract_unknown = true;
        source = b.source;
      }

  -- The branch of a vendor that stated neither.
  unfoldable pub procurement_claim : BillingClaimInput → BillingSnapshot → BillingClaim
  unfolding new_billing_claim
  procurement_claim input b =
      let claim =
        new_billing_claim input.provider input.subject procurement_required
          (if b.unavailable_reason == ""
            then "provider API did not return billing facts"
            else b.unavailable_reason)
          none b.currency in
      record claim { contract_unknown = true; source = b.source }

  -- `BuildBillingClaims`
  unfoldable pub build_billing_claims : BillingClaimInput → List BillingClaim
  unfolding new_billing_claim saving_claim seats_claim procurement_claim
  build_billing_claims input = elim input.billing [
    | none ↦
        new_billing_claim input.provider input.subject money_unknown
          "provider connector does not expose billing API data" none ""
        ∷ []
    | some b ↦
        if has_money b && is_positive input.reclaimable_seat_count
        then saving_claim input b ∷ []
        else if is_some b.billed_seats
        then seats_claim input b ∷ []
        else procurement_claim input b ∷ []
  ]
