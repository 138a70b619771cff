-- ===== src/Core/Billing/Laws.antt =====
-- The billing claims: their kinds and their amounts.
use unseat.Base.{
  ℕ, ◌*◌, ◌/◌, ◌<◌, ◌≤◌, String, [], ◌∷◌, Bool, true, false, not, ◌&&◌, ◌||◌, Option, none, some,
  arith, ◌≡◌, if◌then◌else◌, is_some, Option-cases, inl, inr, refl,
}
use Prim.Native.Nat.{◌^◌, ◌%◌}
use native.Mathlib.Nat.{le_trans, div-mul-le_self, mul-le-mul_left}
use unseat.Base.Int64.{is_positive, mul64, div64}
use unseat.Core.Billing.{
  BillingSnapshot, BillingClaim, BillingClaimInput, BillingClaimType, saving_verified,
  money_unknown, procurement_required, renewal_opportunity, has_money, reclaim_amount_minor,
  build_billing_claims, saving_claim, seats_claim, procurement_claim, new_billing_claim,
}

-- The vendor stated money, and the subject holds a seat to reclaim.
abbrev pub saves : BillingClaimInput → Bool
saves input = elim input.billing [
  | none ↦ false
  | some b ↦
      (is_some b.monthly_amount_minor || is_some b.cost_per_seat_minor)
      && is_positive input.reclaimable_seat_count
]

-- The amount that the vendor's figures give: its seat price, or else its monthly amount divided by
-- its billed seats, times the reclaimable seats, modulo 2 ^ 64; none where there is neither.
abbrev pub stated_amount : BillingSnapshot → ℕ → Option ℕ
stated_amount b seats = elim b.cost_per_seat_minor [
  | some cost ↦ some (cost * seats % 2 ^ 64)
  | none ↦ elim b.monthly_amount_minor [
    | none ↦ none
    | some monthly ↦ elim b.billed_seats [
      | none ↦ none
      | some billed ↦
          if is_positive billed then some (div64 monthly billed * seats % 2 ^ 64) else none
    ]
  ]
]

-- The amount of the claim: only a saving carries one.
abbrev pub expected_amount : BillingClaimInput → Option ℕ
expected_amount input = elim input.billing [
  | none ↦ none
  | some b ↦ if saves input then stated_amount b input.reclaimable_seat_count else none
]

-- The type of the claim: a saving; or seats that are billed, at a known or an unknown price; or no
-- billing facts; or no billing API.
abbrev pub expected_type : BillingClaimInput → BillingClaimType
expected_type input = elim input.billing [
  | none ↦ money_unknown
  | some b ↦
      if saves input
      then saving_verified
      else if not (is_some b.billed_seats)
      then procurement_required
      else if is_some b.monthly_amount_minor || is_some b.cost_per_seat_minor
      then renewal_opportunity
      else money_unknown
]

module _ (sha256_hex : String → String) where
  -- The one claim that is made.
  abbrev pub claim_of : BillingClaimInput → BillingClaim
  claim_of input = elim input.billing [
    | none ↦
        new_billing_claim sha256_hex input.provider input.subject money_unknown
          "provider connector does not expose billing API data" none ""
    | some b ↦
        if has_money b && is_positive input.reclaimable_seat_count
        then saving_claim sha256_hex input b
        else if is_some b.billed_seats
        then seats_claim sha256_hex input b
        else procurement_claim sha256_hex input b
  ]

  pub build_billing_claims-claim_of :
      (input : BillingClaimInput) → build_billing_claims sha256_hex input ≡ claim_of input ∷ []
  unfolding build_billing_claims
  build_billing_claims-claim_of input = ground arith

amount-stated :
    (b : BillingSnapshot) (seats : ℕ)
    → is_positive seats ≡ true
    → reclaim_amount_minor b seats ≡ stated_amount b seats
unfolding reclaim_amount_minor mul64
amount-stated b seats h = rw (h) refl

amount-claim_of :
    (sha256_hex : String → String) (input : BillingClaimInput)
    → (claim_of sha256_hex input).amount_minor ≡ expected_amount input
unfolding saving_claim seats_claim procurement_claim new_billing_claim has_money
amount-claim_of sha256_hex input = elim (Option-cases input.billing) [
  | inl e ↦ rw (e) refl
  | inr (b, e) ↦ ground (arith, e, amount-stated b input.reclaimable_seat_count)
]

-- There is exactly one claim. It is verified exactly when the vendor stated money and the subject
-- holds a seat to reclaim, and is then of the type of a verified saving; else its type says what is
-- missing. A verified saving carries the seat price, or else the monthly amount divided by the billed
-- seats, times the reclaimable seats, where the vendor's figures give that, and no amount where they
-- do not; no other claim carries an amount.
pub build_billing_claims_lem :
    (sha256_hex : String → String) (input : BillingClaimInput)
    → (claim : BillingClaim) × (build_billing_claims sha256_hex input ≡ claim ∷ [])
      × (claim.verified ≡ saves input)
      × (claim.type ≡ expected_type input)
      × (claim.amount_minor ≡ expected_amount input)
unfolding saving_claim seats_claim procurement_claim new_billing_claim has_money
build_billing_claims_lem sha256_hex input = (
  claim_of sha256_hex input,
  build_billing_claims-claim_of sha256_hex input,
  ground arith,
  ground arith,
  amount-claim_of sha256_hex input,
)

share-le : (m n k : ℕ) → k ≤ n → m / n * k ≤ m
share-le m n k h = le_trans (mul-le-mul_left (m / n) h) (div-mul-le_self m n)

mul64-eq : (a b : ℕ) → a * b < 2 ^ 64 → mul64 a b ≡ a * b
unfolding mul64
mul64-eq a b h = omega arith

div64-eq : (a b : ℕ) → a < 2 ^ 63 → b < 2 ^ 63 → div64 a b ≡ a / b
unfolding div64
div64-eq a b h k = ground arith

-- Where the vendor states no seat price but a monthly amount and the number of billed seats, both
-- positive 64-bit integers, and no more seats are reclaimed than are billed, the amount of the claim
-- is the monthly amount's share, rounded down for each seat, and does not exceed the monthly amount.
pub reclaim-le-monthly :
    (b : BillingSnapshot) (monthly billed seats : ℕ)
    → b.cost_per_seat_minor ≡ none
    → b.monthly_amount_minor ≡ some monthly
    → b.billed_seats ≡ some billed
    → monthly < 2 ^ 63
    → billed < 2 ^ 63
    → 0 < seats
    → seats ≤ billed
    → (reclaim_amount_minor b seats ≡ some (monthly / billed * seats))
      × (monthly / billed * seats ≤ monthly)
unfolding reclaim_amount_minor
reclaim-le-monthly b monthly billed seats h1 h2 h3 hm hb hs hle =
    let bound = share-le monthly billed seats hle in
    (ground (arith, bound, mul64-eq (monthly / billed) seats, div64-eq monthly billed), bound)
