-- ===== src/Core/Decisions/Laws.antt =====
-- The decisions about a subject: which there are, and in what status they start.
use unseat.Base.{
  ℕ, String, List, [], ◌∷◌, ◌++◌, Bool, false, ◌&&◌, ◌||◌, Option, none, some, arith, ◌≡◌, ◌⊎◌, inl,
  inr, refl, All, All-append, Option-cases, Bool-cases, ap, count_of, keep, ◌+◌,
}
use unseat.Core.Objects.{ActionClass, remove_workspace_member, supports_action, same_action}
use unseat.Core.Seats.{ClassifiedSeat, is_orphan}
use unseat.Core.Identity.{matches}
use unseat.Core.Credentials.{ClassifiedCredential, CredentialClass, orphaned, dormant, unowned}
use unseat.Core.Billing.{BillingClaim}
use unseat.Core.Decisions.{
  Decision, proposed, blocked, DecisionInput, high, medium, slice_at, seat_decision,
  credential_decision, owned_decision, claim_decision, release_decision, attestation, revocation,
  with_reach, collect, build_decisions,
}

module _ {ℓ κ μ} {A : Type ℓ} {B : Type κ} where
  collect-All :
      (f : A → Option B) (P : B → Type μ) (xs : List A)
      → ((x : A) (y : B) → f x ≡ some y → P y)
      → All P (collect f xs)
  unfolding collect
  collect-All f P [] h = tt
  collect-All f P (x ∷ xs) h = elim (Option-cases (f x)) [
    | inl e ↦ rw (e, collect) (collect-All f P xs h)
    | inr (y, e) ↦ rw (e, collect) (h x y e, collect-All f P xs h)
  ]

-- A decision starts out proposed or blocked, and a removal is never blocked.
abbrev pub is_removal : ActionClass → Bool
is_removal a = same_action a remove_workspace_member

abbrev pub Unapproved : Decision → Type 0
Unapproved d =
    ((d.status ≡ proposed) ⊎ (d.status ≡ blocked)) × (d.approved_by ≡ "") × (d.rejected_by ≡ "")

module _ (sha256_hex : String → String) (input : DecisionInput) where
  seat_decision-Unapproved :
      (seat : ClassifiedSeat) (d : Decision)
      → seat_decision sha256_hex input seat ≡ some d
      → Unapproved d
  unfolding seat_decision
  seat_decision-Unapproved seat d h = ground arith

  credential_decision-Unapproved :
      (cred : ClassifiedCredential) (d : Decision)
      → credential_decision sha256_hex input cred ≡ some d
      → Unapproved d
  unfolding credential_decision
  credential_decision-Unapproved cred d h = ground arith

  claim_decision-Unapproved :
      (claim : BillingClaim) (d : Decision)
      → claim_decision sha256_hex input claim ≡ some d
      → Unapproved d
  unfolding claim_decision
  claim_decision-Unapproved claim d h = ground arith

-- Whatever the seats, credentials and claims, every decision that is built is proposed or blocked
-- and names nobody who approved or rejected it.
pub build_decisions-Unapproved :
    (sha256_hex : String → String) (input : DecisionInput)
    → All Unapproved (build_decisions sha256_hex input)
unfolding build_decisions
build_decisions-Unapproved sha256_hex input =
    let creds = collect (credential_decision sha256_hex input) input.credentials in
    let claims = collect (claim_decision sha256_hex input) input.billing_claims in
    All-append Unapproved (collect (seat_decision sha256_hex input) input.seats) (creds ++ claims)
      (collect-All _ Unapproved input.seats (seat_decision-Unapproved sha256_hex input))
      (All-append Unapproved creds claims
        (collect-All _ Unapproved input.credentials
          (credential_decision-Unapproved sha256_hex input))
        (collect-All _ Unapproved input.billing_claims
          (claim_decision-Unapproved sha256_hex input)))

-- The seat is an orphan that matches the subject, at a provider that can remove members.
abbrev pub removable : DecisionInput → ClassifiedSeat → Bool
removable input seat =
    is_orphan seat.class
    && (matches input.subject seat.email || matches input.subject seat.raw_email)
    && supports_action (slice_at seat.provider input.capabilities) remove_workspace_member

abbrev removals : List Decision → ℕ
removals ds = count_of (λ d. is_removal d.action_class) ds

removals-append : (xs ys : List Decision) → removals (xs ++ ys) ≡ removals xs + removals ys
unfolding keep
removals-append [] ys = omega arith
removals-append (d ∷ xs) ys = ground (arith, removals-append xs ys)

-- How many of the decisions on one item are removals.
abbrev removes : Option Decision → Bool
removes none = false
removes (some d) = is_removal d.action_class

removals-collect {ℓ} :
    {A : Type ℓ} (f : A → Option Decision) (p : A → Bool) (xs : List A)
    → ((x : A) → removes (f x) ≡ p x)
    → removals (collect f xs) ≡ count_of p xs
unfolding collect keep
removals-collect f p [] h = refl
removals-collect f p (x ∷ xs) h = ground (arith, h x, removals-collect f p xs h)

count-false {ℓ} : {A : Type ℓ} (xs : List A) → count_of (λ x. false) xs ≡ 0
unfolding keep
count-false [] = refl
count-false (x ∷ xs) = count-false xs

with_reach-action :
    (cred : ClassifiedCredential) (d : Decision) → (with_reach cred d).action_class ≡ d.action_class
unfolding with_reach
with_reach-action cred d = ground arith

module _ (sha256_hex : String → String) (input : DecisionInput) where
  seat_removes :
      (seat : ClassifiedSeat) → removes (seat_decision sha256_hex input seat) ≡ removable input seat
  unfolding seat_decision same_action
  seat_removes seat = ground arith

  owned_removes :
      (cred : ClassifiedCredential) (c : CredentialClass)
      → removes (owned_decision sha256_hex input cred c) ≡ false
  unfolding owned_decision same_action
  owned_removes cred orphaned =
      ap is_removal (with_reach-action cred (attestation sha256_hex input cred high))
  owned_removes cred dormant =
      ap is_removal (with_reach-action cred (revocation sha256_hex input cred))
  owned_removes cred unowned =
      ap is_removal (with_reach-action cred (attestation sha256_hex input cred medium))
  owned_removes cred c = refl

  credential_removes :
      (cred : ClassifiedCredential) → removes (credential_decision sha256_hex input cred) ≡ false
  unfolding credential_decision same_action
  credential_removes cred = ground (arith, owned_removes cred cred.class)

  release_removes :
      (claim : BillingClaim)
      → is_removal (release_decision sha256_hex input claim).action_class ≡ false
  unfolding release_decision same_action
  release_removes claim = elim (Bool-cases claim.verified) [
    | inl e ↦ rw (e, release_decision) refl
    | inr e ↦ rw (e, release_decision) refl
  ]

  claim_removes : (claim : BillingClaim) → removes (claim_decision sha256_hex input claim) ≡ false
  unfolding claim_decision
  claim_removes claim = ground (arith, release_removes claim)

-- The removals that are proposed are as many as the orphan seats that match the subject at a provider
-- that can remove members: no credential, billing claim or other seat leads to one.
pub count-build_decisions :
    (sha256_hex : String → String) (input : DecisionInput)
    → count_of (λ d. is_removal d.action_class) (build_decisions sha256_hex input)
      ≡ count_of (removable input) input.seats
unfolding build_decisions
count-build_decisions sha256_hex input =
    let creds = collect (credential_decision sha256_hex input) input.credentials in
    let claims = collect (claim_decision sha256_hex input) input.billing_claims in
    let seats = collect (seat_decision sha256_hex input) input.seats in
    omega (
      arith,
      removals-append seats (creds ++ claims),
      removals-append creds claims,
      removals-collect (seat_decision sha256_hex input) (removable input) input.seats
          (seat_removes sha256_hex input),
      removals-collect (credential_decision sha256_hex input) (λ c. false) input.credentials
          (credential_removes sha256_hex input),
      removals-collect (claim_decision sha256_hex input) (λ c. false) input.billing_claims
          (claim_removes sha256_hex input),
      count-false input.credentials,
      count-false input.billing_claims,
    )
