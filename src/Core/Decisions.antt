-- ===== src/Core/Decisions.antt =====
-- internal/core/decision.go: the actions proposed about one subject. A nil metadata map is an empty
-- one. SHA-256 in hexadecimal is a function given from outside.
pub mod Laws
use Prim.Native.String.{slice}
use unseat.Base.{
  ℕ, String, ◌<>◌, List, [], ◌∷◌, ◌++◌, Bool, true, false, not, ◌&&◌, ◌||◌, Option, none, some,
  ◌==◌, if◌then◌else◌, join,
}
use unseat.Base.Dict.{Dict, lookup, insert}
use unseat.Core.Objects.{
  ObjectKind, workspace_member, credential, billing_seat, object_kind_name, ActionClass,
  remove_workspace_member, release_paid_seat, request_owner_attestation, create_manual_task,
  revoke_credential, mark_unsupported, action_class_name, ActionCapability, supports_action,
}
use unseat.Core.Seats.{SeatClass, managed, unmapped, orphan, external, unresolved, ClassifiedSeat}
use unseat.Core.Identity.{CanonicalIdentity, matches, ambiguous_match}
use unseat.Core.Credentials.{
  CredentialClass, orphaned, dormant, unowned, live, ClassifiedCredential, credential_kind_name,
}
use unseat.Core.Billing.{
  BillingClaim, BillingClaimType, saving_verified, saving_estimated_by_provider,
  seat_reclaim_verified, renewal_opportunity, money_unknown, procurement_required,
}

pub data DecisionStatus : Type 0 where
  proposed approved rejected executed verified blocked stale verification_failed : DecisionStatus

unfoldable pub status_name : DecisionStatus → String
status_name proposed = "proposed"
status_name approved = "approved"
status_name rejected = "rejected"
status_name executed = "executed"
status_name verified = "verified"
status_name blocked = "blocked"
status_name stale = "stale"
status_name verification_failed = "verification_failed"

pub data DecisionRisk : Type 0 where
  low medium high critical : DecisionRisk

pub record Decision : Type 0 where
  pub id : String
  pub tenant_id : String
  pub subject : String
  pub object_kind : ObjectKind
  pub object_id : String
  pub provider : String
  pub action_class : ActionClass
  pub recommended_action : String
  pub status : DecisionStatus
  pub risk : DecisionRisk
  pub reason : String
  pub policy_version : String
  pub idempotency_key : String
  pub required_evidence : List String
  pub blocked_by : List String
  pub approved_by : String
  pub rejected_by : String
  pub rejected_reason : String
  pub expires_at : Option ℕ
  pub metadata : Dict String

pub record DecisionInput : Type 0 where
  pub subject : CanonicalIdentity
  pub seats : List ClassifiedSeat
  pub credentials : List ClassifiedCredential
  pub billing_claims : List BillingClaim
  pub capabilities : Dict (List ActionCapability)

-- A read of a map of slices: a missing key reads as an empty slice.
abbrev pub slice_at {ℓ} : {A : Type ℓ} → String → Dict (List A) → List A
slice_at k m = elim (lookup k m) [ none ↦ [] | some l ↦ l ]

abbrev pub human_review : List String
human_review = "human_review_required" ∷ []

-- The metadata of a request for attestation.
attestation_metadata : ClassifiedCredential → Dict String
attestation_metadata cred =
    let scope : Dict String = elim cred.class [
      | unowned ↦ insert "attestation_scope" "provider_unowned" []
      | _ ↦ []
    ] in
    let labelled : Dict String =
      if cred.credential.label == ""
      then scope
      else insert "credential_label" cred.credential.label scope in
    let kind = credential_kind_name cred.credential.kind in
    if kind == "" then labelled else insert "credential_kind" kind labelled

-- The last step of the loop: reach raises the risk, whatever the class.
unfoldable pub with_reach : ClassifiedCredential → Decision → Decision
with_reach cred d =
    if cred.overreaching
    then record d { risk = critical; metadata = insert "reach_reason" cred.reach_reason d.metadata }
    else d

abbrev pub is_unowned : CredentialClass → Bool
is_unowned unowned = true
is_unowned _ = false

module _ (sha256_hex : String → String) where
  decision_id : String → String → ObjectKind → String → ActionClass → String
  decision_id subject provider kind object action =
      "dec_"
      <> slice
          (sha256_hex (
            join ":" (
              subject ∷ provider ∷ object_kind_name kind ∷ object ∷ action_class_name action ∷ [])))
          0 16

  -- `NewDecision`
  unfoldable pub new_decision :
      String → String → ObjectKind → String → ActionClass → DecisionRisk → String → Decision
  unfolding decision_id
  new_decision subject provider kind object action risk reason = record {
    id = decision_id subject provider kind object action;
    tenant_id = "";
    subject = subject;
    object_kind = kind;
    object_id = object;
    provider = provider;
    action_class = action;
    recommended_action = action_class_name action;
    status = proposed;
    risk = risk;
    reason = reason;
    policy_version = "offboarding-policy/v1";
    idempotency_key = decision_id subject provider kind object action;
    required_evidence = [];
    blocked_by = [];
    approved_by = "";
    rejected_by = "";
    rejected_reason = "";
    expires_at = none;
    metadata = [];
  }

  -- The `switch` over the class of a seat that matches the subject.
  unfoldable pub class_decision :
      DecisionInput → ClassifiedSeat → String → SeatClass → Option Decision
  unfolding new_decision
  class_decision input seat object orphan =
      let d =
        new_decision input.subject.primary_email seat.provider workspace_member object
          remove_workspace_member high seat.reason in
      if supports_action (slice_at seat.provider input.capabilities) remove_workspace_member
      then some d
      else some (record d {
        status = blocked;
        blocked_by = "provider_does_not_support_action_class" ∷ [];
        action_class = mark_unsupported;
        recommended_action = action_class_name mark_unsupported;
      })
  class_decision input seat object managed = none
  class_decision input seat object class =
      let d =
        new_decision input.subject.primary_email seat.provider workspace_member object
          create_manual_task medium seat.reason in
      some (record d { blocked_by = human_review })

  -- The body of the loop over the seats: a decision, or none.
  unfoldable pub seat_decision : DecisionInput → ClassifiedSeat → Option Decision
  unfolding new_decision class_decision
  seat_decision input seat =
      let matched = matches input.subject seat.email || matches input.subject seat.raw_email in
      let ambiguous =
        ambiguous_match input.subject seat.email || ambiguous_match input.subject seat.raw_email in
      let object = if seat.raw_email == "" then seat.email else seat.raw_email in
      let review =
        new_decision input.subject.primary_email seat.provider workspace_member object
          create_manual_task medium ("ambiguous identity match: " <> seat.reason) in
      if not matched && not ambiguous
      then none
      else if ambiguous && not matched
      then some (record review { blocked_by = human_review })
      else class_decision input seat object seat.class

  -- A request for attestation of a credential's owner.
  unfoldable pub attestation : DecisionInput → ClassifiedCredential → DecisionRisk → Decision
  unfolding new_decision attestation_metadata
  attestation input cred risk =
      let d =
        new_decision input.subject.primary_email cred.credential.provider credential
          cred.credential.id request_owner_attestation risk cred.reason in
      record d {
        required_evidence = "owner_attestation" ∷ [];
        metadata = attestation_metadata cred;
      }

  -- A revocation, which unseat does not automate.
  unfoldable pub revocation : DecisionInput → ClassifiedCredential → Decision
  unfolding new_decision
  revocation input cred =
      let d =
        new_decision input.subject.primary_email cred.credential.provider credential
          cred.credential.id revoke_credential low cred.reason in
      record d { blocked_by = "credential_revocation_not_automated" ∷ []; status = blocked }

  -- The `switch` over the class of a credential that concerns the subject.
  unfoldable pub owned_decision :
      DecisionInput → ClassifiedCredential → CredentialClass → Option Decision
  unfolding with_reach attestation revocation
  owned_decision input cred orphaned = some (with_reach cred (attestation input cred high))
  owned_decision input cred dormant = some (with_reach cred (revocation input cred))
  owned_decision input cred unowned = some (with_reach cred (attestation input cred medium))
  owned_decision input cred class = none

  -- The body of the loop over the credentials.
  unfoldable pub credential_decision : DecisionInput → ClassifiedCredential → Option Decision
  unfolding new_decision owned_decision
  credential_decision input cred =
      let owner = cred.credential.created_by in
      let review =
        new_decision input.subject.primary_email cred.credential.provider credential
          cred.credential.id create_manual_task medium
          ("ambiguous credential owner: " <> cred.reason) in
      if not (owner == "") && not (matches input.subject owner)
      then (if ambiguous_match input.subject owner
          then some (record review { blocked_by = human_review })
          else none)
      else if owner == "" && not (is_unowned cred.class)
      then none
      else owned_decision input cred cred.class

  -- The body of the loop over the billing claims.
  unfoldable pub release_decision : DecisionInput → BillingClaim → Decision
  unfolding new_decision
  release_decision input claim =
      let d =
        new_decision input.subject.primary_email claim.provider billing_seat claim.id
          release_paid_seat medium claim.reason in
      if claim.verified then d else record d { blocked_by = "billing_claim_not_verified" ∷ [] }

  unfoldable pub claim_decision : DecisionInput → BillingClaim → Option Decision
  unfolding release_decision
  claim_decision input claim = elim claim.type [
    | money_unknown ↦ none
    | procurement_required ↦ none
    | _ ↦ some (release_decision input claim)
  ]

-- A loop that appends what its body returns.
unfoldable pub collect {ℓ κ} : {A : Type ℓ} {B : Type κ} → (A → Option B) → List A → List B
collect f [] = []
collect f (x ∷ xs) = let rest = collect f xs in elim (f x) [ none ↦ rest | some y ↦ y ∷ rest ]

-- `BuildDecisions`
unfoldable pub build_decisions : (String → String) → DecisionInput → List Decision
unfolding collect
build_decisions sha256_hex input =
    collect (seat_decision sha256_hex input) input.seats
    ++ (collect (credential_decision sha256_hex input) input.credentials
        ++ collect (claim_decision sha256_hex input) input.billing_claims)
