-- ===== src/Core/Certificate.antt =====
-- internal/core/certificate.go: the offboarding certificate, its views of the decisions, its status.
pub mod Laws
use unseat.Base.{
  ℕ, String, List, [], ◌∷◌, ◌++◌, Bool, true, false, ◌&&◌, ◌||◌, Option, none, some, if◌then◌else◌,
  ltb, length, any, not,
}
use unseat.Core.Objects.{
  ActionClass, ActionCapability, transfer_ownership, request_owner_attestation, mark_unsupported,
  same_action,
}
use unseat.Core.Seats.{ClassifiedSeat}
use unseat.Core.Identity.{CanonicalIdentity}
use unseat.Core.Credentials.{ClassifiedCredential, NonHumanIdentity}
use unseat.Core.Billing.{BillingClaim}
use unseat.Core.Evidence.{EvidenceItem}
use unseat.Core.Decisions.{
  Decision, DecisionStatus, proposed, approved, rejected, executed, verified, blocked, stale,
  verification_failed,
}

pub data CertificateStatus : Type 0 where
  complete complete_with_provider_limits cert_blocked incomplete cert_stale : CertificateStatus

pub data CertificateMode : Type 0 where
  observe approve enforce : CertificateMode

pub record ProviderOffboardingReport : Type 0 where
  pub provider : String
  pub users_read : ℕ
  pub seats : List ClassifiedSeat
  pub credentials : List ClassifiedCredential
  pub non_human_identities : List NonHumanIdentity
  pub billing_claims : List BillingClaim
  pub capabilities : List ActionCapability
  pub unknowns : List String
  pub errors : List String

-- `status` is absent until it is first computed.
pub record OffboardingCertificate : Type 0 where
  pub id : String
  pub tenant_id : String
  pub subject : CanonicalIdentity
  pub trigger : String
  pub mode : CertificateMode
  pub status : Option CertificateStatus
  pub started_at : ℕ
  pub completed_at : ℕ
  pub providers : List ProviderOffboardingReport
  pub decisions : List Decision
  pub evidence : List EvidenceItem
  pub closed_access : List Decision
  pub transferred_responsibility : List Decision
  pub pending_reviews : List Decision
  pub unsupported_actions : List Decision
  pub unknowns : List String

abbrev is_empty {ℓ} : {A : Type ℓ} → List A → Bool
is_empty [] = true
is_empty (x ∷ xs) = false

-- The two loops of `ComputeCertificateStatus`: the first decision that decides, and what then.
unfoldable pub decisions_status : CertificateStatus → List Decision → CertificateStatus
decisions_status otherwise [] = otherwise
decisions_status otherwise (d ∷ ds) =
    let rest = decisions_status otherwise ds in
    elim d.status [
      | blocked ↦ cert_blocked
      | proposed ↦ incomplete
      | approved ↦ incomplete
      | verification_failed ↦ incomplete
      | _ ↦ rest
    ]

abbrev pub has_errors : ProviderOffboardingReport → Bool
has_errors p = not (is_empty p.errors)

abbrev pub is_stale : Option CertificateStatus → Bool
is_stale none = false
is_stale (some s) = elim s [ cert_stale ↦ true | _ ↦ false ]

-- `ComputeCertificateStatus`
unfoldable pub compute_certificate_status : OffboardingCertificate → CertificateStatus
unfolding any
compute_certificate_status c =
    let after_decisions = if is_empty c.unknowns then complete else complete_with_provider_limits in
    if is_stale c.status
    then cert_stale
    else if not (is_empty c.unknowns) && is_empty c.decisions
    then complete_with_provider_limits
    else if any has_errors c.providers
    then cert_blocked
    else decisions_status after_decisions c.decisions

abbrev is_transfer : ActionClass → Bool
is_transfer a = same_action a transfer_ownership || same_action a request_owner_attestation

pub data DecisionView : Type 0 where
  closed transferred pending unsupported : DecisionView

-- The `switch` over one decision: the list that it is appended to.
unfoldable pub view_of : Decision → DecisionView
view_of d = elim d.status [
  | verified ↦ if is_transfer d.action_class then transferred else closed
  | blocked ↦ unsupported
  | _ ↦ if same_action d.action_class mark_unsupported then unsupported else pending
]

unfoldable pub file_decision : OffboardingCertificate → Decision → OffboardingCertificate
unfolding view_of
file_decision c d = elim (view_of d) [
  | closed ↦ record c { closed_access = c.closed_access ++ (d ∷ []) }
  | transferred ↦ record c { transferred_responsibility = c.transferred_responsibility ++ (d ∷ []) }
  | pending ↦ record c { pending_reviews = c.pending_reviews ++ (d ∷ []) }
  | unsupported ↦ record c { unsupported_actions = c.unsupported_actions ++ (d ∷ []) }
]

unfoldable pub file_decisions : OffboardingCertificate → List Decision → OffboardingCertificate
file_decisions c [] = c
file_decisions c (d ∷ ds) = file_decisions (file_decision c d) ds

unfoldable pub cleared : OffboardingCertificate → OffboardingCertificate
cleared c = record c {
  closed_access = [];
  transferred_responsibility = [];
  pending_reviews = [];
  unsupported_actions = [];
}

-- `RefreshCertificateDecisionViews`
unfoldable pub refresh_certificate_decision_views : OffboardingCertificate → OffboardingCertificate
refresh_certificate_decision_views c =
    let c' = file_decisions (cleared c) c.decisions in
    record c' { status = some (compute_certificate_status c') }
