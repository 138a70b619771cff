-- ===== src/Offboarding/Parts.antt =====
-- The second loop of `RunObserve` of internal/offboarding/offboarding.go: what one provider adds to
-- the certificate.
use unseat.Base.{
  String, ◌<>◌, List, [], ◌∷◌, ◌++◌, Bool, true, false, not, ◌&&◌, none, some, ◌==◌, if◌then◌else◌,
  map, keep, count_of, length, is_some,
}
use unseat.Base.Dict.{lookup}
use unseat.Core.Objects.{workspace_member, unknown_provider_limit, credential, billing_seat}
use unseat.Core.Seats.{ClassifiedSeat, reclaimable, classify_seats}
use unseat.Core.Credentials.{credential_to_nhi}
use unseat.Core.Billing.{
  BillingClaim, BillingClaimType, build_billing_claims, money_unknown, procurement_required,
}
use unseat.Core.Evidence.{EvidenceItem}
use unseat.Core.Decisions.{Decision, build_decisions}
use unseat.Core.Certificate.{ProviderOffboardingReport}
use unseat.Config.{Exception}
use unseat.Offboarding.Inventory.{ProviderInventory}
use unseat.Offboarding.Desired.{Wanted, or_empty, exceptions_for_provider}
use unseat.Offboarding.Report.{
  Outside, RunContext, filter_subject_seats, provider_credentials, provider_billing,
}
use unseat.Offboarding.Proof.{
  evidence, capability_limits, credential_evidence_limits, billing_evidence_limits,
}

-- What one provider adds to the certificate.
pub record Part : Type 0 where
  pub report : ProviderOffboardingReport
  pub evidence : List EvidenceItem
  pub decisions : List Decision
  pub unknowns : List String

abbrev pub blank_report : ProviderInventory → ProviderOffboardingReport
blank_report inv = record {
  provider = inv.name;
  users_read = 0;
  seats = [];
  credentials = [];
  non_human_identities = [];
  billing_claims = [];
  capabilities = inv.actions;
  unknowns = [];
  errors = [];
}

abbrev pub only : ProviderOffboardingReport → Part
only report = record { report = report; evidence = []; decisions = []; unknowns = [] }

-- `providerUnknowns`
unfoldable pub provider_unknowns : String → List String → List String
provider_unknowns name unknowns =
    map (λ u. name <> (": " <> u)) (keep (λ u. not (u == "")) unknowns)

abbrev pub leaves_unknown : BillingClaimType → Bool
leaves_unknown money_unknown = true
leaves_unknown procurement_required = true
leaves_unknown _ = false

-- The reasons of the claims that leave something unknown.
unfoldable pub claim_unknowns : List BillingClaim → List String
claim_unknowns claims = map (λ c. c.reason) (keep (λ c. leaves_unknown c.type) claims)

module _ (out : Outside) (run : RunContext) (exceptions : List Exception) (wanted : Wanted) where
  subject_seats : ProviderInventory → List ClassifiedSeat
  subject_seats inv = filter_subject_seats run.subject (
      classify_seats (record {
        provider_name = inv.name;
        actual_users = inv.users;
        directory = some run.directory;
        desired_emails = or_empty (lookup inv.name wanted.desired);
        domain = run.domain;
        alias_index = some run.alias_index;
        exceptions = exceptions_for_provider exceptions inv.name;
      }))

  subject_claims : ProviderInventory → List BillingClaim
  unfolding subject_seats
  subject_claims inv = build_billing_claims out.sha256_hex (record {
    provider = inv.name;
    subject = run.subject.primary_email;
    billing = (provider_billing out run inv).0;
    reclaimable_seat_count = count_of reclaimable (subject_seats inv);
  })

  read_evidence : ProviderInventory → List EvidenceItem
  read_evidence inv =
      (evidence out run inv.name "ListUsers" workspace_member "users" (out.hash_users inv.users) []
        ∷ evidence out run inv.name "Capabilities" unknown_provider_limit "capabilities"
            (out.hash_actions inv.actions) (capability_limits inv.actions)
        ∷ [])
      ++ ((if inv.credentials_supported && not (is_some inv.credentials_err)
            then evidence out run inv.name "ListCredentials" credential "credentials"
                (out.hash_credentials inv.credentials) (credential_evidence_limits inv.capabilities)
              ∷ []
            else [])
          ++ (elim (provider_billing out run inv).0 [
            | none ↦ []
            | some b ↦
                evidence out run inv.name "Billing" billing_seat "billing" (out.hash_billing b)
                  (billing_evidence_limits b)
                ∷ []
          ]))

  subject_decisions : ProviderInventory → List Decision
  unfolding subject_seats subject_claims
  subject_decisions inv = build_decisions out.sha256_hex (record {
    subject = run.subject;
    seats = subject_seats inv;
    credentials = (provider_credentials out run inv).0;
    billing_claims = subject_claims inv;
    capabilities = (inv.name, inv.actions) ∷ [];
  })

  -- Everything that a provider leaves unknown.
  unfoldable pub report_unknowns : ProviderInventory → List String
  unfolding subject_claims
  report_unknowns inv =
      or_empty (lookup inv.name wanted.errs)
      ++ ((provider_credentials out run inv).1
          ++ ((provider_billing out run inv).1 ++ claim_unknowns (subject_claims inv)))

  -- The part of a provider whose users were read.
  unfoldable pub read_part : ProviderInventory → Part
  unfolding subject_seats subject_claims read_evidence subject_decisions report_unknowns
  read_part inv =
      let creds = (provider_credentials out run inv).0 in
      record {
        report = record (blank_report inv) {
          users_read = length inv.users;
          seats = subject_seats inv;
          credentials = creds;
          non_human_identities = map credential_to_nhi creds;
          billing_claims = subject_claims inv;
          unknowns = report_unknowns inv;
        };
        evidence = read_evidence inv;
        decisions = subject_decisions inv;
        unknowns = provider_unknowns inv.name (report_unknowns inv);
      }

  -- The body of the second loop of `RunObserve`.
  unfoldable pub part_of : ProviderInventory → Part
  part_of inv = elim inv.provider_err [
    | some why ↦ only (record (blank_report inv) { errors = why ∷ [] })
    | none ↦ elim inv.user_err [
      | some why ↦ only (record (blank_report inv) {
        unknowns = or_empty (lookup inv.name wanted.errs);
        errors = ("users: " <> why) ∷ [];
      })
      | none ↦ read_part inv
    ]
  ]
