-- ===== src/Tests/Leaving.antt =====
-- The certificate of a person's offboarding, at one provider that answers everything.
use unseat.Base.{
  ℕ, String, List, [], ◌∷◌, Bool, true, false, Option, none, some, ◌≡◌, ◌↔◌, refl, any, All, Result,
  ok, to_lower, trim_space,
}
use unseat.Base.Dict.{Dict, lookup}
use unseat.Core.Billing.{BillingSnapshot, BillingSource, BillingConfidence}
use unseat.Core.Certificate.{
  OffboardingCertificate, CertificateStatus, complete, incomplete, has_errors,
  refresh_certificate_decision_views,
}
use unseat.Config.{Config, Policies, ProviderConfig}
use unseat.Offboarding.Inventory.{Connector, CredentialSource, selected_providers}
use unseat.Offboarding.Report.{Outside}
use unseat.Offboarding.Observe.{
  IdentityProvider, Input, run_observe, is_unmatched, collected, sort_certificate,
}
use unseat.Offboarding.Laws.{read_fully}
use unseat.Offboarding.Complete.{run_observe-read}
use unseat.Tests.Fixtures.{alice, bob, dave, capabilities}

abbrev outside : Outside
outside = record {
  sha256_hex = λ s. s;
  format_date = λ t. "";
  format_time = λ t. "";
  hash_users = λ us. "users";
  hash_actions = λ xs. "actions";
  hash_credentials = λ cs. "credentials";
  hash_billing = λ b. "billing";
}

abbrev subscription : BillingSnapshot
subscription = record {
  provider = "figma";
  account_id = "";
  fetched_at = some 1;
  plan = "team";
  billed_seats = some 10;
  filled_seats = none;
  monthly_amount_minor = some 12000;
  cost_per_seat_minor = none;
  currency = "USD";
  line_items = [];
  source = BillingSource.api_subscription;
  confidence = BillingConfidence.exact;
  unavailable_reason = "";
  period_start = none;
  period_end = none;
  next_billing_at = none;
}

abbrev figma : Connector
figma = record {
  capabilities = capabilities;
  list_users = (alice ∷ dave ∷ [], none);
  credentials = CredentialSource.listed [] none;
  billing = some (some subscription, none);
}

abbrev connectors : Dict Connector
connectors = ("figma", figma) ∷ []

abbrev google : IdentityProvider
google = record {
  name = "google";
  list_users = (alice ∷ bob ∷ dave ∷ [], none);
  list_group_members = λ n group. (alice ∷ [], none);
}

abbrev settings : Config
settings = record {
  identity_domain = "corp.com";
  providers = ("figma", record { api_key = "k"; base_url = ""; extra_args = [] }) ∷ [];
  mappings = [];
  policies = record {
    grace_period = 3;
    dry_run = false;
    notify_on_remove = false;
    exceptions = [];
  };
  aliases = [];
  domain = "";
}

abbrev leaver : Input
leaver = record {
  config = some settings;
  registry = some connectors;
  identity = some google;
  subject = " Dave@corp.com ";
  providers = [];
  tenant_id = "t1";
  actor = "";
  now = some 5;
  clock = 9;
}

abbrev leaver_certificate : OffboardingCertificate
leaver_certificate =
    refresh_certificate_decision_views
      (sort_certificate (collected outside leaver settings connectors google "dave@corp.com"))

leaver_run : run_observe outside leaver ≡ ok leaver_certificate
unfolding run_observe to_lower trim_space
leaver_run = refl

nothing_amiss :
    (leaver_certificate.unknowns ≡ [])
    × (any has_errors leaver_certificate.providers ≡ false)
    × (leaver_certificate.status ≡ some incomplete)
unfolding unseat.Offboarding.Inventory.collect_provider
    unseat.Offboarding.Inventory.selected_providers unseat.Offboarding.Desired.directory_index
    unseat.Offboarding.Desired.desired_by_provider
    unseat.Offboarding.Desired.exceptions_for_provider
    unseat.Offboarding.Report.filter_subject_seats unseat.Offboarding.Report.provider_credentials
    unseat.Offboarding.Report.provider_billing unseat.Offboarding.Parts.provider_unknowns
    unseat.Offboarding.Parts.claim_unknowns unseat.Offboarding.Parts.read_part
    unseat.Offboarding.Parts.part_of unseat.Offboarding.Observe.users_by_provider
    unseat.Offboarding.Observe.sort_certificate unseat.Offboarding.Observe.is_unmatched
    unseat.Offboarding.Observe.run_observe unseat.Core.Identity.link_type_name
    unseat.Core.Identity.confidence_name unseat.Core.Identity.matches
    unseat.Core.Identity.ambiguous_match unseat.Core.Identity.explicit_alias_index
    unseat.Core.Identity.local_part unseat.Core.Identity.resolve_provider_user_link
    unseat.Core.Identity.primary_of unseat.Core.Identity.collected_links
    unseat.Core.Identity.resolve_canonical_identity unseat.Core.Alias.squash_separators
    unseat.Core.Alias.add unseat.Core.Alias.add_emails unseat.Core.Alias.drop_keys
    unseat.Core.Alias.implicit_index unseat.Core.Alias.add_explicit
    unseat.Core.Alias.build_alias_index unseat.Core.Alias.resolve_alias
    unseat.Core.Seats.reclaimable unseat.Core.Seats.normal_domain unseat.Core.Seats.verdict
    unseat.Core.Seats.classify_seat unseat.Core.Seats.classify_seats unseat.Core.Billing.has_money
    unseat.Core.Billing.claim_type_name unseat.Core.Billing.build_billing_claims
    unseat.Core.Decisions.seat_decision unseat.Core.Decisions.claim_decision
    unseat.Core.Decisions.build_decisions unseat.Core.Credentials.classify_credentials
    unseat.Core.Matrix.legacy_action_capabilities unseat.Core.Matrix.action_matrix
    unseat.Core.Objects.object_kind_name unseat.Core.Objects.same_action
    unseat.Core.Objects.supports_action unseat.Core.Certificate.decisions_status
    unseat.Core.Certificate.compute_certificate_status unseat.Core.Certificate.file_decision
    unseat.Core.Certificate.file_decisions unseat.Core.Certificate.cleared
    unseat.Core.Certificate.refresh_certificate_decision_views unseat.Config.corporate_domain
    unseat.Base.to_lower unseat.Base.trim_space unseat.Base.has_at unseat.Base.has_suffix
    unseat.Base.trim_at unseat.Base.before_at unseat.Base.join unseat.Base.keep unseat.Base.flat_map
    unseat.Base.Dict.insert unseat.Base.Dict.has_key unseat.Base.Sorting.sort_strings
nothing_amiss = (refl, refl, refl)

run_observe-read_example :
    All
      (λ name. (p : Connector) × (lookup name connectors ≡ some p) × (read_fully p ≡ true))
      (selected_providers settings leaver.providers)
    × (is_unmatched leaver_certificate.subject.status ≡ false)
    × ((leaver_certificate.status ≡ some complete)
        ↔ (selected_providers settings leaver.providers ≡ []))
run_observe-read_example =
    run_observe-read outside leaver settings connectors google leaver_certificate refl refl refl
      leaver_run nothing_amiss.0 nothing_amiss.1
