-- ===== src/Tests/People.antt =====
-- Identities, credentials, decisions and certificates.
use unseat.Base.{
  List, ℕ, String, [], ◌∷◌, true, false, ◌&&◌, ◌||◌, none, some, ◌≡◌, ◌↔◌, ◌⊎◌, ◌≢◌, if◌then◌else◌,
  any, keep, All, length, ◌+◌, map, ltb, count_of, ◌==◌,
}
use mathlib.Core.List.{Perm}
use unseat.Base.Sorting.{Ranked}
use unseat.Core.Objects.{workspace_member, remove_workspace_member}
use unseat.Core.Alias.{resolve_alias}
use unseat.Core.Seats.{ClassifiedSeat, orphan}
use unseat.Core.Identity.{
  CanonicalIdentity, ResolveIdentityInput, strong, weak, unknown, matched, ambiguous, unmatched,
  is_strong, is_weak, resolve_canonical_identity,
}
use unseat.Core.Identity.Laws.{resolve_canonical_identity_status}
use unseat.Core.Credentials.{
  ClassifiedCredential, Credential, ClassifyCredentialsInput, api_key, webhook, reach_all,
  classify_credential, classify_credentials,
}
use unseat.Core.Credentials.Laws.{
  classify_credential_lem, classify_credentials_lem, expected_class, shown_at,
}
use unseat.Core.Decisions.{Decision, DecisionInput, proposed, verified, high, build_decisions}
use unseat.Core.Decisions.Laws.{
  build_decisions-Unapproved, count-build_decisions, Unapproved, is_removal, removable,
}
use unseat.Core.Certificate.{
  OffboardingCertificate, ProviderOffboardingReport, enforce, complete,
  complete_with_provider_limits, closed, transferred, pending, unsupported,
  refresh_certificate_decision_views, is_stale, has_errors,
}
use unseat.Core.Certificate.Laws.{refresh_views, refresh_complete, refresh_limits, shows, is_open}
use unseat.Tests.Fixtures.{alice, bob, directory, user_at}

abbrev pub same_text : String → String
same_text s = s

abbrev no_date : ℕ → String
no_date t = "2026-01-02"

-- Bob's account at GitHub has a handle that the configuration declares.
abbrev bobs_accounts : ResolveIdentityInput
bobs_accounts = record {
  subject = "Bob@corp.com";
  directory = alice ∷ bob ∷ [];
  aliases = ("bob@corp.com", "bob-dev" ∷ []) ∷ [];
  provider_users = ("github", user_at "bob-dev" "active" ∷ []) ∷ [];
}

resolve_canonical_identity_example :
    ((resolve_canonical_identity bobs_accounts).status ≡ (
      if any is_strong (resolve_canonical_identity bobs_accounts).links
      then matched
      else if any is_weak (resolve_canonical_identity bobs_accounts).links
      then ambiguous
      else unmatched))
    × ((resolve_canonical_identity bobs_accounts).confidence ≡ (
        if any is_strong (resolve_canonical_identity bobs_accounts).links
        then strong
        else if any is_weak (resolve_canonical_identity bobs_accounts).links
        then weak
        else unknown))
    × (any (λ link. true) (resolve_canonical_identity bobs_accounts).links ≡ (
        any is_strong (resolve_canonical_identity bobs_accounts).links
        || any is_weak (resolve_canonical_identity bobs_accounts).links))
resolve_canonical_identity_example = resolve_canonical_identity_status bobs_accounts

abbrev bobs_key : Credential
bobs_key = record {
  provider = "github";
  kind = api_key;
  id = "k1";
  label = "deploy";
  created_at = none;
  created_by = "bob@corp.com";
  last_used_at = some 7;
  scopes = "repo" ∷ [];
  privileged_scopes = "admin" ∷ [];
  reach = "all";
  disabled = false;
  disabled_at = none;
  metadata = [];
}

abbrev alices_hook : Credential
alices_hook = record bobs_key {
  kind = webhook;
  id = "h1";
  created_by = "alice@corp.com";
  privileged_scopes = [];
  reach = "";
}

abbrev inventory : ClassifyCredentialsInput
inventory = record {
  credentials = alices_hook ∷ bobs_key ∷ [];
  directory = some directory;
  domain = "corp.com";
  alias_index = none;
}

classify_credential_example :
    ((classify_credential no_date inventory bobs_key).class
      ≡ expected_class inventory bobs_key (resolve_alias none "bob@corp.com"))
    × ((classify_credential no_date inventory bobs_key).overreaching
        ≡ ("all" == reach_all && ltb 0 (length bobs_key.privileged_scopes)))
    × ((classify_credential no_date inventory bobs_key).credential ≡ bobs_key)
classify_credential_example = classify_credential_lem no_date inventory bobs_key

classify_credentials_example :
    Perm
      (classify_credentials no_date inventory)
      (map (classify_credential no_date inventory) inventory.credentials)
    × Ranked (λ cc. shown_at cc.class) (classify_credentials no_date inventory)
classify_credentials_example = classify_credentials_lem no_date inventory

abbrev reported : List ClassifiedCredential
reported = classify_credentials no_date inventory

abbrev bob_identity : CanonicalIdentity
bob_identity = record {
  primary_email = "bob@corp.com";
  directory_status = "absent";
  employment_source = "";
  aliases = [];
  confidence = strong;
  status = matched;
  links = [];
}

abbrev bobs_seat : ClassifiedSeat
bobs_seat = record {
  provider = "figma";
  email = "bob@corp.com";
  raw_email = "bob@corp.com";
  user = bob;
  class = orphan;
  reason = "absent from the directory";
  protected = true;
}

abbrev bobs_offboarding : DecisionInput
bobs_offboarding = record {
  subject = bob_identity;
  seats = bobs_seat ∷ [];
  credentials = [];
  billing_claims = [];
  capabilities = [];
}

build_decisions_example : All Unapproved (build_decisions same_text bobs_offboarding)
build_decisions_example = build_decisions-Unapproved same_text bobs_offboarding

count-build_decisions_example :
    count_of (λ d. is_removal d.action_class) (build_decisions same_text bobs_offboarding)
    ≡ count_of (removable bobs_offboarding) (bobs_seat ∷ [])
count-build_decisions_example = count-build_decisions same_text bobs_offboarding

abbrev pub removal : Decision
removal = record {
  id = "d1";
  tenant_id = "";
  subject = "bob@corp.com";
  object_kind = workspace_member;
  object_id = "bob@corp.com";
  provider = "figma";
  action_class = remove_workspace_member;
  recommended_action = "";
  status = proposed;
  risk = high;
  reason = "left";
  policy_version = "";
  idempotency_key = "";
  required_evidence = [];
  blocked_by = [];
  approved_by = "";
  rejected_by = "";
  rejected_reason = "";
  expires_at = none;
  metadata = [];
}

abbrev done_removal : Decision
done_removal = record removal { id = "d2"; status = verified }

abbrev certificate : OffboardingCertificate
certificate = record {
  id = "c1";
  tenant_id = "";
  subject = bob_identity;
  trigger = "manual";
  mode = enforce;
  status = none;
  started_at = 1;
  completed_at = 2;
  providers = [];
  decisions = done_removal ∷ removal ∷ [];
  evidence = [];
  closed_access = [];
  transferred_responsibility = [];
  pending_reviews = done_removal ∷ [];
  unsupported_actions = [];
  unknowns = [];
}

refresh_views_example :
    ((refresh_certificate_decision_views certificate).closed_access
      ≡ keep (shows closed) certificate.decisions)
    × ((refresh_certificate_decision_views certificate).transferred_responsibility
        ≡ keep (shows transferred) certificate.decisions)
    × ((refresh_certificate_decision_views certificate).pending_reviews
        ≡ keep (shows pending) certificate.decisions)
    × ((refresh_certificate_decision_views certificate).unsupported_actions
        ≡ keep (shows unsupported) certificate.decisions)
    × (length (refresh_certificate_decision_views certificate).closed_access
          + length (refresh_certificate_decision_views certificate).transferred_responsibility
          + length (refresh_certificate_decision_views certificate).pending_reviews
          + length (refresh_certificate_decision_views certificate).unsupported_actions
        ≡ 2)
refresh_views_example = refresh_views certificate

refresh_complete_example :
    ((refresh_certificate_decision_views certificate).status ≡ some complete) ↔ (
      (is_stale none ≡ false)
      × (certificate.unknowns ≡ [])
      × (any has_errors [] ≡ false)
      × (any is_open certificate.decisions ≡ false))
refresh_complete_example = refresh_complete certificate

abbrev unread : OffboardingCertificate
unread = record certificate { decisions = []; unknowns = "figma could not be read" ∷ [] }

abbrev failing : ProviderOffboardingReport
failing = record {
  provider = "figma";
  users_read = 0;
  seats = [];
  credentials = [];
  non_human_identities = [];
  billing_claims = [];
  capabilities = [];
  unknowns = [];
  errors = "401" ∷ [];
}

refresh_limits_example :
    ((refresh_certificate_decision_views (record unread { providers = failing ∷ [] })).status
      ≡ some complete_with_provider_limits)
    ↔ ((is_stale none ≡ false)
        × (unread.unknowns ≢ [])
        × ((unread.decisions ≡ [])
            ⊎ ((any has_errors (failing ∷ []) ≡ false) × (any is_open unread.decisions ≡ false))))
refresh_limits_example = refresh_limits (record unread { providers = failing ∷ [] })
