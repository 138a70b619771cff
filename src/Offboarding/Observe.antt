-- ===== src/Offboarding/Observe.antt =====
-- `RunObserve` of internal/offboarding/offboarding.go: the certificate, without a change at a provider.
use Prim.Native.String.{slice}
use unseat.Base.{
  ℕ, String, ◌<>◌, List, [], ◌∷◌, ◌++◌, Bool, true, false, not, Option, none, some, ◌==◌,
  if◌then◌else◌, to_lower, normal, map, flat_map, Result, ok, err,
}
use unseat.Base.Dict.{Dict, insert}
use unseat.Base.Sorting.{str_lt, sort_by, sort_strings}
use unseat.Core.Objects.{user}
use unseat.Core.Types.{User}
use unseat.Core.Alias.{build_alias_index}
use unseat.Core.Identity.{ResolutionStatus, unmatched, resolve_canonical_identity}
use unseat.Core.Evidence.{EvidenceItem}
use unseat.Core.Decisions.{Decision}
use unseat.Core.Certificate.{
  OffboardingCertificate, ProviderOffboardingReport, observe, refresh_certificate_decision_views,
}
use unseat.Config.{Config, corporate_domain}
use unseat.Offboarding.Inventory.{
  Connector, ProviderInventory, collect_provider, selected_providers,
}
use unseat.Offboarding.Desired.{Wanted, directory_index, desired_by_provider}
use unseat.Offboarding.Report.{Outside, RunContext}
use unseat.Offboarding.Proof.{evidence}
use unseat.Offboarding.Parts.{Part, part_of}

pub record IdentityProvider : Type 0 where
  pub name : String
  pub list_users : List User × Option String
  pub list_group_members : ℕ → String → List User × Option String

-- `Input`. `none` stands for nil, and for the zero time, in place of which `clock` is read.
pub record Input : Type 0 where
  pub config : Option Config
  pub registry : Option (Dict Connector)
  pub identity : Option IdentityProvider
  pub subject : String
  pub providers : List String
  pub tenant_id : String
  pub actor : String
  pub now : Option ℕ
  pub clock : ℕ

-- `certificateID`
unfoldable pub certificate_id : Outside → String → ℕ → String
certificate_id out subject started_at =
    "cert_" <> slice (out.sha256_hex (to_lower subject <> (":" <> out.format_time started_at))) 0 16

-- The users by provider; a provider that is not registered counts as one without users.
unfoldable pub users_by_provider : List ProviderInventory → Dict (List User) → Dict (List User)
users_by_provider [] m = m
users_by_provider (inv ∷ invs) m =
    users_by_provider invs (elim inv.user_err [ some why ↦ m | none ↦ insert inv.name inv.users m ])

decision_before : Decision → Decision → Bool
decision_before a b =
    if not (a.provider == b.provider) then str_lt a.provider b.provider else str_lt a.id b.id

evidence_before : EvidenceItem → EvidenceItem → Bool
evidence_before a b =
    if not (a.source_provider == b.source_provider)
    then str_lt a.source_provider b.source_provider
    else if not (a.source_endpoint == b.source_endpoint)
    then str_lt a.source_endpoint b.source_endpoint
    else str_lt a.object_id b.object_id

report_before : ProviderOffboardingReport → ProviderOffboardingReport → Bool
report_before a b = str_lt a.provider b.provider

-- `sortCertificate`
unfoldable pub sort_certificate : OffboardingCertificate → OffboardingCertificate
unfolding decision_before evidence_before report_before
sort_certificate c = record c {
  providers = sort_by report_before c.providers;
  decisions = sort_by decision_before c.decisions;
  evidence = sort_by evidence_before c.evidence;
  unknowns = sort_strings c.unknowns;
}

unfoldable pub is_unmatched : ResolutionStatus → Bool
is_unmatched unmatched = true
is_unmatched _ = false

module _ (out : Outside) (input : Input) (cfg : Config) (registry : Dict Connector)
    (identity : IdentityProvider) where
  observed_at : ℕ
  observed_at = elim input.now [ none ↦ input.clock | some t ↦ t ]

  targets : List String
  targets = selected_providers cfg input.providers

  inventories : List ProviderInventory
  unfolding observed_at targets
  inventories = map (collect_provider registry observed_at) targets

  wanted : Wanted
  unfolding targets
  wanted = desired_by_provider identity.list_group_members cfg.mappings targets

  run_context : String → RunContext
  unfolding observed_at inventories
  run_context subject =
      let index = directory_index identity.list_users.0 in
      record {
        subject = resolve_canonical_identity (record {
          subject = subject;
          directory = identity.list_users.0;
          aliases = cfg.aliases;
          provider_users = users_by_provider inventories [];
        });
        tenant_id = input.tenant_id;
        actor = if input.actor == "" then "system" else input.actor;
        now = observed_at;
        domain = corporate_domain cfg;
        directory = index.0;
        alias_index = build_alias_index cfg.aliases index.1;
      }

  unfoldable pub parts : String → List Part
  unfolding inventories wanted run_context
  parts subject = map (part_of out (run_context subject) cfg.policies.exceptions wanted) inventories

  -- The certificate before it is sorted.
  unfoldable pub collected : String → OffboardingCertificate
  unfolding parts run_context observed_at
  collected subject =
      let run = run_context subject in
      let all = parts subject in
      record {
        id = certificate_id out subject observed_at;
        tenant_id = input.tenant_id;
        subject = run.subject;
        trigger = "manual";
        mode = observe;
        status = none;
        started_at = observed_at;
        completed_at = observed_at;
        providers = map (λ p. p.report) all;
        decisions = flat_map (λ p. p.decisions) all;
        evidence =
            evidence out run identity.name "ListUsers" user "directory_users"
              (out.hash_users identity.list_users.0) []
            ∷ flat_map (λ p. p.evidence) all;
        closed_access = [];
        transferred_responsibility = [];
        pending_reviews = [];
        unsupported_actions = [];
        unknowns =
            (if is_unmatched run.subject.status
              then "subject was not found in the directory or provider inventories" ∷ []
              else [])
            ++ flat_map (λ p. p.unknowns) all;
      }

-- `RunObserve`
unfoldable pub run_observe : Outside → Input → Result OffboardingCertificate
unfolding collected
run_observe out input = elim input.config [
  | none ↦ err "config is required"
  | some cfg ↦ elim input.registry [
    | none ↦ err "provider registry is required"
    | some registry ↦ elim input.identity [
      | none ↦ err "identity provider is required"
      | some identity ↦
          let subject = normal input.subject in
          if subject == "" then err "subject is required" else elim identity.list_users.1 [
            | some why ↦ err ("list directory users: " <> why)
            | none ↦ ok (
                refresh_certificate_decision_views
                  (sort_certificate (collected out input cfg registry identity subject)))
          ]
    ]
  ]
]
