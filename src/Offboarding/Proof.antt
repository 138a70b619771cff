-- ===== src/Offboarding/Proof.antt =====
-- The evidence of internal/offboarding/offboarding.go, with the limits that are stated beside it.
use unseat.Base.{String, List, [], ◌∷◌, ◌++◌, Bool, true, ◌||◌, ◌==◌, if◌then◌else◌}
use unseat.Base.Dict.{Dict, insert, has_key}
use unseat.Base.Sorting.{sort_strings}
use unseat.Core.Objects.{ObjectKind, ActionCapability}
use unseat.Core.Types.{Capabilities}
use unseat.Core.Billing.{BillingSnapshot, has_money}
use unseat.Core.Evidence.{EvidenceItem, new_evidence_item}
use unseat.Offboarding.Report.{Outside, RunContext}

module _ (out : Outside) (run : RunContext) where
  -- `evidence`
  unfoldable pub evidence :
      String → String → ObjectKind → String → String → List String → EvidenceItem
  evidence provider endpoint kind object_id payload_hash limits =
      record (new_evidence_item out.sha256_hex out.format_time provider kind object_id run.now
        payload_hash) {
          tenant_id = run.tenant_id;
          actor = run.actor;
          source_endpoint = endpoint;
          known_limits = limits;
        }

-- The inner loop of `capabilityLimits`, over the limits of one action.
distinct_limits : Dict Bool → List String → List String × Dict Bool
distinct_limits seen [] = ([], seen)
distinct_limits seen (limit ∷ limits) =
    let skip = limit == "" || has_key limit seen in
    let rest = distinct_limits (if skip then seen else insert limit true seen) limits in
    if skip then rest else (limit ∷ rest.0, rest.1)

all_limits : Dict Bool → List ActionCapability → List String
unfolding distinct_limits
all_limits seen [] = []
all_limits seen (action ∷ actions) =
    let here = distinct_limits seen action.known_limits in here.0 ++ all_limits here.1 actions

-- `capabilityLimits`
unfoldable pub capability_limits : List ActionCapability → List String
unfolding all_limits
capability_limits actions = sort_strings (all_limits [] actions)

-- `credentialEvidenceLimits`
unfoldable pub credential_evidence_limits : Capabilities → List String
credential_evidence_limits caps =
    if caps.reports_credential_usage
    then []
    else "credential inventory does not prove last-use timestamps" ∷ []

-- `billingEvidenceLimits`, for a snapshot that is not nil.
unfoldable pub billing_evidence_limits : BillingSnapshot → List String
billing_evidence_limits b =
    if has_money b
    then []
    else if b.unavailable_reason == ""
    then "provider API did not expose price" ∷ []
    else b.unavailable_reason ∷ []
