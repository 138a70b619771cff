-- ===== src/Core/Evidence.antt =====
-- internal/core/evidence.go: proof artifacts. A payload is given by its hash, and the instant's text
-- by a function from outside, like SHA-256.
use Prim.Native.String.{slice}
use unseat.Base.{ℕ, String, ◌<>◌, List, [], ◌∷◌, Option, none, join}
use unseat.Base.Dict.{Dict}
use unseat.Core.Objects.{ObjectKind, object_kind_name}

abbrev pub default_policy_version : String
default_policy_version = "offboarding-policy/v1"

pub record EvidenceItem : Type 0 where
  pub id : String
  pub tenant_id : String
  pub source_provider : String
  pub source_endpoint : String
  pub object_kind : ObjectKind
  pub object_id : String
  pub collected_at : ℕ
  pub provider_timestamp : Option ℕ
  pub actor : String
  pub scopes_used : List String
  pub policy_version : String
  pub before_snapshot_hash : String
  pub after_snapshot_hash : String
  pub redaction_summary : String
  pub known_limits : List String
  pub metadata : Dict String

module _ (sha256_hex : String → String) (format_time : ℕ → String) where
  -- `EvidenceID`
  unfoldable pub evidence_id : String → ObjectKind → String → ℕ → String
  evidence_id provider kind object_id at =
      "ev_"
      <> slice
          (sha256_hex
            (join ":" (provider ∷ object_kind_name kind ∷ object_id ∷ format_time at ∷ [])))
          0 16

  -- `NewEvidenceItem`, at a collection time that is not zero.
  unfoldable pub new_evidence_item : String → ObjectKind → String → ℕ → String → EvidenceItem
  unfolding evidence_id
  new_evidence_item provider kind object_id at payload_hash = record {
    id = evidence_id provider kind object_id at;
    tenant_id = "";
    source_provider = provider;
    source_endpoint = "";
    object_kind = kind;
    object_id = object_id;
    collected_at = at;
    provider_timestamp = none;
    actor = "system";
    scopes_used = [];
    policy_version = default_policy_version;
    before_snapshot_hash = payload_hash;
    after_snapshot_hash = "";
    redaction_summary =
        "structured provider response redacted before display; hash retained for comparison";
    known_limits = [];
    metadata = [];
  }
