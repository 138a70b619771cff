-- ===== src/Store/Decisions/Merge.antt =====
-- internal/store/sqlite.go: `UpsertDecisions`, which merges recomputed recommendations into the table
-- of decisions. The hash of a recommendation is a function given from outside.
use unseat.Base.{
  ℕ, String, List, [], ◌∷◌, Bool, true, false, Option, none, some, ◌==◌, if◌then◌else◌,
}
use unseat.Base.Dict.{Dict, insert}
use unseat.Core.Objects.{ObjectKind, ActionClass}
use unseat.Core.Decisions.{
  Decision, DecisionRisk, DecisionStatus, approved, rejected, executed, verified, stale,
  status_name,
}
use unseat.Store.Decisions.{
  DecisionRow, DecisionTables, EventKind, upserted, status_changed, became_stale, find_row, put_row,
  record_change,
}

-- The fields that `decisionRecommendationHash` reads.
pub record Recommendation : Type 0 where
  pub subject : String
  pub object_kind : ObjectKind
  pub object_id : String
  pub provider : String
  pub action_class : ActionClass
  pub recommended_action : String
  pub risk : DecisionRisk
  pub reason : String
  pub policy_version : String
  pub required_evidence : List String
  pub blocked_by : List String
  pub metadata : Dict String

unfoldable pub recommendation : Decision → Recommendation
recommendation d = record {
  subject = d.subject;
  object_kind = d.object_kind;
  object_id = d.object_id;
  provider = d.provider;
  action_class = d.action_class;
  recommended_action = d.recommended_action;
  risk = d.risk;
  reason = d.reason;
  policy_version = d.policy_version;
  required_evidence = d.required_evidence;
  blocked_by = d.blocked_by;
  metadata = d.metadata;
}

abbrev pub is_human_decided : DecisionStatus → Bool
is_human_decided approved = true
is_human_decided rejected = true
is_human_decided executed = true
is_human_decided verified = true
is_human_decided _ = false

-- A decision whose recommendation changed after a human had decided.
unfoldable pub stale_version : Decision → Decision → Decision
stale_version existing incoming = record incoming {
  status = stale;
  approved_by = existing.approved_by;
  rejected_by = existing.rejected_by;
  rejected_reason = existing.rejected_reason;
  metadata =
      insert "stale_reason" "recommendation changed after human decision"
        (insert "previous_status" (status_name existing.status) incoming.metadata);
}

-- What is stored, and the event that is recorded, if any.
pub record Merged : Type 0 where
  pub stored : Decision
  pub event : Option (Option DecisionStatus × EventKind)

module _ (hash_recommendation : Recommendation → String) where
  abbrev pub hash_of : Decision → String
  hash_of d = hash_recommendation (recommendation d)

  -- The `switch` of `mergeIncomingDecision` on the stored decision.
  unfoldable pub merge_existing : Decision → DecisionRow → Merged
  unfolding stale_version
  merge_existing incoming row =
      let existing = row.decision in
      let hash = if row.hash == "" then hash_of existing else row.hash in
      if is_human_decided existing.status
      then (if hash == hash_of incoming
          then record { stored = existing; event = none }
          else record {
            stored = stale_version existing incoming;
            event = some (some existing.status, became_stale);
          })
      else if status_name existing.status == status_name incoming.status
      then record { stored = incoming; event = none }
      else record { stored = incoming; event = some (some existing.status, status_changed) }

  -- `mergeIncomingDecision`
  unfoldable pub merge_incoming_decision : Decision → List DecisionRow → Merged
  unfolding merge_existing
  merge_incoming_decision incoming rows = elim (find_row incoming.id rows) [
    | none ↦ record { stored = incoming; event = some (none, upserted) }
    | some row ↦ merge_existing incoming row
  ]

  -- One round of the loop of `UpsertDecisions`.
  unfoldable pub upsert_decision : ℕ → Decision → DecisionTables → DecisionTables
  unfolding record_change merge_incoming_decision
  upsert_decision now d db =
      let m = merge_incoming_decision d db.rows in
      let hash = hash_of m.stored in
      elim m.event [
        | none ↦ record db {
          rows = put_row (record { decision = m.stored; hash = hash; updated_at = now }) db.rows;
        }
        | some (old, kind) ↦ record_change now hash m.stored kind old "system" m.stored.reason db
      ]

  -- `UpsertDecisions`: nothing is kept if some decision has no identifier.
  unfoldable pub upsert_decisions : ℕ → List Decision → DecisionTables → Option DecisionTables
  unfolding upsert_decision
  upsert_decisions now [] db = some db
  upsert_decisions now (d ∷ ds) db =
      let rest = upsert_decisions now ds (upsert_decision now d db) in
      if d.id == "" then none else rest
