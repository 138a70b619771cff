-- ===== src/Store/Decisions.antt =====
-- internal/store/sqlite.go: the tables `decisions` and `decision_events`. A transaction that fails
-- is rolled back: the caller keeps the tables that it had. The payload column holds the decision
-- itself. The hash of a recommendation and the text of a time are functions given from outside.
pub mod Laws
pub mod Machine
pub mod History
pub mod Listing
pub mod Merge
use unseat.Base.{
  ℕ, String, ◌<>◌, List, [], ◌∷◌, ◌++◌, Bool, true, false, not, ◌&&◌, ◌||◌, Option, none, some,
  ◌==◌, if◌then◌else◌, normal, trim_space,
}
use unseat.Base.Dict.{Dict, insert}
use unseat.Core.Objects.{ObjectKind, ActionClass, request_owner_attestation, same_action}
use unseat.Core.Decisions.{
  Decision, DecisionRisk, DecisionStatus, proposed, approved, rejected, executed, verified, blocked,
  stale, verification_failed, status_name,
}

pub record DecisionRow : Type 0 where
  pub decision : Decision
  pub hash : String
  pub updated_at : ℕ

pub data EventKind : Type 0 where
  upserted status_changed became_stale was_approved was_rejected owner_attested : EventKind
  was_executed was_verified : EventKind

-- `from_status` is absent where the source writes "".
pub record DecisionEvent : Type 0 where
  pub decision_id : String
  pub kind : EventKind
  pub from_status : Option DecisionStatus
  pub to_status : DecisionStatus
  pub actor : String
  pub reason : String
  pub occurred_at : ℕ
  pub payload : Decision

pub record DecisionTables : Type 0 where
  pub rows : List DecisionRow
  pub events : List DecisionEvent

pub data Refusal : Type 0 where
  id_required reason_required owner_required not_found : Refusal
  wrong_action : ActionClass → Refusal
  wrong_status : DecisionStatus → Refusal

pub data Change : Type 0 where
  changed : Decision → DecisionTables → Change
  refused : Refusal → Change

-- `getDecision`
unfoldable pub find_row : String → List DecisionRow → Option DecisionRow
find_row id [] = none
find_row id (r ∷ rs) = if r.decision.id == id then some r else find_row id rs

-- `upsertDecisionTx`
unfoldable pub put_row : DecisionRow → List DecisionRow → List DecisionRow
put_row r [] = r ∷ []
put_row r (q ∷ rs) = if q.decision.id == r.decision.id then r ∷ rs else q ∷ put_row r rs

-- `upsertDecisionTx` and `insertDecisionEventTx` of one change.
unfoldable pub record_change :
    ℕ
    → String
    → Decision
    → EventKind
    → Option DecisionStatus
    → String
    → String
    → DecisionTables
    → DecisionTables
record_change now hash d kind old actor reason db = record {
  rows = put_row (record { decision = d; hash = hash; updated_at = now }) db.rows;
  events =
      db.events
      ++ (record {
        decision_id = d.id;
        kind = kind;
        from_status = old;
        to_status = d.status;
        actor = actor;
        reason = reason;
        occurred_at = now;
        payload = d;
      }
          ∷ []);
}

abbrev pub or_default : String → String → String
or_default s default = if s == "" then default else s

abbrev pub is_proposed : DecisionStatus → Bool
is_proposed proposed = true
is_proposed _ = false

-- `ApproveDecision`
unfoldable pub approve_decision : ℕ → String → String → DecisionTables → Change
unfolding record_change
approve_decision now id approver db = elim (find_row id db.rows) [
  | none ↦ refused not_found
  | some row ↦
      let who = or_default approver "cli" in
      let d = row.decision in
      let d' = record d {
        status = approved;
        approved_by = who;
        rejected_by = "";
        rejected_reason = "";
      } in
      if is_proposed d.status
      then changed d' (record_change now row.hash d' was_approved (some d.status) who "" db)
      else refused (wrong_status d.status)
]

abbrev pub is_undecided : DecisionStatus → Bool
is_undecided proposed = true
is_undecided approved = true
is_undecided _ = false

-- `RejectDecision`
unfoldable pub reject_decision : ℕ → String → String → String → DecisionTables → Change
unfolding record_change
reject_decision now id rejector reason db =
    let who = or_default rejector "cli" in
    let why = trim_space reason in
    let attempt : Change = elim (find_row id db.rows) [
      | none ↦ refused not_found
      | some row ↦
          let d = row.decision in
          let d' = record d {
            status = rejected;
            rejected_by = who;
            rejected_reason = why;
            approved_by = "";
          } in
          if is_undecided d.status
          then changed d' (record_change now row.hash d' was_rejected (some d.status) who why db)
          else refused (wrong_status d.status)
    ] in
    if why == "" then refused reason_required else attempt

-- `transitionDecision`, which no caller gives a reason.
unfoldable pub transition_decision :
    ℕ
    → String
    → String
    → (DecisionStatus → Bool)
    → DecisionStatus
    → EventKind
    → DecisionTables
    → Change
unfolding record_change
transition_decision now id actor is_from to kind db = elim (find_row id db.rows) [
  | none ↦ refused not_found
  | some row ↦
      let d = row.decision in
      let d' = record d { status = to } in
      if is_from d.status
      then changed d' (record_change now row.hash d' kind (some d.status) actor "" db)
      else refused (wrong_status d.status)
]

abbrev pub is_approved : DecisionStatus → Bool
is_approved approved = true
is_approved _ = false

abbrev pub is_executed : DecisionStatus → Bool
is_executed executed = true
is_executed _ = false

-- `MarkDecisionExecuted`
unfoldable pub mark_decision_executed : ℕ → String → String → DecisionTables → Change
unfolding transition_decision
mark_decision_executed now id actor db =
    transition_decision now id (or_default actor "system") is_approved executed was_executed db

-- `MarkDecisionVerified`
unfoldable pub mark_decision_verified : ℕ → String → String → DecisionTables → Change
unfolding transition_decision
mark_decision_verified now id actor db =
    transition_decision now id (or_default actor "system") is_executed verified was_verified db

module _ (format_time : ℕ → String) where
  -- The metadata that an attestation leaves.
  attested_metadata : ℕ → String → String → String → Dict String → Dict String
  attested_metadata now owner actor reason m =
      let m' =
        insert "attested_at" (format_time now)
          (insert "attested_by" actor (insert "attested_owner" owner m)) in
      if reason == "" then m' else insert "attestation_reason" reason m'

  -- The part of `AttestOwner` that runs on a stored decision.
  unfoldable pub attest_row : ℕ → String → String → String → DecisionRow → DecisionTables → Change
  unfolding record_change attested_metadata
  attest_row now owner actor reason row db =
      let d = row.decision in
      let d' = record d {
        status = verified;
        approved_by = actor;
        metadata = attested_metadata now owner actor reason d.metadata;
      } in
      if not (same_action d.action_class request_owner_attestation)
      then refused (wrong_action d.action_class)
      else if not (is_undecided d.status)
      then refused (wrong_status d.status)
      else changed d' (record_change now row.hash d' owner_attested (some d.status) actor reason db)

  -- `AttestOwner`
  unfoldable pub attest_owner : ℕ → String → String → String → String → DecisionTables → Change
  unfolding attest_row
  attest_owner now id owner actor reason db =
      let attempt : Change = elim (find_row id db.rows) [
        | none ↦ refused not_found
        | some row ↦
            attest_row now (normal owner) (or_default actor "cli") (trim_space reason) row db
      ] in
      if normal owner == "" then refused owner_required else attempt
