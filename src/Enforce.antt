-- ===== src/Enforce.antt =====
-- internal/enforce/enforce.go and internal/provider/registry.go: the execution of approved
-- decisions at the providers. A provider's `RemoveUser` is given from outside: it answers a request
-- with an error or with nothing. The errors of the database that meet
-- an `Apply` come from outside too; that of the reading of `Plan` is left out.
pub mod Laws
use unseat.Base.{
  ℕ, String, List, [], ◌∷◌, Bool, true, false, not, Option, none, some, if◌then◌else◌, map, ◌&&◌,
}
use unseat.Base.Dict.{Dict, lookup, insert}
use unseat.Base.Sorting.{sort_strings}
use unseat.Core.Objects.{ActionClass, remove_workspace_member, same_action, supports_action}
use unseat.Core.Types.{Capabilities}
use unseat.Core.Matrix.{action_matrix}
use unseat.Core.Decisions.{Decision, approved}
use unseat.Store.Decisions.{
  DecisionRow, DecisionTables, Refusal, Change, changed, refused, find_row, mark_decision_executed,
  is_approved,
}
use unseat.Store.Decisions.Listing.{DecisionFilter, list_decisions}

-- What the engine uses of a registered provider.
pub record Provider : Type 0 where
  pub name : String
  pub capabilities : Capabilities
  pub remove_user : String → Option String

-- `Registry`, without its lock
abbrev pub Registry : Type 0
Registry = Dict Provider

-- `Registry.Register`
unfoldable pub register : Provider → Registry → Registry
register p r = insert p.name p r

-- `Registry.Get`; `none` is the error.
unfoldable pub get_provider : String → Registry → Option Provider
get_provider name r = lookup name r

-- `Registry.List`
unfoldable pub list_providers : Registry → List String
list_providers r = sort_strings (map (λ (name, p). name) r)

pub record Candidate : Type 0 where
  pub decision : Decision
  pub executable : Bool
  pub blocked_by : List String

abbrev blocked_candidate : Decision → String → Candidate
blocked_candidate d why = record { decision = d; executable = false; blocked_by = why ∷ [] }

-- `candidate`
unfoldable pub candidate : Registry → Decision → Candidate
unfolding get_provider
candidate registry d =
    if not (is_approved d.status)
    then blocked_candidate d "decision_not_approved"
    else if not (same_action d.action_class remove_workspace_member)
    then blocked_candidate d "action_class_not_implemented_by_enforce"
    else elim (get_provider d.provider registry) [
      | none ↦ blocked_candidate d "provider_not_registered"
      | some p ↦
          if not (supports_action (action_matrix p.capabilities d.provider) d.action_class)
          then blocked_candidate d "provider_does_not_support_action_class"
          else record { decision = d; executable = true; blocked_by = [] }
    ]

-- `Plan`
unfoldable pub plan : Registry → DecisionFilter → List DecisionRow → List Candidate
unfolding candidate
plan registry filter rows =
    map (candidate registry) (list_decisions (record filter { status = some approved }) rows)

pub data Failure : Type 0 where
  decision_not_found : Failure
  not_executable : List String → Failure
  not_registered : Failure
  remove_failed : String → Failure
  not_implemented : ActionClass → Failure
  not_recorded : Refusal → Failure
  not_read : String → Failure
  database_failed : String → Failure

-- The database errors that meet one `Apply`: in `GetDecision`, and in the transaction of
-- `MarkDecisionExecuted`, which leaves the tables as they were.
pub record Outage : Type 0 where
  pub on_get : Option String
  pub on_mark : Option String

-- What `Apply` leaves: its error, the tables, and the requests that it made, each a provider and
-- the object to remove.
pub record Applied : Type 0 where
  pub failure : Option Failure
  pub tables : DecisionTables
  pub requests : List (String × String)

abbrev failed : Failure → DecisionTables → List (String × String) → Applied
failed f db requests = record { failure = some f; tables = db; requests = requests }

-- The return of `Apply`, from what `MarkDecisionExecuted` answers.
unfoldable pub settle : DecisionTables → List (String × String) → Change → Applied
settle db requests (refused r) = failed (not_recorded r) db requests
settle db requests (changed d db') = record { failure = none; tables = db'; requests = requests }

-- `MarkDecisionExecuted`, or the error of its transaction.
unfoldable pub record_executed :
    ℕ → String → String → Option String → DecisionTables → List (String × String) → Applied
unfolding settle
record_executed now id actor (some e) db requests = failed (database_failed e) db requests
record_executed now id actor none db requests =
    settle db requests (mark_decision_executed now id actor db)

-- The `switch` of `Apply` on the action.
unfoldable pub execute :
    ℕ → String → String → Option String → Provider → Decision → DecisionTables → Applied
unfolding record_executed
execute now id actor on_mark p d db =
    let requests = (p.name, d.object_id) ∷ [] in
    if same_action d.action_class remove_workspace_member
    then elim (p.remove_user d.object_id) [
      | some e ↦ failed (remove_failed e) db requests
      | none ↦ record_executed now id actor on_mark db requests
    ]
    else failed (not_implemented d.action_class) db []

-- `Apply`, from the decision that `GetDecision` reads.
unfoldable pub apply_read : Registry → Outage → ℕ → String → String → DecisionTables → Applied
unfolding candidate get_provider execute
apply_read registry outage now id actor db = elim (find_row id db.rows) [
  | none ↦ failed decision_not_found db []
  | some row ↦
      let c = candidate registry row.decision in
      if not c.executable
      then failed (not_executable c.blocked_by) db []
      else elim (get_provider row.decision.provider registry) [
        | none ↦ failed not_registered db []
        | some p ↦ execute now id actor outage.on_mark p row.decision db
      ]
]

-- `Apply`
unfoldable pub apply : Registry → Outage → ℕ → String → String → DecisionTables → Applied
unfolding apply_read
apply registry outage now id actor db = elim outage.on_get [
  | some e ↦ failed (not_read e) db []
  | none ↦ apply_read registry outage now id actor db
]
