-- ===== src/Tests/Running.antt =====
-- The store, the execution of decisions, and a pass of the reconciler.
use unseat.Base.{
  ℕ, String, List, [], ◌∷◌, ◌++◌, Bool, true, false, not, none, some, ok, ◌≡◌, refl, arith, any,
  flat_map, is_some,
}
use unseat.Base.Dict.{Dict, lookup}
use unseat.Core.Decisions.{Decision, approved, proposed}
use unseat.Core.Engine.{target}
use unseat.Store.Pending.{PendingRemoval, is_for, get_expired_removals}
use unseat.Store.Pending.Laws.{insert_each, grace_period_ends}
use unseat.Store.Decisions.{
  DecisionTables, record_change, find_row, put_row, approve_decision, changed, upserted,
  was_approved,
}
use unseat.Store.Decisions.Laws.{decision_at}
use unseat.Store.Decisions.Merge.{
  hash_of, Recommendation, recommendation, upsert_decisions, upsert_decision,
  merge_incoming_decision,
}
use unseat.Store.Decisions.Machine.{approve, mark_executed, run_command, Obeys, run_command-Obeys}
use unseat.Store.Decisions.History.{
  Reachable, empty_tables, commanded, recomputed, granted-Reachable, grants,
}
use unseat.Config.{Exception, Policies}
use unseat.Enforce.{Registry, Outage, apply}
use unseat.Enforce.Laws.{Enforces, apply-Enforces}
use unseat.Sync.World.{World, adding, removing, request, insert_event, try, attempt}
use unseat.Sync.Actions.{
  Pass, execute_actions, add_seats, add_seat, drop_seats, drop_seat, remove_seat, send_notification,
}
use unseat.Sync.Expiry.{still_orphaned, cancel_returned_users, execute_expired_removals}
use unseat.Sync.Pass.{Reconciler, run}
use unseat.Sync.Targets.{ListedAs, is_listed_by_any}
use unseat.Sync.Requests.{
  add_request, remove_request, expiry_request, due, requests-execute_actions,
  requests-execute_expired_removals,
}
use unseat.Sync.Returned.{expired-returned}
use unseat.Sync.DryRun.{Untouched, run-Untouched}
use unseat.Tests.Fixtures.{alice, bob, carol, planned, engineers, capabilities}
use unseat.Tests.People.{removal}

abbrev exceptions : List Exception
exceptions =
    record { email = "bob@corp.com"; providers = "slack" ∷ [] }
    ∷ record { email = "root@corp.com"; providers = "*" ∷ [] }
    ∷ []

abbrev countdown : String → ℕ → Bool → PendingRemoval
countdown email expires_at cancelled = record {
  provider = "figma";
  email = email;
  detected_at = 1;
  expires_at = expires_at;
  cancelled = cancelled;
}

abbrev countdowns : List PendingRemoval
countdowns = countdown "alice@corp.com" 5 false ∷ countdown "bob@corp.com" 6 true ∷ []

-- A grace period of 72 hours, requested again every hour, has ended at hour 73.
grace_period_ends_example :
    any (is_for "figma" "carol@corp.com") (
      get_expired_removals 73 "figma"
        (insert_each "figma" "carol@corp.com" 72 (1 ∷ 2 ∷ 3 ∷ []) countdowns))
    ≡ true
grace_period_ends_example =
    grace_period_ends "figma" "carol@corp.com" 1 72 73 (2 ∷ 3 ∷ []) countdowns refl (omega arith)

abbrev digest : Recommendation → String
digest r = r.subject

abbrev no_time : ℕ → String
no_time t = ""

abbrev no_tables : DecisionTables
no_tables = record { rows = []; events = [] }

-- The tables after the removal was recommended at 1 and approved at 2.
abbrev granted_removal : Decision
granted_removal = record removal { status = approved; approved_by = "ann" }

abbrev recommended : DecisionTables
recommended = record {
  rows = record { decision = removal; hash = "bob@corp.com"; updated_at = 1 } ∷ [];
  events =
      record {
        decision_id = "d1";
        kind = upserted;
        from_status = none;
        to_status = proposed;
        actor = "system";
        reason = "left";
        occurred_at = 1;
        payload = removal;
      }
      ∷ [];
}

abbrev ready : DecisionTables
ready = record {
  rows = record { decision = granted_removal; hash = "bob@corp.com"; updated_at = 2 } ∷ [];
  events =
      recommended.events
      ++ (record {
        decision_id = "d1";
        kind = was_approved;
        from_status = some proposed;
        to_status = approved;
        actor = "ann";
        reason = "";
        occurred_at = 2;
        payload = granted_removal;
      }
          ∷ []);
}

recommended-made : upsert_decisions digest 1 (removal ∷ []) no_tables ≡ some recommended
unfolding upsert_decisions upsert_decision merge_incoming_decision find_row put_row record_change
    recommendation
recommended-made = refl

ready-made : run_command no_time 2 (approve "d1" "ann") recommended ≡ changed granted_removal ready
unfolding approve_decision find_row put_row record_change
ready-made = refl

run_command_example :
    Obeys (mark_executed "d1" "cli") ready (run_command no_time 3 (mark_executed "d1" "cli") ready)
run_command_example = run_command-Obeys no_time 3 (mark_executed "d1" "cli") ready

reached : Reachable digest no_time ready
reached =
    commanded 2 (approve "d1" "ann") granted_removal ready-made
      (recomputed 1 (removal ∷ []) (refl, tt) recommended-made empty_tables)

stored_there : decision_at "d1" ready ≡ some granted_removal
unfolding find_row
stored_there = refl

granted-Reachable_example :
    any (grants digest "d1" (hash_of digest granted_removal)) ready.events ≡ true
granted-Reachable_example =
    granted-Reachable digest no_time ready "d1" granted_removal reached stored_there refl

abbrev providers : Registry
providers =
    ("figma", record { name = "figma"; capabilities = capabilities; remove_user = λ target. none })
    ∷ []

abbrev no_outage : Outage
no_outage = record { on_get = none; on_mark = none }

apply-Enforces_example :
    Enforces providers no_outage "d1" ready (apply providers no_outage 3 "d1" "cli" ready)
apply-Enforces_example = apply-Enforces providers no_outage 3 "d1" "cli" ready

abbrev patient : Policies
patient = record {
  grace_period = 72;
  dry_run = false;
  notify_on_remove = true;
  exceptions = exceptions;
}

abbrev pass : Pass
pass = record {
  fails = λ n. false;
  now = 9;
  policies = patient;
  has_notifier = true;
  name = "figma";
  capabilities = capabilities;
}

abbrev quiet : World
quiet = record {
  pending = countdowns;
  events = [];
  requests = [];
  messages = [];
  cached = [];
  states = [];
  calls = 0;
}

-- Alice has come back: her countdown, expired at 5, is not among those that remain.
expired-returned_example :
    any
      (λ r. not (still_orphaned planned.to_remove r.email))
      (get_expired_removals 9 "figma"
        (execute_actions pass planned (cancel_returned_users pass planned quiet)).pending)
    ≡ false
expired-returned_example = expired-returned pass planned quiet (λ n. refl) refl

abbrev hasty : Pass
hasty = record pass { policies = record patient { grace_period = 0 } }

execute_actions_example :
    (execute_actions hasty planned quiet).requests
    ≡ ([] ++ flat_map (add_request hasty) planned.to_add)
      ++ flat_map (remove_request hasty) planned.to_remove
execute_actions_example = requests-execute_actions hasty planned quiet

execute_actions_run :
    (execute_actions hasty planned quiet).requests
    ≡ adding "figma" "carol@corp.com" "editor" ∷ removing "figma" "bob@corp.com" ∷ []
unfolding execute_actions add_seats add_seat drop_seats drop_seat remove_seat request insert_event
    send_notification try attempt target
execute_actions_run = refl

abbrev listed_aliases : Dict (List String)
listed_aliases = ("robert@corp.com", "bob@corp.com" ∷ []) ∷ []

execute_expired_removals_example :
    (known : Dict String) × ((execute_expired_removals pass listed_aliases
        (alice ∷ bob ∷ [])
        quiet).requests
      ≡ [] ++ flat_map (expiry_request pass known) (due pass quiet))
    × ((key raw : String)
        → lookup key known ≡ some raw
        → ListedAs listed_aliases (alice ∷ bob ∷ []) key raw)
    × ((key : String)
        → is_listed_by_any listed_aliases (alice ∷ bob ∷ []) key ≡ true
        → is_some (lookup key known) ≡ true)
execute_expired_removals_example =
    requests-execute_expired_removals pass listed_aliases (alice ∷ bob ∷ []) quiet

abbrev rehearsal : Reconciler
rehearsal = record {
  fails = λ n. false;
  now = 9;
  config = record {
    identity_domain = "corp.com";
    providers = [];
    mappings =
        record { group = "eng"; providers = record { name = "figma"; role = "editor" } ∷ [] } ∷ [];
    policies = record patient { dry_run = true };
    aliases = [];
    domain = "";
  };
  registry = ("figma", record { capabilities = capabilities; listed = ok (alice ∷ bob ∷ []) }) ∷ [];
  list_group_members = engineers;
  list_users = ok (alice ∷ carol ∷ []);
  has_notifier = true;
}

run-Untouched_example : Untouched quiet (run rehearsal quiet).1
run-Untouched_example = run-Untouched rehearsal quiet refl
