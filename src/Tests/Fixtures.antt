-- ===== src/Tests/Fixtures.antt =====
-- Users, a directory and a reconciliation that the examples share.
use unseat.Base.{String, List, [], ◌∷◌, true, false, none, some, ok, err, if◌then◌else◌, ◌==◌}
use unseat.Core.Types.{User, Capabilities, status_active, status_suspended, unknown}
use unseat.Core.Seats.{DirectoryUser}
use unseat.Core.Engine.{DesiredResolver, ReconcileInput, UserAction, ReconcilePlan}

abbrev pub user_at : String → String → User
user_at email status = record {
  email = email;
  display_name = "";
  role = "member";
  status = status;
  provider_id = email;
  last_activity_at = none;
  metadata = [];
}

abbrev pub alice : User
alice = user_at "Alice@corp.com" status_active

abbrev pub bob : User
bob = user_at "bob@corp.com" status_active

abbrev pub carol : User
carol = user_at "carol@corp.com" status_active

abbrev pub dave : User
dave = user_at "dave@corp.com" status_suspended

abbrev pub here : String → String × DirectoryUser
here email = (email, record { email = email; suspended = false })

abbrev pub directory : List (String × DirectoryUser)
directory = here "alice@corp.com" ∷ here "carol@corp.com" ∷ []

abbrev pub engineers : DesiredResolver
engineers group = if group == "eng" then ok (alice ∷ carol ∷ []) else err "no such group"

-- Alice stays, Carol is missing, Bob has left, Dave has left and is off already.
abbrev pub reconciliation : ReconcileInput
reconciliation = record {
  provider_name = "figma";
  group_mappings = record { group_email = "eng"; role = "editor" } ∷ [];
  desired_resolver = engineers;
  actual_users = alice ∷ bob ∷ dave ∷ [];
  exceptions = none;
  alias_index = none;
  dry_run = false;
  grace_period = 0;
  directory = some directory;
  domain = "corp.com";
}

abbrev pub action_at : String → String → String → UserAction
action_at email raw role = record { email = email; provider_email = raw; role = role }

abbrev pub planned : ReconcilePlan
planned = record {
  provider_name = "figma";
  to_add = action_at "carol@corp.com" "" "editor" ∷ [];
  to_remove = action_at "bob@corp.com" "bob@corp.com" "" ∷ [];
  to_review = [];
  already_deactivated = action_at "dave@corp.com" "dave@corp.com" "" ∷ [];
  unchanged = 1;
  dry_run = false;
}

abbrev pub capabilities : Capabilities
capabilities = record {
  can_add = true;
  can_remove = true;
  can_suspend = false;
  can_set_role = false;
  has_webhook = false;
  actions = [];
  suspended_billing = unknown;
  reports_activity = false;
  reports_credential_usage = false;
}
