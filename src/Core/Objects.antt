-- ===== src/Core/Objects.antt =====
-- internal/core/action.go: the vocabulary of provider objects, actions and capabilities. A Go
-- constant of a string type is a constructor here, and its text is given by a `_name` function.
use unseat.Base.{String, Bool, ◌&&◌, List, ◌==◌, any}

pub data ObjectKind : Type 0 where
  user workspace_member credential app_installation billing_seat : ObjectKind
  owner_attestation manual_task unknown_provider_limit : ObjectKind

unfoldable pub object_kind_name : ObjectKind → String
object_kind_name user = "user"
object_kind_name workspace_member = "workspace_member"
object_kind_name credential = "credential"
object_kind_name app_installation = "app_installation"
object_kind_name billing_seat = "billing_seat"
object_kind_name owner_attestation = "owner_attestation"
object_kind_name manual_task = "manual_task"
object_kind_name unknown_provider_limit = "unknown_provider_limit"

pub data ActionClass : Type 0 where
  add_user delete_user deactivate_user suspend_login remove_workspace_member : ActionClass
  release_paid_seat transfer_ownership request_owner_attestation create_manual_task : ActionClass
  revoke_credential mark_unsupported wait_grace_period escalate : ActionClass

unfoldable pub action_class_name : ActionClass → String
action_class_name add_user = "add_user"
action_class_name delete_user = "delete_user"
action_class_name deactivate_user = "deactivate_user"
action_class_name suspend_login = "suspend_login"
action_class_name remove_workspace_member = "remove_workspace_member"
action_class_name release_paid_seat = "release_paid_seat"
action_class_name transfer_ownership = "transfer_ownership"
action_class_name request_owner_attestation = "request_owner_attestation"
action_class_name create_manual_task = "create_manual_task"
action_class_name revoke_credential = "revoke_credential"
action_class_name mark_unsupported = "mark_unsupported"
action_class_name wait_grace_period = "wait_grace_period"
action_class_name escalate = "escalate"

-- Go compares the constants as texts.
unfoldable pub same_action : ActionClass → ActionClass → Bool
unfolding action_class_name
same_action a b = action_class_name a == action_class_name b

pub data VerificationKind : Type 0 where
  no_verification absent_on_rescan status_on_rescan billing_delta : VerificationKind
  provider_receipt human_approval : VerificationKind

pub record ActionCapability : Type 0 where
  pub provider : String
  pub object_kind : ObjectKind
  pub action_class : ActionClass
  pub effect : String
  pub can_execute : Bool
  pub can_verify : Bool
  pub verified : Bool
  pub destructive : Bool
  pub requires_approval : Bool
  pub verification : VerificationKind
  pub known_limits : List String

-- `SupportsAction`
unfoldable pub supports_action : List ActionCapability → ActionClass → Bool
unfolding any
supports_action actions class = any (λ a. same_action a.action_class class && a.can_execute) actions
