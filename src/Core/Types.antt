-- ===== src/Core/Types.antt =====
-- internal/core/types.go: users, capabilities, events. A `*time.Time` is an optional number, the
-- nanoseconds of the instant.
use unseat.Base.{ℕ, String, Bool, List, Option, to_lower}
use unseat.Base.Dict.{Dict}
use unseat.Core.Objects.{ActionCapability}

abbrev pub status_active : String
status_active = "active"

abbrev pub status_suspended : String
status_suspended = "suspended"

abbrev pub status_invited : String
status_invited = "invited"

pub record User : Type 0 where
  pub email : String
  pub display_name : String
  pub role : String
  pub status : String
  pub provider_id : String
  pub last_activity_at : Option ℕ
  pub metadata : Dict String

-- `User.Key`
unfoldable pub key : User → String
key u = to_lower u.email

pub record Group : Type 0 where
  pub id : String
  pub email : String
  pub name : String
  pub description : String
  pub member_count : ℕ

pub data SuspendedBilling : Type 0 where
  unknown charged released : SuspendedBilling

pub record Capabilities : Type 0 where
  pub can_add : Bool
  pub can_remove : Bool
  pub can_suspend : Bool
  pub can_set_role : Bool
  pub has_webhook : Bool
  pub actions : List ActionCapability
  pub suspended_billing : SuspendedBilling
  pub reports_activity : Bool
  pub reports_credential_usage : Bool

pub data EventType : Type 0 where
  user_added user_removed user_suspended sync_completed : EventType

pub record Event : Type 0 where
  pub id : String
  pub type : EventType
  pub provider : String
  pub email : String
  pub details : String
  pub trigger : String
  pub occurred_at : ℕ
