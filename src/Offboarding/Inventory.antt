-- ===== src/Offboarding/Inventory.antt =====
-- `selectedProviders` and `collectProvider` of internal/offboarding/offboarding.go: which providers
-- are asked, and what they answer. A Go pair of a value and an error is a pair here too.
use unseat.Base.{
  ℕ, String, ◌<>◌, List, [], ◌∷◌, Bool, true, false, ◌||◌, Option, none, some, ◌==◌, if◌then◌else◌,
  trim_space, is_some,
}
use unseat.Base.Dict.{Dict, lookup, insert, has_key}
use unseat.Base.Sorting.{sort_strings}
use unseat.Core.Objects.{ActionCapability}
use unseat.Core.Types.{User, Capabilities, SuspendedBilling}
use unseat.Core.Matrix.{action_matrix}
use unseat.Core.Credentials.{Credential}
use unseat.Core.Billing.{BillingSnapshot}
use unseat.Config.{ProviderConfig, Config}

-- The interfaces for credentials that a connector may have.
pub data CredentialSource : Type 0 where
  no_source : CredentialSource
  inventory :
      (credentials : List Credential) (warnings : List String) (error : Option String)
      → CredentialSource
  listed : (credentials : List Credential) (error : Option String) → CredentialSource

-- A registered provider, by its answers. `billing` is none where the interface is missing.
pub record Connector : Type 0 where
  pub capabilities : Capabilities
  pub list_users : List User × Option String
  pub credentials : CredentialSource
  pub billing : Option (Option BillingSnapshot × Option String)

pub record ProviderInventory : Type 0 where
  pub name : String
  pub provider_err : Option String
  pub user_err : Option String
  pub users : List User
  pub capabilities : Capabilities
  pub actions : List ActionCapability
  pub credentials_supported : Bool
  pub credentials_err : Option String
  pub credential_warnings : List String
  pub credentials : List Credential
  pub billing_supported : Bool
  pub billing_err : Option String
  pub billing : Option BillingSnapshot

-- Go's zero value.
abbrev pub no_capabilities : Capabilities
no_capabilities = record {
  can_add = false;
  can_remove = false;
  can_suspend = false;
  can_set_role = false;
  has_webhook = false;
  actions = [];
  suspended_billing = SuspendedBilling.unknown;
  reports_activity = false;
  reports_credential_usage = false;
}

abbrev pub empty_inventory : String → ProviderInventory
empty_inventory name = record {
  name = name;
  provider_err = none;
  user_err = none;
  users = [];
  capabilities = no_capabilities;
  actions = [];
  credentials_supported = false;
  credentials_err = none;
  credential_warnings = [];
  credentials = [];
  billing_supported = false;
  billing_err = none;
  billing = none;
}

with_credentials : CredentialSource → ProviderInventory → ProviderInventory
with_credentials no_source inv = inv
with_credentials (inventory credentials warnings error) inv = record inv {
  credentials_supported = true;
  credentials = credentials;
  credential_warnings = warnings;
  credentials_err = error;
}
with_credentials (listed credentials error) inv = record inv {
  credentials_supported = true;
  credentials = credentials;
  credentials_err = error;
}

-- A snapshot without a time was fetched now.
fetched_now : ℕ → Option BillingSnapshot → Option BillingSnapshot
fetched_now now none = none
fetched_now now (some b) =
    if is_some b.fetched_at then some b else some (record b { fetched_at = some now })

with_billing :
    ℕ → Option (Option BillingSnapshot × Option String) → ProviderInventory → ProviderInventory
unfolding fetched_now
with_billing now none inv = inv
with_billing now (some (billing, error)) inv = record inv {
  billing_supported = true;
  billing = fetched_now now billing;
  billing_err = error;
}

-- `collectProvider`
unfoldable pub collect_provider : Dict Connector → ℕ → String → ProviderInventory
unfolding with_credentials with_billing
collect_provider registry now name = elim (lookup name registry) [
  | none ↦ record (empty_inventory name) {
    provider_err = some ("provider \"" <> (name <> "\" not registered"));
  }
  | some p ↦ with_billing now p.billing (
      with_credentials p.credentials (record (empty_inventory name) {
        capabilities = p.capabilities;
        actions = action_matrix p.capabilities name;
        users = p.list_users.0;
        user_err = p.list_users.1;
      }))
]

-- The loop over the requested names.
unfoldable pub distinct_names : Dict Bool → List String → List String
distinct_names seen [] = []
distinct_names seen (raw ∷ names) =
    let name = trim_space raw in
    let skip = name == "" || has_key name seen in
    let rest = distinct_names (if skip then seen else insert name true seen) names in
    if skip then rest else name ∷ rest

-- The loop over the configured providers.
unfoldable pub keyed_names : Dict ProviderConfig → List String
keyed_names [] = []
keyed_names ((name, pc) ∷ providers) =
    let rest = keyed_names providers in if pc.api_key == "" then rest else name ∷ rest

-- `selectedProviders`
unfoldable pub selected_providers : Config → List String → List String
unfolding distinct_names keyed_names
selected_providers cfg [] = sort_strings (keyed_names cfg.providers)
selected_providers cfg (name ∷ names) = sort_strings (distinct_names [] (name ∷ names))
