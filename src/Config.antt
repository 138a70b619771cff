-- ===== src/Config.antt =====
-- config/config.go: the parts of the configuration that the reconciler reads, and its queries.
pub mod Env
pub mod Laws
use unseat.Base.{
  ℕ, String, List, [], ◌∷◌, ◌++◌, Bool, true, false, ◌&&◌, ◌||◌, ◌==◌, if◌then◌else◌, any,
}
use unseat.Base.Dict.{Dict, insert}
use unseat.Core.Engine.{GroupMappingInput}

pub record ProviderMapping : Type 0 where
  pub name : String
  pub role : String

pub record Mapping : Type 0 where
  pub group : String
  pub providers : List ProviderMapping

pub record Exception : Type 0 where
  pub email : String
  pub providers : List String

-- `grace_period` is 0 where the source tests `<= 0`.
pub record Policies : Type 0 where
  pub grace_period : ℕ
  pub dry_run : Bool
  pub notify_on_remove : Bool
  pub exceptions : List Exception

pub record ProviderConfig : Type 0 where
  pub api_key : String
  pub base_url : String
  pub extra_args : Dict String

-- `identity_domain` is the domain of the identity source.
pub record Config : Type 0 where
  pub identity_domain : String
  pub providers : Dict ProviderConfig
  pub mappings : List Mapping
  pub policies : Policies
  pub aliases : Dict (List String)
  pub domain : String

-- `CorporateDomain`
unfoldable pub corporate_domain : Config → String
corporate_domain c = if c.domain == "" then c.identity_domain else c.domain

-- The inner loop of `GroupsForProvider`.
unfoldable pub groups_of : String → String → List ProviderMapping → List GroupMappingInput
groups_of name group [] = []
groups_of name group (p ∷ ps) =
    let rest = groups_of name group ps in
    if p.name == name then record { group_email = group; role = p.role } ∷ rest else rest

-- `GroupsForProvider`
unfoldable pub groups_for_provider : String → List Mapping → List GroupMappingInput
unfolding groups_of
groups_for_provider name [] = []
groups_for_provider name (m ∷ ms) =
    groups_of name m.group m.providers ++ groups_for_provider name ms

-- The test of one entry of an exception's providers.
abbrev pub covers : String → String → Bool
covers name p = p == "*" || p == name

-- `IsException`
unfoldable pub is_exception : String → String → List Exception → Bool
is_exception email name [] = false
is_exception email name (ex ∷ exs) =
    (ex.email == email && any (covers name) ex.providers) || is_exception email name exs

-- The inner loop with which `reconcileProvider` builds the set of exceptions.
unfoldable pub add_exception : String → String → List String → Dict Bool → Dict Bool
add_exception name email [] m = m
add_exception name email (p ∷ ps) m =
    add_exception name email ps (if covers name p then insert email true m else m)

-- The whole loop.
unfoldable pub exception_set : String → List Exception → Dict Bool → Dict Bool
unfolding add_exception
exception_set name [] m = m
exception_set name (ex ∷ exs) m =
    exception_set name exs (add_exception name ex.email ex.providers m)
