-- ===== src/Core/Credentials.antt =====
-- internal/core/credential.go and nhi.go: non-human access and its verdicts.
pub mod Laws
pub mod Summary
use unseat.Base.{
  ℕ, ◌+◌, String, ◌<>◌, List, [], ◌∷◌, Bool, true, false, not, ◌&&◌, ◌||◌, Option, none, some, ◌==◌,
  if◌then◌else◌, has_at, has_suffix, map, length, join, ltb, nat_eq, is_some,
}
use unseat.Base.Dict.{Dict, lookup}
use unseat.Base.Sorting.{str_lt, sort_by}
use unseat.Core.Alias.{resolve_alias}
use unseat.Core.Seats.{DirectoryUser, normal_domain}

pub data CredentialKind : Type 0 where
  app_installation integration webhook api_key deploy_key oauth_grant service_account no_kind :
      CredentialKind

unfoldable pub credential_kind_name : CredentialKind → String
credential_kind_name app_installation = "app_installation"
credential_kind_name integration = "integration"
credential_kind_name webhook = "webhook"
credential_kind_name api_key = "api_key"
credential_kind_name deploy_key = "deploy_key"
credential_kind_name oauth_grant = "oauth_grant"
credential_kind_name service_account = "service_account"
credential_kind_name no_kind = ""

abbrev pub reach_all : String
reach_all = "all"

abbrev pub reach_unknown : String
reach_unknown = ""

pub record Credential : Type 0 where
  pub provider : String
  pub kind : CredentialKind
  pub id : String
  pub label : String
  pub created_at : Option ℕ
  pub created_by : String
  pub last_used_at : Option ℕ
  pub scopes : List String
  pub privileged_scopes : List String
  pub reach : String
  pub disabled : Bool
  pub disabled_at : Option ℕ
  pub metadata : Dict String

pub data CredentialClass : Type 0 where
  orphaned dormant unowned external live : CredentialClass

pub record ClassifiedCredential : Type 0 where
  pub credential : Credential
  pub class : CredentialClass
  pub reason : String
  pub overreaching : Bool
  pub reach_reason : String

pub record ClassifyCredentialsInput : Type 0 where
  pub credentials : List Credential
  pub directory : Option (Dict DirectoryUser)
  pub domain : String
  pub alias_index : Option (Dict String)

-- The layout "2006-01-02" of a date is a function of the instant, given from outside.
module _ (format_date : ℕ → String) where
  -- `sinceSuffix`
  since_suffix : Option ℕ → String
  since_suffix none = ""
  since_suffix (some t) = " since " <> format_date t

  -- The inner `switch`, on the directory's entry for the author.
  unfoldable pub author_verdict : String → Option DirectoryUser → CredentialClass × String
  author_verdict author none =
      (orphaned, author <> " is not in the directory, and this access outlived them")
  author_verdict author (some dir) =
      if dir.suspended
      then (orphaned, author <> " is suspended in the directory, and this access outlived them")
      else (live, "authorised by " <> (author <> ", a current employee"))

  -- The outer `switch`.
  unfoldable pub credential_verdict :
      String → Option (Dict DirectoryUser) → Credential → String → CredentialClass × String
  unfolding since_suffix author_verdict
  credential_verdict domain directory c author =
      if c.disabled
      then (
        dormant,
        "installed but switched off"
            <> (since_suffix c.disabled_at
                <> " — it still exists and any admin can switch it back on"),
      )
      else if author == "" || not (has_at author)
      then (unowned, "the provider does not report who authorised this")
      else if not (domain == "") && not (has_suffix author ("@" <> domain))
      then (external, "authorised from outside the corporate domain " <> domain)
      else elim directory [
        | none ↦ (
          unowned,
          "directory unavailable — cannot determine whether " <> (author <> " is still here"),
        )
        | some dir ↦ author_verdict author (lookup author dir)
      ]

  -- The body of the loop of `ClassifyCredentials`.
  unfoldable pub classify_credential : ClassifyCredentialsInput → Credential → ClassifiedCredential
  unfolding credential_verdict
  classify_credential input c =
      let author = resolve_alias input.alias_index c.created_by in
      let v = credential_verdict (normal_domain input.domain) input.directory c author in
      let over = c.reach == reach_all && ltb 0 (length c.privileged_scopes) in
      record {
        credential = c;
        class = v.0;
        reason = v.1;
        overreaching = over;
        reach_reason =
            if over
            then "write or admin access to every resource: " <> join ", " c.privileged_scopes
            else "";
      }

abbrev pub class_rank : CredentialClass → ℕ
class_rank orphaned = 0
class_rank external = 1
class_rank dormant = 2
class_rank unowned = 3
class_rank live = 4

-- The comparison of `sortCredentials` behind the ranks: by age, then by provider and label.
older : Option ℕ → Option ℕ → Bool → Bool
older (some s) (some t) rest = if nat_eq s t then rest else ltb s t
older (some s) none rest = true
older none (some t) rest = false
older none none rest = rest

unfoldable pub credential_less : ClassifiedCredential → ClassifiedCredential → Bool
unfolding older
credential_less a b =
    if not (nat_eq (class_rank a.class) (class_rank b.class))
    then ltb (class_rank a.class) (class_rank b.class)
    else older a.credential.created_at b.credential.created_at (
        if not (a.credential.provider == b.credential.provider)
        then str_lt a.credential.provider b.credential.provider
        else str_lt a.credential.label b.credential.label)

-- `ClassifyCredentials`
unfoldable pub classify_credentials :
    (ℕ → String) → ClassifyCredentialsInput → List ClassifiedCredential
unfolding credential_less
classify_credentials format_date input =
    sort_by credential_less (map (classify_credential format_date input) input.credentials)

pub record NonHumanIdentity : Type 0 where
  pub provider : String
  pub kind : CredentialKind
  pub id : String
  pub label : String
  pub creator : String
  pub scopes : List String
  pub privileged_scopes : List String
  pub reach : String
  pub last_used_known : Bool
  pub disabled : Bool
  pub owner_required : Bool
  pub dependency_unknown : Bool

abbrev pub needs_owner : CredentialClass → Bool
needs_owner orphaned = true
needs_owner unowned = true
needs_owner dormant = false
needs_owner external = false
needs_owner live = false

-- `CredentialToNHI`
unfoldable pub credential_to_nhi : ClassifiedCredential → NonHumanIdentity
credential_to_nhi c = record {
  provider = c.credential.provider;
  kind = c.credential.kind;
  id = c.credential.id;
  label = c.credential.label;
  creator = c.credential.created_by;
  scopes = c.credential.scopes;
  privileged_scopes = c.credential.privileged_scopes;
  reach = c.credential.reach;
  last_used_known = is_some c.credential.last_used_at;
  disabled = c.credential.disabled;
  owner_required = needs_owner c.class;
  dependency_unknown = c.credential.reach == reach_unknown;
}
