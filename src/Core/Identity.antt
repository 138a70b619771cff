-- ===== src/Core/Identity.antt =====
-- internal/core/identity.go: an identifier resolved to a canonical identity, with the quality of
-- every match. A map of slices is a list of entries here, visited in its order.
pub mod Laws
use unseat.Base.{
  ℕ, suc, String, ◌<>◌, List, [], ◌∷◌, ◌++◌, Bool, true, false, not, ◌&&◌, ◌||◌, Option, none, some,
  ◌==◌, if◌then◌else◌, normal, equal_fold, has_at, before_at, any, keep, length, map, is_some, ltb,
}
use unseat.Base.Dict.{Dict, lookup, insert, has_key}
use unseat.Base.Sorting.{str_lt, sort_by, sort_strings}
use unseat.Core.Types.{User}
use unseat.Core.Alias.{build_alias_index, resolve_alias}

pub data LinkType : Type 0 where
  directory_primary directory_alias explicit_mapping provider_email : LinkType
  provider_username personal_email : LinkType

unfoldable pub link_type_name : LinkType → String
link_type_name directory_primary = "directory_primary"
link_type_name directory_alias = "directory_alias"
link_type_name explicit_mapping = "explicit_mapping"
link_type_name provider_email = "provider_verified_email"
link_type_name provider_username = "provider_username_match"
link_type_name personal_email = "personal_email_match"

pub data Confidence : Type 0 where
  strong weak unknown : Confidence

unfoldable pub confidence_name : Confidence → String
confidence_name strong = "strong"
confidence_name weak = "weak"
confidence_name unknown = "unknown"

pub data ResolutionStatus : Type 0 where
  matched unmatched ambiguous : ResolutionStatus

pub record IdentityLink : Type 0 where
  pub raw_identifier : String
  pub canonical_email : String
  pub type : LinkType
  pub confidence : Confidence
  pub status : ResolutionStatus
  pub reason : String
  pub evidence_ids : List String

pub record CanonicalIdentity : Type 0 where
  pub primary_email : String
  pub directory_status : String
  pub employment_source : String
  pub aliases : List String
  pub confidence : Confidence
  pub status : ResolutionStatus
  pub links : List IdentityLink

pub record ResolveIdentityInput : Type 0 where
  pub subject : String
  pub directory : List User
  pub aliases : Dict (List String)
  pub provider_users : Dict (List User)

abbrev pub is_matched : ResolutionStatus → Bool
is_matched matched = true
is_matched unmatched = false
is_matched ambiguous = false

abbrev pub is_ambiguous : ResolutionStatus → Bool
is_ambiguous ambiguous = true
is_ambiguous matched = false
is_ambiguous unmatched = false

-- `CanonicalIdentity.Matches`
unfoldable pub matches : CanonicalIdentity → String → Bool
unfolding any
matches id raw =
    let r = normal raw in
    if r == ""
    then false
    else if r == id.primary_email
    then true
    else if any (λ alias. equal_fold r alias) id.aliases
    then true
    else any (λ link. is_matched link.status && equal_fold r link.raw_identifier) id.links

-- `CanonicalIdentity.AmbiguousMatch`
unfoldable pub ambiguous_match : CanonicalIdentity → String → Bool
unfolding any
ambiguous_match id raw =
    let r = normal raw in
    if r == ""
    then false
    else any (λ link. is_ambiguous link.status && equal_fold r link.raw_identifier) id.links

-- `explicitAliasIndex`
alias_entries : String → List String → Dict String → Dict String
alias_entries canonical [] m = m
alias_entries canonical (alias ∷ values) m =
    alias_entries canonical values (insert (normal alias) canonical m)

explicit_alias_index_onto : Dict (List String) → Dict String → Dict String
explicit_alias_index_onto [] m = m
explicit_alias_index_onto ((canonical, values) ∷ rest) m =
    explicit_alias_index_onto rest (alias_entries (normal canonical) values m)

unfoldable pub explicit_alias_index : Dict (List String) → Dict String
unfolding explicit_alias_index_onto alias_entries
explicit_alias_index aliases = explicit_alias_index_onto aliases []

-- The directory, keyed by normalised address.
index_directory : Dict User → List User → Dict User
index_directory m [] = m
index_directory m (u ∷ us) = index_directory (insert (normal u.email) u m) us

-- `localPart`: "" where there is no `@`.
unfoldable pub local_part : String → String
local_part email = elim (before_at email) [ none ↦ "" | some local ↦ local ]

link_of : String → String → LinkType → Confidence → ResolutionStatus → String → IdentityLink
link_of raw primary type confidence status reason = record {
  raw_identifier = raw;
  canonical_email = primary;
  type = type;
  confidence = confidence;
  status = status;
  reason = reason;
  evidence_ids = [];
}

-- The first branch of `resolveProviderUserLink`: the alias index gives the subject's address.
canonical_link : String → String → String → Dict String → IdentityLink
unfolding link_of
canonical_link provider raw primary index =
    if not (has_at raw) && not (raw == primary)
    then (if has_key raw index
        then link_of raw primary provider_username strong matched
            (provider <> ": provider username matched an explicit or generated alias")
        else link_of raw primary provider_username weak matched
            (provider <> ": provider username resembles the identity"))
    else if raw == primary
    then link_of raw primary provider_email strong matched
        (provider <> ": provider reported the canonical email")
    else link_of raw primary explicit_mapping strong matched
        (provider <> ": provider identifier matched an alias")

-- `resolveProviderUserLink`
unfoldable pub resolve_provider_user_link :
    String → User → String → Dict String → Option IdentityLink
unfolding canonical_link
resolve_provider_user_link provider u primary index =
    let raw = normal u.email in
    if raw == ""
    then none
    else if resolve_alias (some index) raw == primary
    then some (canonical_link provider raw primary index)
    else if has_at raw && local_part raw == local_part primary
    then some (
        link_of raw primary personal_email weak ambiguous
          (provider <> ": external address local part matches the subject; requires confirmation"))
    else none

links_of_users : String → String → Dict String → List User → List IdentityLink
links_of_users provider primary index [] = []
links_of_users provider primary index (u ∷ us) =
    let rest = links_of_users provider primary index us in
    elim (resolve_provider_user_link provider u primary index) [
      | none ↦ rest
      | some link ↦ link ∷ rest
    ]

-- The loop over the providers' users.
unfoldable pub provider_links : String → Dict String → Dict (List User) → List IdentityLink
unfolding links_of_users
provider_links primary index [] = []
provider_links primary index ((name, users) ∷ rest) =
    links_of_users name primary index users ++ provider_links primary index rest

abbrev pub is_strong : IdentityLink → Bool
is_strong link = elim link.confidence [ strong ↦ true | _ ↦ false ]

abbrev pub is_weak : IdentityLink → Bool
is_weak link = elim link.confidence [ weak ↦ true | _ ↦ false ]

-- The comparison of `sortIdentityLinks`.
link_less : IdentityLink → IdentityLink → Bool
link_less a b =
    if not (confidence_name a.confidence == confidence_name b.confidence)
    then str_lt (confidence_name a.confidence) (confidence_name b.confidence)
    else if not (link_type_name a.type == link_type_name b.type)
    then str_lt (link_type_name a.type) (link_type_name b.type)
    else str_lt a.raw_identifier b.raw_identifier

-- The subject's address: the one that an explicit alias maps it to, or itself.
unfoldable pub primary_of : ResolveIdentityInput → String
primary_of input = elim (lookup (normal input.subject) (explicit_alias_index input.aliases)) [
  | some canonical ↦ canonical
  | none ↦ normal input.subject
]

-- The link of a subject that is an explicit alias.
alias_link : ResolveIdentityInput → List IdentityLink
unfolding link_of
alias_link input = elim (lookup (normal input.subject) (explicit_alias_index input.aliases)) [
  | some canonical ↦
      link_of (normal input.subject) canonical explicit_mapping strong matched
        "subject matched an explicit alias"
      ∷ []
  | none ↦ []
]

-- The link of an address that the directory holds.
directory_link : ResolveIdentityInput → List IdentityLink
unfolding link_of
directory_link input =
    let primary = primary_of input in
    if has_key primary (index_directory [] input.directory)
    then link_of primary primary directory_primary strong matched
        "identity source reports this primary email"
      ∷ []
    else []

-- The index over the configured aliases and the addresses of the directory.
known_index : ResolveIdentityInput → Dict String
unfolding index_directory
known_index input =
    build_alias_index input.aliases (map (λ (e, _). e) (index_directory [] input.directory))

-- The links in the order in which the function appends them.
unfoldable pub collected_links : ResolveIdentityInput → List IdentityLink
unfolding alias_link directory_link known_index provider_links
collected_links input =
    alias_link input
    ++ (directory_link input
        ++ provider_links (primary_of input) (known_index input) input.provider_users)

-- The status and the confidence of the identity, from its links. The weak links are all found among
-- the providers' users.
unfoldable pub judge : List IdentityLink → ResolutionStatus × Confidence
judge links =
    if ltb 0 (length (keep is_weak links)) && not (ltb 0 (length (keep is_strong links)))
    then (ambiguous, weak)
    else if ltb 0 (length links)
    then (matched, strong)
    else (unmatched, unknown)

-- `ResolveCanonicalIdentity`
unfoldable pub resolve_canonical_identity : ResolveIdentityInput → CanonicalIdentity
unfolding judge link_less index_directory
resolve_canonical_identity input =
    let primary = primary_of input in
    let links = collected_links input in
    record {
      primary_email = primary;
      directory_status = elim (lookup primary (index_directory [] input.directory)) [
        | none ↦ ""
        | some u ↦ u.status
      ];
      employment_source = "directory";
      aliases = sort_strings (elim (lookup primary input.aliases) [ none ↦ [] | some l ↦ l ]);
      confidence = (judge links).1;
      status = (judge links).0;
      links = sort_by link_less links;
    }
