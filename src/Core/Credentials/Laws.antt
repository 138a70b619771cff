-- ===== src/Core/Credentials/Laws.antt =====
-- The verdicts on credentials, and the order in which they are reported.
use unseat.Base.{
  ℕ, ◌≤◌, String, true, false, not, ◌&&◌, ◌==◌, arith, ◌≡◌, refl, if◌then◌else◌, has_at, map, ltb,
  length, eq_iff, has_at_empty,
}
use mathlib.Core.List.{Perm}
use unseat.Base.Sorting.{sort_by-perm, Ranked, sort_by-Ranked}
use unseat.Core.Alias.{resolve_alias}
use unseat.Core.Seats.{normal_domain}
use unseat.Core.Seats.Laws.{has_left, is_active, is_internal}
use unseat.Core.Credentials.{
  Credential, CredentialClass, orphaned, dormant, unowned, external, live, ClassifiedCredential,
  ClassifyCredentialsInput, classify_credential, classify_credentials, reach_all, class_rank,
  credential_less,
}

-- The class by rule: switched off first, whoever made it; then an author that is no address; then
-- the domain; then the directory, which must have been read.
abbrev pub expected_class : ClassifyCredentialsInput → Credential → String → CredentialClass
expected_class input c author =
    if c.disabled
    then dormant
    else if not (has_at author)
    then unowned
    else if not (is_internal (normal_domain input.domain) author)
    then external
    else if has_left input.directory author
    then orphaned
    else if is_active input.directory author
    then live
    else unowned

-- A credential has the class of the rules, for its author with aliases resolved, and is marked as
-- overreaching exactly when it reaches everything with some privileged scope, whatever its class.
pub classify_credential_lem :
    (format_date : ℕ → String) (input : ClassifyCredentialsInput) (c : Credential)
    → let cc = classify_credential format_date input c in
      let author = resolve_alias input.alias_index c.created_by in
      (cc.class ≡ expected_class input c author)
      × (cc.overreaching ≡ (c.reach == reach_all && ltb 0 (length c.privileged_scopes)))
      × (cc.credential ≡ c)
unfolding classify_credential
classify_credential_lem format_date input c = (
  ground (arith, eq_iff (resolve_alias input.alias_index c.created_by) "", has_at_empty),
  refl,
  refl,
)

-- The order in which a report shows the classes.
abbrev pub shown_at : CredentialClass → ℕ
shown_at orphaned = 0
shown_at external = 1
shown_at dormant = 2
shown_at unowned = 3
shown_at live = 4

shown_at-class_rank : (c : CredentialClass) → shown_at c ≡ class_rank c
shown_at-class_rank c = ground arith

less_rank :
    (a b : ClassifiedCredential) → credential_less a b ≡ true → shown_at a.class ≤ shown_at b.class
unfolding credential_less
less_rank a b h = ground (arith, shown_at-class_rank a.class, shown_at-class_rank b.class)

not_less_rank :
    (a b : ClassifiedCredential) → credential_less a b ≡ false → shown_at b.class ≤ shown_at a.class
unfolding credential_less
not_less_rank a b h = ground (arith, shown_at-class_rank a.class, shown_at-class_rank b.class)

-- The report holds each credential as often as the inventory, with its verdict, and the classes come
-- in the order orphaned, external, dormant, unowned, live.
pub classify_credentials_lem :
    (format_date : ℕ → String) (input : ClassifyCredentialsInput)
    → Perm
        (classify_credentials format_date input)
        (map (classify_credential format_date input) input.credentials)
      × Ranked (λ cc. shown_at cc.class) (classify_credentials format_date input)
unfolding classify_credentials
classify_credentials_lem format_date input = (
  sort_by-perm credential_less _,
  sort_by-Ranked (λ cc. shown_at cc.class) credential_less less_rank not_less_rank
      (map (classify_credential format_date input) input.credentials),
)
