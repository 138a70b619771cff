-- ===== src/Offboarding/Report.antt =====
-- What internal/offboarding/offboarding.go reads from one provider's inventory: the person's seats,
-- the credentials and the billing, with what stays unknown.
use unseat.Base.{
  ℕ, String, ◌<>◌, List, [], ◌∷◌, ◌++◌, Bool, true, false, not, ◌&&◌, ◌||◌, Option, none, some,
  ◌==◌, if◌then◌else◌, ltb, length, count_of, keep,
}
use unseat.Base.Decimal.{decimal}
use unseat.Base.Dict.{Dict}
use unseat.Core.Objects.{ActionCapability}
use unseat.Core.Types.{User}
use unseat.Core.Seats.{DirectoryUser, ClassifiedSeat}
use unseat.Core.Identity.{CanonicalIdentity, matches, ambiguous_match}
use unseat.Core.Credentials.{
  Credential, CredentialClass, ClassifiedCredential, classify_credentials,
}
use unseat.Core.Billing.{BillingSnapshot, BillingSource, BillingConfidence}
use unseat.Offboarding.Inventory.{ProviderInventory}

-- What comes from outside: SHA-256, the texts of times, and the hashes of what is evidence.
pub record Outside : Type 0 where
  pub sha256_hex : String → String
  pub format_date : ℕ → String
  pub format_time : ℕ → String
  pub hash_users : List User → String
  pub hash_actions : List ActionCapability → String
  pub hash_credentials : List Credential → String
  pub hash_billing : BillingSnapshot → String

-- What is the same for every provider of a run.
pub record RunContext : Type 0 where
  pub subject : CanonicalIdentity
  pub tenant_id : String
  pub actor : String
  pub now : ℕ
  pub domain : String
  pub directory : Dict DirectoryUser
  pub alias_index : Dict String

-- `filterSubjectSeats`
unfoldable pub filter_subject_seats : CanonicalIdentity → List ClassifiedSeat → List ClassifiedSeat
filter_subject_seats subject seats =
    keep
      (λ seat.
        (matches subject seat.email || matches subject seat.raw_email)
        || (ambiguous_match subject seat.email || ambiguous_match subject seat.raw_email))
      seats

abbrev pub is_unowned : CredentialClass → Bool
is_unowned CredentialClass.unowned = true
is_unowned _ = false

-- The cases of the `switch` of `providerCredentials`.
unfoldable pub without_owner : ClassifiedCredential → Bool
without_owner c = c.credential.created_by == "" && is_unowned c.class

unfoldable pub owned_by : CanonicalIdentity → ClassifiedCredential → Bool
unfolding without_owner
owned_by subject c = not (without_owner c) && matches subject c.credential.created_by

unfoldable pub perhaps_owned_by : CanonicalIdentity → ClassifiedCredential → Bool
unfolding without_owner owned_by
perhaps_owned_by subject c =
    not (without_owner c || owned_by subject c) && ambiguous_match subject c.credential.created_by

unfoldable pub note_count : ℕ → String → List String
note_count n text = if ltb 0 n then (decimal n <> text) ∷ [] else []

module _ (out : Outside) (run : RunContext) where
  -- The credentials of `providerCredentials`, once they were read.
  unfoldable pub inventory_credentials : ProviderInventory → List ClassifiedCredential
  inventory_credentials inv = classify_credentials out.format_date (record {
    credentials = inv.credentials;
    directory = some run.directory;
    domain = run.domain;
    alias_index = some run.alias_index;
  })

  subject_credentials : List ClassifiedCredential → List ClassifiedCredential
  unfolding without_owner owned_by perhaps_owned_by
  subject_credentials classified =
      keep (λ c. without_owner c || (owned_by run.subject c || perhaps_owned_by run.subject c))
        classified

  credential_unknowns : ProviderInventory → List ClassifiedCredential → List String
  unfolding without_owner owned_by perhaps_owned_by note_count
  credential_unknowns inv classified =
      inv.credential_warnings
      ++ (note_count (count_of without_owner classified)
            " non-human identity credential(s) have no provider-reported owner"
          ++ (note_count (count_of (perhaps_owned_by run.subject) classified)
                " non-human identity credential(s) have ambiguous ownership for this subject"
              ++ (if not inv.capabilities.reports_credential_usage && ltb 0 (length classified)
                  then "provider does not report credential last-use timestamps" ∷ []
                  else [])))

  -- `providerCredentials`
  unfoldable pub provider_credentials : ProviderInventory → List ClassifiedCredential × List String
  unfolding inventory_credentials subject_credentials credential_unknowns
  provider_credentials inv =
      if not inv.credentials_supported
      then ([], "provider connector does not expose non-human identity inventory" ∷ [])
      else elim inv.credentials_err [
        | some why ↦ ([], ("non-human identity inventory unavailable: " <> why) ∷ [])
        | none ↦
            let classified = inventory_credentials inv in
            (subject_credentials classified, credential_unknowns inv classified)
      ]

  unavailable_billing : String → String → BillingSnapshot
  unavailable_billing name why = record {
    provider = name;
    account_id = "";
    fetched_at = some run.now;
    plan = "";
    billed_seats = none;
    filled_seats = none;
    monthly_amount_minor = none;
    cost_per_seat_minor = none;
    currency = "";
    line_items = [];
    source = BillingSource.unavailable;
    confidence = BillingConfidence.unavailable;
    unavailable_reason = why;
    period_start = none;
    period_end = none;
    next_billing_at = none;
  }

  -- `providerBilling`: the snapshot, and what is unknown or nothing.
  unfoldable pub provider_billing : ProviderInventory → Option BillingSnapshot × List String
  unfolding unavailable_billing
  provider_billing inv =
      if not inv.billing_supported
      then (none, "provider connector does not expose billing API data" ∷ [])
      else elim inv.billing_err [
        | some cause ↦
            let why = "billing API unavailable or missing scope: " <> cause in
            (some (unavailable_billing inv.name why), why ∷ [])
        | none ↦ elim inv.billing [
          | none ↦
              let why : String = "provider billing API returned no subscription data" in
              (some (unavailable_billing inv.name why), why ∷ [])
          | some b ↦ (some b, [])
        ]
      ]
