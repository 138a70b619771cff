-- ===== src/Core/Credentials/Summary.antt =====
-- internal/core/credential.go: the counts of the credentials of one provider.
use unseat.Base.{
  ℕ, ◌+◌, String, List, [], ◌∷◌, Bool, true, false, arith, ◌≡◌, refl, if◌then◌else◌, keep, length,
  count_of,
}
use unseat.Core.Credentials.{
  CredentialClass, orphaned, dormant, unowned, external, live, ClassifiedCredential,
}

pub record CredentialSummary : Type 0 where
  pub provider : String
  pub orphaned_count : ℕ
  pub dormant_count : ℕ
  pub unowned_count : ℕ
  pub external_count : ℕ
  pub live_count : ℕ
  pub overreaching_count : ℕ
  pub total : ℕ
  pub usage_known : Bool

-- The body of the loop of `SummarizeCredentials`.
unfoldable pub tally_credential : CredentialSummary → ClassifiedCredential → CredentialSummary
tally_credential s c =
    let s' =
      if c.overreaching then record s { overreaching_count = s.overreaching_count + 1 } else s in
    elim c.class [
      | orphaned ↦ record s' { orphaned_count = s'.orphaned_count + 1 }
      | dormant ↦ record s' { dormant_count = s'.dormant_count + 1 }
      | unowned ↦ record s' { unowned_count = s'.unowned_count + 1 }
      | external ↦ record s' { external_count = s'.external_count + 1 }
      | live ↦ record s' { live_count = s'.live_count + 1 }
    ]

unfoldable pub tally_credentials : CredentialSummary → List ClassifiedCredential → CredentialSummary
tally_credentials s [] = s
tally_credentials s (c ∷ cs) = tally_credentials (tally_credential s c) cs

abbrev pub no_credentials : String → ℕ → Bool → CredentialSummary
no_credentials provider total usage_known = record {
  provider = provider;
  orphaned_count = 0;
  dormant_count = 0;
  unowned_count = 0;
  external_count = 0;
  live_count = 0;
  overreaching_count = 0;
  total = total;
  usage_known = usage_known;
}

-- `SummarizeCredentials`
unfoldable pub summarize_credentials : String → List ClassifiedCredential → Bool → CredentialSummary
unfolding tally_credentials tally_credential
summarize_credentials provider cs usage_known =
    tally_credentials (no_credentials provider (length cs) usage_known) cs

-- The credentials of one class.
abbrev pub in_class : CredentialClass → ClassifiedCredential → Bool
in_class orphaned c = elim c.class [ orphaned ↦ true | _ ↦ false ]
in_class dormant c = elim c.class [ dormant ↦ true | _ ↦ false ]
in_class unowned c = elim c.class [ unowned ↦ true | _ ↦ false ]
in_class external c = elim c.class [ external ↦ true | _ ↦ false ]
in_class live c = elim c.class [ live ↦ true | _ ↦ false ]

-- What the loop adds to each count.
abbrev Added : CredentialSummary → List ClassifiedCredential → CredentialSummary → Type 0
Added s cs t =
    (t.orphaned_count ≡ s.orphaned_count + count_of (in_class orphaned) cs)
    × (t.dormant_count ≡ s.dormant_count + count_of (in_class dormant) cs)
    × (t.unowned_count ≡ s.unowned_count + count_of (in_class unowned) cs)
    × (t.external_count ≡ s.external_count + count_of (in_class external) cs)
    × (t.live_count ≡ s.live_count + count_of (in_class live) cs)
    × (t.overreaching_count ≡ s.overreaching_count + count_of (λ c. c.overreaching) cs)
    × (t.total ≡ s.total)

tally_credentials-Added :
    (s : CredentialSummary) (cs : List ClassifiedCredential) → Added s cs (tally_credentials s cs)
unfolding tally_credentials tally_credential keep
tally_credentials-Added s [] = omega arith
tally_credentials-Added s (c ∷ cs) =
    ground (arith, tally_credentials-Added (tally_credential s c) cs)

credential_classes_add_up :
    (cs : List ClassifiedCredential)
    → count_of (in_class orphaned) cs
        + count_of (in_class dormant) cs
        + count_of (in_class unowned) cs
        + count_of (in_class external) cs
        + count_of (in_class live) cs
      ≡ length cs
unfolding keep
credential_classes_add_up [] = refl
credential_classes_add_up (c ∷ cs) = ground (arith, credential_classes_add_up cs)

-- Each count of a credential summary is the number of credentials of its class, the overreaching
-- count that of the overreaching ones whatever their class, and the five classes add up to the
-- total, the number of credentials.
pub summarize_credentials_lem :
    (provider : String) (cs : List ClassifiedCredential) (usage_known : Bool)
    → let s = summarize_credentials provider cs usage_known in
      (s.orphaned_count ≡ count_of (in_class orphaned) cs)
      × (s.dormant_count ≡ count_of (in_class dormant) cs)
      × (s.unowned_count ≡ count_of (in_class unowned) cs)
      × (s.external_count ≡ count_of (in_class external) cs)
      × (s.live_count ≡ count_of (in_class live) cs)
      × (s.overreaching_count ≡ count_of (λ c. c.overreaching) cs)
      × (s.total ≡ length cs)
      × (s.orphaned_count + s.dormant_count + s.unowned_count + s.external_count + s.live_count
          ≡ s.total)
unfolding summarize_credentials
summarize_credentials_lem provider cs usage_known = omega (
  arith,
  tally_credentials-Added (no_credentials provider (length cs) usage_known) cs,
  credential_classes_add_up cs,
)
