-- ===== src/Offboarding/Laws.antt =====
-- What it takes for `RunObserve` of internal/offboarding/offboarding.go to call an offboarding
-- complete.
use text.Mathlib.TextLemmas.{append-eq-nil_iff}
use unseat.Base.{
  ℕ, String, ◌<>◌, List, [], ◌∷◌, ◌++◌, Bool, true, false, not, ◌&&◌, ◌||◌, Option, none, some,
  ◌==◌, ◌≡◌, ◌≢◌, refl, sym, ap, arith, any, any-append, keep, map, flat_map, is_some, All,
  All-append, inl, inr, ◌∙◌, Bool-cases, Option-cases, eq_iff,
}
use unseat.Base.Dict.{Dict, lookup}
use unseat.Base.Sorting.{str_lt, sort_by, sort_strings, any-sort_by}
use unseat.Core.Billing.{
  BillingSnapshot, BillingClaim, BillingClaimInput, build_billing_claims, saving_claim, seats_claim,
  procurement_claim, new_billing_claim, has_money,
}
use unseat.Base.Int64.{is_positive}
use unseat.Core.Billing.Laws.{claim_of, build_billing_claims-claim_of}
use unseat.Core.Decisions.{Decision, DecisionInput, collect, claim_decision, build_decisions}
use unseat.Core.Decisions.Laws.{Unapproved, build_decisions-Unapproved}
use unseat.Core.Certificate.{has_errors}
use unseat.Core.Certificate.Laws.{is_open}
use unseat.Config.{Exception}
use unseat.Offboarding.Inventory.{
  CredentialSource, no_source, inventory, listed, Connector, ProviderInventory, collect_provider,
}
use unseat.Offboarding.Desired.{Wanted, or_empty}
use unseat.Offboarding.Report.{Outside, RunContext, provider_credentials, provider_billing}
use unseat.Offboarding.Parts.{
  Part, provider_unknowns, leaves_unknown, claim_unknowns, report_unknowns, read_part, part_of,
}

-- A source of credentials that was read without an error.
unfoldable pub credentials_read : CredentialSource → Bool
credentials_read no_source = false
credentials_read (inventory credentials warnings error) = not (is_some error)
credentials_read (listed credentials error) = not (is_some error)

unfoldable pub billing_read : Option (Option BillingSnapshot × Option String) → Bool
billing_read none = false
billing_read (some (billing, error)) = is_some billing && not (is_some error)

-- A provider of which the users, the credentials and the billing were read without an error.
unfoldable pub read_fully : Connector → Bool
unfolding credentials_read billing_read
read_fully p =
    not (is_some p.list_users.1) && (credentials_read p.credentials && billing_read p.billing)

-- A text among a list of unknowns.
abbrev said : String → Bool
said u = not (u == "")

true-ne-false : true ≢ false
true-ne-false h = cc

cons-ne-nil {ℓ} : {A : Type ℓ} (x : A) (xs : List A) → x ∷ xs ≢ []
cons-ne-nil x xs h = cc

provider_unknowns-nil :
    (name : String) (us : List String) → provider_unknowns name us ≡ [] → any said us ≡ false
unfolding provider_unknowns keep any
provider_unknowns-nil name [] h = refl
provider_unknowns-nil name (u ∷ us) h = elim (Bool-cases (u == "")) [
  | inl e ↦ rw (e) (provider_unknowns-nil name us (rw (e) at h))
  | inr e ↦ absurd (cons-ne-nil (name <> (": " <> u)) (provider_unknowns name us) (rw (e) at h))
]

prefix-said : (p s : String) → said p ≡ true → said (p <> s) ≡ true
prefix-said p s h = elim (Bool-cases (p <> s == "")) [
  | inr e ↦ rw (e) refl
  | inl e ↦ absurd (true-ne-false (sym h ∙ rw ((append-eq-nil_iff.0 ((eq_iff _ _).0 e)).0) refl))
]

unavailable_said :
    (why : String) → said ("non-human identity inventory unavailable: " <> why) ≡ true
unavailable_said why = prefix-said _ why refl

missing_said : (why : String) → said ("billing API unavailable or missing scope: " <> why) ≡ true
missing_said why = prefix-said _ why refl

module _ (out : Outside) (run : RunContext) (inv : ProviderInventory) where
  provider_credentials-read :
      any said (provider_credentials out run inv).1 ≡ false
      → (inv.credentials_supported && not (is_some inv.credentials_err)) ≡ true
  unfolding provider_credentials any
  provider_credentials-read h = elim (Bool-cases inv.credentials_supported) [
    | inr e ↦ absurd (true-ne-false (rw (provider_credentials, e) at h))
    | inl e ↦ elim (Option-cases inv.credentials_err) [
      | inl none_due ↦ rw (e, none_due) refl
      | inr (why, due) ↦
          absurd (true-ne-false (rw (provider_credentials, e, due, unavailable_said why) at h))
    ]
  ]

  provider_billing-read :
      any said (provider_billing out run inv).1 ≡ false
      → (inv.billing_supported && (is_some inv.billing && not (is_some inv.billing_err))) ≡ true
  unfolding provider_billing any
  provider_billing-read h = elim (Bool-cases inv.billing_supported) [
    | inr e ↦ absurd (true-ne-false (rw (provider_billing, e) at h))
    | inl e ↦ elim (Option-cases inv.billing_err) [
      | inr (why, due) ↦
          absurd (true-ne-false (rw (provider_billing, e, due, missing_said why) at h))
      | inl none_due ↦ elim (Option-cases inv.billing) [
        | inl nothing ↦ absurd (true-ne-false (rw (provider_billing, e, none_due, nothing) at h))
        | inr (b, got) ↦ rw (e, none_due, got) refl
      ]
    ]
  ]

-- Whether all of a provider's inventory was read.
inventory_read : ProviderInventory → Bool
inventory_read inv =
    (not (is_some inv.provider_err) && not (is_some inv.user_err))
    && ((inv.credentials_supported && not (is_some inv.credentials_err))
        && (inv.billing_supported && (is_some inv.billing && not (is_some inv.billing_err))))

collect_provider-read :
    (registry : Dict Connector) (now : ℕ) (name : String)
    → inventory_read (collect_provider registry now name) ≡ true
    → (p : Connector) × (lookup name registry ≡ some p) × (read_fully p ≡ true)
unfolding collect_provider inventory_read read_fully
collect_provider-read registry now name h = elim (Option-cases (lookup name registry)) [
  | inl e ↦ absurd (true-ne-false (sym h ∙ rw (collect_provider, e) refl))
  | inr (p, e) ↦
      let read : read_fully p ≡ true = let h' = rw (collect_provider, e) at h in ground arith in
      (p, e, read)
]

claim_of-said :
    (sha256_hex : String → String) (provider subject : String) (seats : ℕ)
    (billing : Option BillingSnapshot)
    → let claim = claim_of sha256_hex (record {
      provider = provider;
      subject = subject;
      billing = billing;
      reclaimable_seat_count = seats;
    }) in
      leaves_unknown claim.type ≡ true → said claim.reason ≡ true
unfolding saving_claim seats_claim procurement_claim new_billing_claim
claim_of-said sha256_hex provider subject seats none h = refl
claim_of-said sha256_hex provider subject seats (some b) h =
    elim (Bool-cases (has_money b && is_positive seats)) [
      | inl e ↦ absurd (true-ne-false (sym (rw (e) at h)))
      | inr e ↦ elim (Bool-cases (is_some b.billed_seats)) [
        | inr f ↦ elim (Bool-cases (b.unavailable_reason == "")) [
          | inl g ↦ rw (e, f, g) refl
          | inr g ↦ rw (e, f, g, g) refl
        ]
        | inl f ↦ elim (Bool-cases (has_money b)) [
          | inl g ↦ absurd (true-ne-false (sym (rw (e, f, g) at h)))
          | inr g ↦ rw (e, f, g) refl
        ]
      ]
    ]

-- A claim states what is unknown, or leads to a decision.
claim-settles :
    (sha256_hex : String → String) (input : DecisionInput) (claim : BillingClaim)
    → (leaves_unknown claim.type ≡ true → said claim.reason ≡ true)
    → any said (claim_unknowns (claim ∷ [])) ≡ false
    → any (λ d. true) (collect (claim_decision sha256_hex input) (claim ∷ [])) ≡ true
unfolding claim_unknowns claim_decision collect any keep
claim-settles sha256_hex input claim speaks h = elim (Bool-cases (leaves_unknown claim.type)) [
  | inl e ↦ absurd (true-ne-false (sym (speaks e) ∙ ground arith))
  | inr e ↦ ground arith
]

claims-settle :
    (sha256_hex : String → String) (claimed : BillingClaimInput) (input : DecisionInput)
    → any said (claim_unknowns (build_billing_claims sha256_hex claimed)) ≡ false
    → any
        (λ d. true)
        (collect (claim_decision sha256_hex input) (build_billing_claims sha256_hex claimed))
      ≡ true
claims-settle sha256_hex claimed input h =
    let e = build_billing_claims-claim_of sha256_hex claimed in
    rw (e) (
      claim-settles sha256_hex input (claim_of sha256_hex claimed)
        (claim_of-said sha256_hex claimed.provider claimed.subject claimed.reclaimable_seat_count
          claimed.billing)
        (rw (e) at h))

any-third {ℓ} :
    {A : Type ℓ} (xs ys zs : List A)
    → any (λ x. true) zs ≡ true
    → any (λ x. true) (xs ++ (ys ++ zs)) ≡ true
any-third xs ys zs h =
    ground (arith, any-append (λ x. true) xs (ys ++ zs), any-append (λ x. true) ys zs)

silent-parts :
    (errs creds bills claims : List String)
    → any said (errs ++ (creds ++ (bills ++ claims))) ≡ false
    → (any said creds ≡ false) × (any said bills ≡ false) × (any said claims ≡ false)
silent-parts errs creds bills claims h = ground (
  arith,
  any-append said errs (creds ++ (bills ++ claims)),
  any-append said creds (bills ++ claims),
  any-append said bills claims,
)

module _ (out : Outside) (run : RunContext) (exceptions : List Exception) (wanted : Wanted) where
  -- A provider that leaves nothing unknown and reports no error was read.
  part_of-read :
      (inv : ProviderInventory)
      → (part_of out run exceptions wanted inv).unknowns ≡ []
      → has_errors (part_of out run exceptions wanted inv).report ≡ false
      → inventory_read inv ≡ true
  unfolding part_of read_part report_unknowns inventory_read
  part_of-read inv known fine = elim (Option-cases inv.provider_err) [
    | inr (why, e) ↦ absurd (true-ne-false (rw (part_of, e) at fine))
    | inl registered ↦ elim (Option-cases inv.user_err) [
      | inr (why, e) ↦ absurd (true-ne-false (rw (part_of, registered, e) at fine))
      | inl listed_users ↦
          let silent =
            provider_unknowns-nil inv.name (report_unknowns out run exceptions wanted inv)
              (rw (part_of, registered, listed_users) at known) in
          let (creds_silent, bills_silent, claims_silent) =
            silent-parts (or_empty (lookup inv.name wanted.errs))
              (provider_credentials out run inv).1 (provider_billing out run inv).1 _ silent in
          ground (
            arith,
            provider_credentials-read out run inv creds_silent,
            provider_billing-read out run inv bills_silent,
          )
    ]
  ]

  -- Such a provider leads to a decision, since the one claim about its billing does, or it leaves
  -- something unknown.
  part_of-decides :
      (inv : ProviderInventory)
      → (part_of out run exceptions wanted inv).unknowns ≡ []
      → has_errors (part_of out run exceptions wanted inv).report ≡ false
      → any (λ d. true) (part_of out run exceptions wanted inv).decisions ≡ true
  unfolding part_of read_part report_unknowns build_decisions
  part_of-decides inv known fine = elim (Option-cases inv.provider_err) [
    | inr (why, e) ↦ absurd (true-ne-false (rw (part_of, e) at fine))
    | inl registered ↦ elim (Option-cases inv.user_err) [
      | inr (why, e) ↦ absurd (true-ne-false (rw (part_of, registered, e) at fine))
      | inl listed_users ↦
          let silent =
            provider_unknowns-nil inv.name (report_unknowns out run exceptions wanted inv)
              (rw (part_of, registered, listed_users) at known) in
          let (creds_silent, bills_silent, claims_silent) =
            silent-parts (or_empty (lookup inv.name wanted.errs))
              (provider_credentials out run inv).1 (provider_billing out run inv).1 _ silent in
          rw (part_of, registered, listed_users)
            (any-third _ _ _ (claims-settle out.sha256_hex _ _ claims_silent))
    ]
  ]

  part_of-Unapproved :
      (inv : ProviderInventory) → All Unapproved (part_of out run exceptions wanted inv).decisions
  unfolding part_of read_part
  part_of-Unapproved inv = elim (Option-cases inv.provider_err) [
    | inr (why, e) ↦ rw (part_of, e) tt
    | inl registered ↦ elim (Option-cases inv.user_err) [
      | inr (why, e) ↦ rw (part_of, registered, e) tt
      | inl listed_users ↦
          rw (part_of, registered, listed_users) (build_decisions-Unapproved out.sha256_hex _)
    ]
  ]

pub append-is-nil {ℓ} : {A : Type ℓ} (xs ys : List A) → xs ++ ys ≡ [] → (xs ≡ []) × (ys ≡ [])
append-is-nil [] ys h = (refl, h)
append-is-nil (x ∷ xs) ys h = absurd (cons-ne-nil x (xs ++ ys) h)

pub any-nil {ℓ} : {A : Type ℓ} (xs : List A) → any (λ x. true) xs ≡ false → xs ≡ []
unfolding any
any-nil [] h = refl
any-nil (x ∷ xs) h = absurd (true-ne-false h)

-- Only the empty list is sorted to the empty list.
sort_by-nil {ℓ} : {A : Type ℓ} (less : A → A → Bool) (xs : List A) → sort_by less xs ≡ [] → xs ≡ []
unfolding any
sort_by-nil less xs h = any-nil xs (sym (any-sort_by less (λ x. true) xs) ∙ ap (any (λ x. true)) h)

pub sort_strings-nil : (xs : List String) → sort_strings xs ≡ [] → xs ≡ []
unfolding sort_strings
sort_strings-nil xs h = sort_by-nil str_lt xs h

-- Without an open decision there is none, where nobody has approved or rejected one.
pub any-is_open : (ds : List Decision) → All Unapproved ds → any is_open ds ≡ false → ds ≡ []
unfolding any
any-is_open [] h k = refl
any-is_open (d ∷ ds) h k = elim h.0.0 [
  | inl e ↦ absurd (true-ne-false (rw (any, e) at k))
  | inr e ↦ absurd (true-ne-false (rw (any, e) at k))
]

module _ (out : Outside) (run : RunContext) (exceptions : List Exception) (wanted : Wanted)
    (registry : Dict Connector) (now : ℕ) where
  abbrev part_at : String → Part
  part_at name = part_of out run exceptions wanted (collect_provider registry now name)

  abbrev pub parts_of : List String → List Part
  parts_of names =
      map (part_of out run exceptions wanted) (map (collect_provider registry now) names)

  -- Each provider of a list was read, where none leaves anything unknown or reports an error.
  pub parts-read :
      (names : List String)
      → flat_map (λ p. p.unknowns) (parts_of names) ≡ []
      → any has_errors (map (λ p. p.report) (parts_of names)) ≡ false
      → All
          (λ name. (p : Connector) × (lookup name registry ≡ some p) × (read_fully p ≡ true))
          names
  unfolding flat_map any
  parts-read [] known fine = tt
  parts-read (name ∷ names) known fine =
      let (here, there) = append-is-nil (part_at name).unknowns _ known in
      (
        collect_provider-read registry now name (
            part_of-read out run exceptions wanted (collect_provider registry now name) here
              (ground arith)),
        parts-read names there (ground arith),
      )

  pub parts-Unapproved :
      (names : List String) → All Unapproved (flat_map (λ p. p.decisions) (parts_of names))
  unfolding flat_map
  parts-Unapproved [] = tt
  parts-Unapproved (name ∷ names) =
      All-append Unapproved (part_at name).decisions _
        (part_of-Unapproved out run exceptions wanted (collect_provider registry now name))
        (parts-Unapproved names)

  -- There is a decision exactly where there is a provider.
  pub parts-decide :
      (names : List String)
      → flat_map (λ p. p.unknowns) (parts_of names) ≡ []
      → any has_errors (map (λ p. p.report) (parts_of names)) ≡ false
      → any (λ d. true) (flat_map (λ p. p.decisions) (parts_of names)) ≡ any (λ n. true) names
  unfolding flat_map any
  parts-decide [] known fine = refl
  parts-decide (name ∷ names) known fine =
      let (here, there) = append-is-nil (part_at name).unknowns _ known in
      any-append (λ d. true) (part_at name).decisions _
      ∙ ap (λ b. b || any (λ d. true) (flat_map (λ p. p.decisions) (parts_of names)))
          (part_of-decides out run exceptions wanted (collect_provider registry now name) here
            (ground arith))
