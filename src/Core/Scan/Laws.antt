-- ===== src/Core/Scan/Laws.antt =====
-- What `Scan` of internal/core/scan.go may price.
use unseat.Base.{
  ℕ, suc, zero, ◌≤◌, String, List, [], ◌∷◌, Bool, true, false, Option, none, some, ◌≡◌, refl, sym,
  ap, ◌∙◌, ◌⊎◌, inl, inr, length, take, All, Bool-cases, Option-cases, arith,
}
use unseat.Base.Int64.{add64, mul64}
use unseat.Base.Sorting.{place_in, sort_onto, sort_by, sort_strings, All-sort_by}
use unseat.Core.Types.{SuspendedBilling}
use unseat.Core.Billing.{BillingSnapshot, billed_seat_count, filled_seat_count}
use unseat.Core.Scan.{FindingKind, Finding, ScanInput, SeatLists, billing_unit_minor, completed}
use unseat.Core.Scan.Findings.{
  cap_subjects, priced, finding_of, suspended_finding, occupied_seats, over_provisioned,
  no_activity, sprawl, selected, guarded_findings, add_waste, total_waste, finding_before,
  scan_billing, scan_findings, scan_time, scan_domain, scan_seats, scan,
}

-- The kinds of finding that may carry a price, where suspended seats are billed as given.
abbrev pub may_price : SuspendedBilling → FindingKind → Bool
may_price SuspendedBilling.charged FindingKind.suspended_but_billed = true
may_price SuspendedBilling.released FindingKind.suspended_but_billed = false
may_price SuspendedBilling.unknown FindingKind.suspended_but_billed = false
may_price billing FindingKind.suspended_accounts = false
may_price billing FindingKind.external_identity = false
may_price billing FindingKind.admin_sprawl = false
may_price billing FindingKind.inactive = true
may_price billing FindingKind.no_activity_data = false
may_price billing FindingKind.billed_seats_unused = true

-- A finding of at most twenty subjects, which has no price, or is of a kind that may have one and
-- states its count at the price per seat of the vendor's snapshot.
pub record Justified (input : ScanInput) (f : Finding) : Type 0 where
  pub few : length f.subjects ≤ 20
  pub stated :
      (f.monthly_waste_minor ≡ none)
      ⊎ ((rate : ℕ) × (may_price input.suspended_billing f.kind ≡ true)
          × (billing_unit_minor input.billing ≡ some rate)
          × (f.monthly_waste_minor ≡ some (mul64 f.count rate)))

-- What holds of all guarded findings holds of those selected.
pub All-selected {κ} :
    (P : Finding → Type κ) (fs : List (Bool × Finding)) → All (λ p. P p.1) fs → All P (selected fs)
unfolding selected
All-selected P [] h = tt
All-selected P ((true, f) ∷ fs) h = (h.0, All-selected P fs h.1)
All-selected P ((false, f) ∷ fs) h = All-selected P fs h.1

length-take {ℓ} : {A : Type ℓ} (n : ℕ) (xs : List A) → length (take n xs) ≤ n
unfolding take
length-take zero xs = omega arith
length-take (suc n) [] = omega arith
length-take (suc n) (x ∷ xs) = omega (arith, length-take n xs)

length-cap_subjects : (labels : List String) → length (cap_subjects labels) ≤ 20
unfolding cap_subjects
length-cap_subjects labels = length-take 20 (sort_strings labels)

-- The order in which two findings are added up does not count.
add_waste-swap :
    (a b sum : Option ℕ) → add_waste a (add_waste b sum) ≡ add_waste b (add_waste a sum)
unfolding add_waste add64
add_waste-swap none b sum = refl
add_waste-swap (some m) none sum = refl
add_waste-swap (some m) (some n) none = ap some (omega arith)
add_waste-swap (some m) (some n) (some k) = ap some (omega arith)

total_waste-add :
    (w sum : Option ℕ) (fs : List Finding)
    → total_waste (add_waste w sum) fs ≡ add_waste w (total_waste sum fs)
unfolding total_waste
total_waste-add w sum [] = refl
total_waste-add w sum (f ∷ fs) =
    ap (λ t. total_waste t fs) (add_waste-swap f.monthly_waste_minor w sum)
    ∙ total_waste-add w (add_waste f.monthly_waste_minor sum) fs

module _ (less : Finding → Finding → Bool) where
  total_waste-place_in :
      (sum : Option ℕ) (x : Finding) (ys : List Finding)
      → total_waste sum (place_in less x ys) ≡ total_waste (add_waste x.monthly_waste_minor sum) ys
  unfolding total_waste place_in
  total_waste-place_in sum x [] = refl
  total_waste-place_in sum x (y ∷ ys) = elim (Bool-cases (less x y)) [
    | inl e ↦ rw (e) refl
    | inr e ↦ rw (e) (
        total_waste-place_in (add_waste y.monthly_waste_minor sum) x ys
        ∙ ap (λ t. total_waste t ys)
            (add_waste-swap x.monthly_waste_minor y.monthly_waste_minor sum))
  ]

  total_waste-sort_onto :
      (sum : Option ℕ) (sorted xs : List Finding)
      → total_waste sum (sort_onto less sorted xs) ≡ total_waste (total_waste sum sorted) xs
  unfolding total_waste sort_onto
  total_waste-sort_onto sum sorted [] = refl
  total_waste-sort_onto sum sorted (x ∷ xs) =
      total_waste-sort_onto sum (place_in less x sorted) xs
      ∙ ap (λ t. total_waste t xs)
          (total_waste-place_in sum x sorted ∙ total_waste-add x.monthly_waste_minor sum sorted)

module _ (input : ScanInput) (rate : Option ℕ)
    (vendor : billing_unit_minor input.billing ≡ rate) where
  unpriced-Justified :
      (f : Finding) → length f.subjects ≤ 20 → f.monthly_waste_minor ≡ none → Justified input f
  unpriced-Justified f few h = record { few = few; stated = inl h }

  priced-Justified :
      (f : Finding)
      → length f.subjects ≤ 20
      → f.monthly_waste_minor ≡ none
      → may_price input.suspended_billing f.kind ≡ true
      → Justified input (priced rate f)
  unfolding priced
  priced-Justified f few h may = elim (Option-cases rate) [
    | inl e ↦ rw (e) (record { few = few; stated = inl h })
    | inr (r, e) ↦ rw (e) (record { few = few; stated = inr (r, may, vendor ∙ e, refl) })
  ]

  suspended_finding-Justified :
      (labels : List String) (b : SuspendedBilling)
      → input.suspended_billing ≡ b
      → Justified input (suspended_finding b labels rate)
  unfolding suspended_finding finding_of
  suspended_finding-Justified labels SuspendedBilling.charged e =
      priced-Justified _ (length-cap_subjects labels) refl (rw (e) refl)
  suspended_finding-Justified labels SuspendedBilling.released e =
      unpriced-Justified _ (length-cap_subjects labels) refl
  suspended_finding-Justified labels SuspendedBilling.unknown e =
      unpriced-Justified _ (length-cap_subjects labels) refl

  guarded_findings-Justified :
      (domain : String) (s : SeatLists) (billed filled : ℕ)
      → All (λ p. Justified input p.1) (guarded_findings input domain s billed filled rate)
  unfolding guarded_findings finding_of over_provisioned no_activity sprawl occupied_seats
  guarded_findings-Justified domain s billed filled =
      let few = length-cap_subjects in
      let nobody : 0 ≤ 20 = omega arith in
      (
        priced-Justified _ nobody refl refl,
        (
          suspended_finding-Justified s.suspended _ refl,
          (
            priced-Justified _ (few s.inactive) refl refl,
            (
              unpriced-Justified _ (few s.external) refl,
              (unpriced-Justified _ (few s.admins) refl, (unpriced-Justified _ nobody refl, tt)),
            ),
          ),
        ),
      )

rate-scan_billing :
    (provider : String) (now : ℕ) (b : Option BillingSnapshot)
    → billing_unit_minor b ≡ billing_unit_minor (scan_billing provider now b)
unfolding billing_unit_minor completed scan_billing billed_seat_count
rate-scan_billing provider now none = refl
rate-scan_billing provider now (some b) = refl

scan_findings-Justified :
    (clock : ℕ) (input : ScanInput) → All (Justified input) (scan_findings clock input)
unfolding scan_findings
scan_findings-Justified clock input =
    let now = scan_time clock input in
    let billing = scan_billing input.provider now input.billing in
    let billed = billed_seat_count billing in
    let filled = filled_seat_count billing in
    let domain = scan_domain input in
    let s = scan_seats clock input in
    let rate = billing_unit_minor billing in
    All-selected (Justified input) (guarded_findings input domain s billed filled rate) (
      guarded_findings-Justified input rate (rate-scan_billing input.provider now input.billing)
        domain s billed filled)

-- Every finding of a scan names at most twenty subjects, and either states no amount or states its
-- count times the price per seat that the vendor's snapshot gives; only unused billed seats, inactive
-- seats, and suspended seats of a vendor known to charge for them may state one. What the scan says is
-- wasted is the sum of the amounts of its findings in the order in which they are shown, or unknown
-- where none states one.
pub scan-Justified :
    (clock : ℕ) (input : ScanInput)
    → let result = scan clock input in
      All (Justified input) result.findings
      × (result.monthly_waste_minor ≡ total_waste none result.findings)
unfolding scan sort_by
scan-Justified clock input = (
  All-sort_by finding_before (Justified input) (scan_findings clock input)
      (scan_findings-Justified clock input),
  sym (total_waste-sort_onto finding_before none [] (scan_findings clock input)),
)
