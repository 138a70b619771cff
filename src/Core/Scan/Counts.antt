-- ===== src/Core/Scan/Counts.antt =====
-- What the findings of `Scan` (internal/core/scan.go) count and name.
use Prim.Native.Nat.{◌^◌, ◌%◌}
use unseat.Base.{
  ℕ, ◌+◌, ◌-◌, String, List, [], ◌∷◌, Bool, false, not, Option, none, some, ◌≡◌, refl, ap, ◌∙◌,
  arith, length, keep, length-map, count_of, take, All, nat_eq, if◌then◌else◌,
}
use unseat.Base.Int64.{add64}
use unseat.Base.Sorting.{sort_strings, sort_by, sort_onto, All-sort_by}
use unseat.Core.Types.{User, SuspendedBilling}
use unseat.Core.Billing.{BillingSnapshot, billed_seat_count, filled_seat_count}
use unseat.Core.Scan.{
  FindingKind, Finding, ScanInput, SeatLists, no_seats, completed, billing_unit_minor,
}
use unseat.Core.Scan.Told.{
  suspended_user, outsider, privileged, idle, labels_of, Listed, scan_users-Listed,
}
use unseat.Core.Scan.Findings.{
  cap_subjects, priced, finding_of, suspended_finding, occupied_seats, over_provisioned,
  no_activity, sprawl, guarded_findings, finding_before, scan_billing, scan_findings, scan_time,
  scan_domain, scan_seats, scan,
}
use unseat.Core.Scan.Laws.{All-selected}

-- The users whom a kind of finding is about.
abbrev pub about : ScanInput → ℕ → String → FindingKind → User → Bool
about input now domain FindingKind.suspended_but_billed u = suspended_user u
about input now domain FindingKind.suspended_accounts u = suspended_user u
about input now domain FindingKind.external_identity u = outsider domain u
about input now domain FindingKind.admin_sprawl u = privileged u
about input now domain FindingKind.inactive u = idle input now u
about input now domain FindingKind.no_activity_data u = false
about input now domain FindingKind.billed_seats_unused u = false

-- The billed seats that nobody occupies, modulo 2 ^ 64: the vendor's count of filled seats decides
-- where it is not zero, and otherwise that of the users who are not suspended.
abbrev pub unused_seats : ScanInput → ℕ
unused_seats input =
    let filled = filled_seat_count input.billing in
    let occupied =
      if nat_eq filled 0 then count_of (λ u. not (suspended_user u)) input.users else filled in
    (billed_seat_count input.billing + (2 ^ 64 - occupied) % 2 ^ 64) % 2 ^ 64

abbrev pub expected_count : ScanInput → FindingKind → ℕ → ℕ
expected_count input FindingKind.billed_seats_unused users = unused_seats input
expected_count input kind users = users

-- A finding counts the users whom it is about, or the unused seats, and names the first twenty of the
-- users in the order of their labels.
pub record Told (input : ScanInput) (now : ℕ) (domain : String) (f : Finding) : Type 0 where
  pub counted :
      f.count ≡ expected_count input f.kind (count_of (about input now domain f.kind) input.users)
  pub named :
      f.subjects ≡ take 20 (sort_strings (labels_of (about input now domain f.kind) input.users))

nobody : (users : List User) → keep (λ (u : User). false) users ≡ []
unfolding keep
nobody [] = refl
nobody (u ∷ us) = nobody us

nobody-named :
    (users : List User) → [] ≡ take 20 (sort_strings (labels_of (λ (u : User). false) users))
unfolding sort_strings sort_by sort_onto take
nobody-named users = rw (nobody users) refl

nobody-counted : (users : List User) → 0 ≡ count_of (λ (u : User). false) users
nobody-counted users = rw (nobody users) refl

module _ (input : ScanInput) (now : ℕ) (domain : String) where
  priced-Told :
      (rate : Option ℕ) (f : Finding)
      → Told input now domain f
      → Told input now domain (priced rate f)
  unfolding priced
  priced-Told none f h = record { counted = h.counted; named = h.named }
  priced-Told (some rate) f h = record { counted = h.counted; named = h.named }

  count-labels :
      (test : User → Bool) (labels : List String)
      → labels ≡ labels_of test input.users
      → length labels ≡ count_of test input.users
  count-labels test labels h = ap length h ∙ length-map _ (keep test input.users)

  named-labels :
      (test : User → Bool) (labels : List String)
      → labels ≡ labels_of test input.users
      → cap_subjects labels ≡ take 20 (sort_strings (labels_of test input.users))
  unfolding cap_subjects
  named-labels test labels h = ap (λ l. take 20 (sort_strings l)) h

  suspended-Told :
      (b : SuspendedBilling) (labels : List String) (rate : Option ℕ)
      → labels ≡ labels_of suspended_user input.users
      → Told input now domain (suspended_finding b labels rate)
  unfolding suspended_finding finding_of
  suspended-Told SuspendedBilling.charged labels rate h = priced-Told rate _ (record {
    counted = count-labels suspended_user labels h;
    named = named-labels suspended_user labels h;
  })
  suspended-Told SuspendedBilling.released labels rate h = record {
    counted = count-labels suspended_user labels h;
    named = named-labels suspended_user labels h;
  }
  suspended-Told SuspendedBilling.unknown labels rate h = record {
    counted = count-labels suspended_user labels h;
    named = named-labels suspended_user labels h;
  }

  guarded_findings-Told :
      (s : SeatLists) (rate : Option ℕ)
      → Listed input now domain no_seats input.users s
      → All
          (λ p. Told input now domain p.1)
          (guarded_findings input domain s
            (billed_seat_count input.billing)
            (filled_seat_count input.billing)
            rate)
  unfolding guarded_findings finding_of over_provisioned no_activity sprawl occupied_seats add64
      cap_subjects sort_strings
  guarded_findings-Told s rate h =
      let active : s.active_count ≡ count_of (λ u. not (suspended_user u)) input.users =
        omega (arith, h.active_total) in
      let gap : (occupied_seats (billed_seat_count input.billing) (filled_seat_count input.billing)
            s.active_count).1
          ≡ unused_seats input =
        rw (active) refl in
      (
        priced-Told rate _ (record { counted = gap; named = nobody-named input.users }),
        (
          suspended-Told input.suspended_billing s.suspended rate h.suspended_exact,
          (
            priced-Told rate _ (record {
              counted = count-labels (idle input now) s.inactive h.inactive_exact;
              named = named-labels (idle input now) s.inactive h.inactive_exact;
            }),
            (
              record {
                counted = count-labels (outsider domain) s.external h.external_exact;
                named = named-labels (outsider domain) s.external h.external_exact;
              },
              (
                record {
                  counted = h.admin_total ∙ omega arith;
                  named = named-labels privileged s.admins h.admins_exact;
                },
                (
                  record { counted = nobody-counted input.users; named = nobody-named input.users },
                  tt,
                ),
              ),
            ),
          ),
        ),
      )

seats-scan_billing :
    (provider : String) (now : ℕ) (b : Option BillingSnapshot)
    → (billed_seat_count (scan_billing provider now b) ≡ billed_seat_count b)
      × (filled_seat_count (scan_billing provider now b) ≡ filled_seat_count b)
unfolding scan_billing completed billed_seat_count filled_seat_count
seats-scan_billing provider now none = (refl, refl)
seats-scan_billing provider now (some b) = (refl, refl)

scan_findings-Told :
    (clock : ℕ) (input : ScanInput)
    → All (Told input (scan_time clock input) (scan_domain input)) (scan_findings clock input)
unfolding scan_findings scan_seats
scan_findings-Told clock input =
    let now = scan_time clock input in
    let domain = scan_domain input in
    let billing = scan_billing input.provider now input.billing in
    let s = scan_seats clock input in
    let same = seats-scan_billing input.provider now input.billing in
    All-selected (Told input now domain)
      (guarded_findings input domain s (billed_seat_count billing) (filled_seat_count billing)
        (billing_unit_minor billing))
      (rw (same.0, same.1)
        (guarded_findings-Told input now domain s (billing_unit_minor billing)
          (scan_users-Listed input now domain no_seats input.users)))

-- Every finding of a scan counts exactly the users whom its kind is about, and names the first twenty
-- of them in the order of their labels: the suspended, those with an address outside the domain, those
-- with a privileged role, and, where the provider reports activity, those not suspended who were never
-- seen or not within the threshold. A finding of unused billed seats counts the billed seats less the
-- filled ones, or less the users who are not suspended where the vendor states no filled ones.
pub scan-Told :
    (clock : ℕ) (input : ScanInput)
    → All (Told input (scan_time clock input) (scan_domain input)) (scan clock input).findings
unfolding scan
scan-Told clock input =
    All-sort_by finding_before (Told input (scan_time clock input) (scan_domain input))
      (scan_findings clock input) (scan_findings-Told clock input)
