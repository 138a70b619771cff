-- ===== src/Core/Scan/Told.antt =====
-- Whom the findings of `Scan` (internal/core/scan.go) count and name, said of the users themselves.
use Prim.Native.Nat.{◌^◌}
use unseat.Base.{
  ℕ, suc, ◌+◌, String, ◌<>◌, List, [], ◌∷◌, ◌++◌, Bool, true, not, ◌&&◌, ◌||◌, none, some, ◌==◌,
  ◌≡◌, refl, sym, ap, ◌∙◌, keep, map, arith, append-map-keep, append-nil, count_of, ltb, to_lower,
  trim_space, contains, has_at, has_suffix, any, Bool-cases, inl, inr,
}
use unseat.Base.Int64.{is_positive}
use unseat.Core.Types.{User, status_suspended}
use unseat.Core.Scan.{
  ScanInput, SeatLists, label_of, is_suspended, is_external, is_inactive, is_privileged_role,
  elapsed, noted, tick, scan_user, scan_users,
}

abbrev pub suspended_user : User → Bool
suspended_user u = u.status == status_suspended

-- The address of a user is outside the domain, where one is given.
abbrev pub outsider : String → User → Bool
outsider domain u =
    let email = to_lower (trim_space u.email) in
    not (domain == "") && has_at email && not (has_suffix email ("@" <> domain))

-- The role of a user names a privilege.
abbrev pub privileged : User → Bool
privileged u =
    let role = to_lower u.role in
    contains role "admin"
    || contains role "owner"
    || contains role "superuser"
    || contains role "super_user"
    || contains role "root"

-- A user who is not suspended was never seen, or was last seen longer ago than a threshold allows,
-- where the provider reports activity; the longest threshold allows any time.
abbrev pub idle : ScanInput → ℕ → User → Bool
idle input now u =
    input.reports_activity
    && is_positive input.inactive_threshold
    && not (suspended_user u)
    && elim u.last_activity_at [
      | none ↦ true
      | some t ↦
          ltb (t + input.inactive_threshold) now && ltb (suc input.inactive_threshold) (2 ^ 63)
    ]

is_suspended-user : (u : User) → is_suspended u ≡ suspended_user u
unfolding is_suspended
is_suspended-user u = refl

is_inactive-idle :
    (input : ScanInput) (now : ℕ) (u : User) → is_inactive input now u ≡ idle input now u
unfolding is_inactive elapsed is_suspended
is_inactive-idle input now u = ground arith

is_privileged_role-privileged : (u : User) → is_privileged_role u.role ≡ privileged u
unfolding is_privileged_role any
is_privileged_role-privileged u = ground arith

is_external-outsider : (domain : String) (u : User) → is_external domain u ≡ outsider domain u
unfolding is_external
is_external-outsider domain u = ground arith

-- The addresses, or else the display names, of the users that pass a test, in their order.
abbrev pub labels_of : (User → Bool) → List User → List String
labels_of test users = map label_of (keep test users)

-- What a pass over users adds to the lists and the counts.
pub record Listed (input : ScanInput) (now : ℕ) (domain : String) (s : SeatLists)
    (users : List User) (t : SeatLists) : Type 0 where
  pub suspended_exact : t.suspended ≡ s.suspended ++ labels_of suspended_user users
  pub external_exact : t.external ≡ s.external ++ labels_of (outsider domain) users
  pub admins_exact : t.admins ≡ s.admins ++ labels_of privileged users
  pub inactive_exact : t.inactive ≡ s.inactive ++ labels_of (idle input now) users
  pub admin_total : t.admin_count ≡ s.admin_count + count_of privileged users
  pub active_total : t.active_count ≡ s.active_count + count_of (λ u. not (suspended_user u)) users

-- One round of a list, by a test that the code's test agrees with.
noted-round :
    (code test : User → Bool) (u : User) (us : List User) (out t : List String)
    → code u ≡ test u
    → t ≡ noted (code u) (label_of u) out ++ labels_of test us
    → t ≡ out ++ labels_of test (u ∷ us)
noted-round code test u us out t same h =
    h
    ∙ (ap (λ b. noted b (label_of u) out ++ labels_of test us) same
        ∙ append-map-keep label_of test out u us)

tick-round :
    (code test : User → Bool) (u : User) (us : List User) (n t : ℕ)
    → code u ≡ test u
    → t ≡ tick (code u) n + count_of test us
    → t ≡ n + count_of test (u ∷ us)
unfolding keep
tick-round code test u us n t same h = elim (Bool-cases (test u)) [
  | inl e ↦ ground (arith, same, e, h)
  | inr e ↦ ground (arith, same, e, h)
]

pub scan_users-Listed :
    (input : ScanInput) (now : ℕ) (domain : String) (s : SeatLists) (users : List User)
    → Listed input now domain s users (scan_users input now domain s users)
unfolding scan_users scan_user keep
scan_users-Listed input now domain s [] = record {
  suspended_exact = sym (append-nil _);
  external_exact = sym (append-nil _);
  admins_exact = sym (append-nil _);
  inactive_exact = sym (append-nil _);
  admin_total = omega arith;
  active_total = omega arith;
}
scan_users-Listed input now domain s (u ∷ us) =
    let rest = scan_users-Listed input now domain (scan_user input now domain s u) us in
    let t = scan_users input now domain (scan_user input now domain s u) us in
    record {
      suspended_exact =
          noted-round is_suspended suspended_user u us s.suspended t.suspended (is_suspended-user u)
            rest.suspended_exact;
      external_exact =
          noted-round (is_external domain) (outsider domain) u us s.external t.external
            (is_external-outsider domain u) rest.external_exact;
      admins_exact =
          noted-round (λ v. is_privileged_role v.role) privileged u us s.admins t.admins
            (is_privileged_role-privileged u) rest.admins_exact;
      inactive_exact =
          noted-round (is_inactive input now) (idle input now) u us s.inactive t.inactive
            (is_inactive-idle input now u) rest.inactive_exact;
      admin_total =
          tick-round (λ v. is_privileged_role v.role) privileged u us s.admin_count t.admin_count
            (is_privileged_role-privileged u) rest.admin_total;
      active_total =
          tick-round (λ v. not (is_suspended v)) (λ v. not (suspended_user v)) u us s.active_count
            t.active_count (ap not (is_suspended-user u)) rest.active_total;
    }
