-- ===== src/Core/Certificate/Laws.antt =====
-- The certificate: its views and its status.
use unseat.Base.{
  ◌+◌, List, [], ◌∷◌, ◌++◌, Bool, true, false, some, arith, ◌≡◌, ◌≢◌, ◌↔◌, ◌⊎◌, not, ◌&&◌, ◌||◌,
  refl, ◌∙◌, if◌then◌else◌, any, keep, length, append-keep, ap,
}
use mathlib.Core.List.{append-nil}
use unseat.Core.Objects.{
  transfer_ownership, request_owner_attestation, mark_unsupported, same_action,
}
use unseat.Core.Decisions.{Decision, proposed, approved, blocked, verified, verification_failed}
use unseat.Core.Certificate.{
  complete, complete_with_provider_limits, OffboardingCertificate, decisions_status, has_errors,
  is_stale, compute_certificate_status, DecisionView, closed, transferred, pending, unsupported,
  view_of, file_decision, file_decisions, cleared, refresh_certificate_decision_views,
}

-- A decision about who answers for something, rather than about access.
abbrev pub hands_over : Decision → Bool
hands_over d =
    same_action d.action_class transfer_ownership
    || same_action d.action_class request_owner_attestation

abbrev pub is_done : Decision → Bool
is_done d = elim d.status [ verified ↦ true | _ ↦ false ]

abbrev pub cannot_be_done : Decision → Bool
cannot_be_done d = elim d.status [
  | blocked ↦ true
  | verified ↦ false
  | _ ↦ same_action d.action_class mark_unsupported
]

-- Where a decision belongs: access that is verified as closed, responsibility that is verified as
-- handed over, what cannot be done, and all else.
abbrev pub shows : DecisionView → Decision → Bool
shows closed d = is_done d && not (hands_over d)
shows transferred d = is_done d && hands_over d
shows unsupported d = cannot_be_done d
shows pending d = not (is_done d) && not (cannot_be_done d)

-- What a view of the certificate holds.
abbrev pub view : DecisionView → OffboardingCertificate → List Decision
view closed c = c.closed_access
view transferred c = c.transferred_responsibility
view pending c = c.pending_reviews
view unsupported c = c.unsupported_actions

view-file_decision :
    (v : DecisionView) (c : OffboardingCertificate) (d : Decision)
    → view v (file_decision c d) ≡ view v c ++ (if shows v d then d ∷ [] else [])
unfolding file_decision view_of
view-file_decision closed c d = ground (arith, append-nil c.closed_access)
view-file_decision transferred c d = ground (arith, append-nil c.transferred_responsibility)
view-file_decision pending c d = ground (arith, append-nil c.pending_reviews)
view-file_decision unsupported c d = ground (arith, append-nil c.unsupported_actions)

view-file_decisions :
    (v : DecisionView) (c : OffboardingCertificate) (ds : List Decision)
    → view v (file_decisions c ds) ≡ view v c ++ keep (shows v) ds
unfolding file_decisions keep
view-file_decisions v c [] = rw append-nil
view-file_decisions v c (d ∷ ds) =
    rw (view-file_decisions v (file_decision c d) ds, view-file_decision v c d)
      (append-keep (shows v) (view v c) d ds)

view-cleared : (v : DecisionView) (c : OffboardingCertificate) → view v (cleared c) ≡ []
unfolding cleared
view-cleared closed c = refl
view-cleared v c = refl

view-refresh :
    (v : DecisionView) (c : OffboardingCertificate)
    → view v (refresh_certificate_decision_views c) ≡ keep (shows v) c.decisions
unfolding refresh_certificate_decision_views
view-refresh v c =
    same v ∙ view-file_decisions v (cleared c) c.decisions ∙ rw (view-cleared v c) refl
  where
    same :
        (w : DecisionView)
        → view w (refresh_certificate_decision_views c)
          ≡ view w (file_decisions (cleared c) c.decisions)
    same closed = refl
    same w = refl

shared_out :
    (ds : List Decision)
    → length (keep (shows closed) ds)
        + length (keep (shows transferred) ds)
        + length (keep (shows pending) ds)
        + length (keep (shows unsupported) ds)
      ≡ length ds
unfolding keep
shared_out [] = refl
shared_out (d ∷ ds) = ground (arith, shared_out ds)

-- Whatever the views held before, a refresh leaves in each, in their order, exactly the decisions
-- that belong there: verified closures under closed access, verified transfers of ownership and
-- verified attestations under transferred responsibility, blocked decisions and unverified ones that
-- mark an action as unsupported under unsupported actions, and all others under pending reviews. The
-- four together hold as many as there are decisions.
pub refresh_views :
    (c : OffboardingCertificate)
    → let r = refresh_certificate_decision_views c in
      (r.closed_access ≡ keep (shows closed) c.decisions)
      × (r.transferred_responsibility ≡ keep (shows transferred) c.decisions)
      × (r.pending_reviews ≡ keep (shows pending) c.decisions)
      × (r.unsupported_actions ≡ keep (shows unsupported) c.decisions)
      × (length r.closed_access
            + length r.transferred_responsibility
            + length r.pending_reviews
            + length r.unsupported_actions
          ≡ length c.decisions)
refresh_views c = (
  view-refresh closed c,
  view-refresh transferred c,
  view-refresh pending c,
  view-refresh unsupported c,
  omega (
    arith,
    ap length (view-refresh closed c),
    ap length (view-refresh transferred c),
    ap length (view-refresh pending c),
    ap length (view-refresh unsupported c),
    shared_out c.decisions,
  ),
)

-- A decision keeps a certificate from being complete.
abbrev pub is_open : Decision → Bool
is_open d = elim d.status [
  | proposed ↦ true
  | approved ↦ true
  | blocked ↦ true
  | verification_failed ↦ true
  | _ ↦ false
]

decisions_status-complete :
    (ds : List Decision) → (decisions_status complete ds ≡ complete) ↔ (any is_open ds ≡ false)
unfolding decisions_status any
decisions_status-complete [] = ground arith
decisions_status-complete (d ∷ ds) = ground (arith, decisions_status-complete ds)

decisions_status-limits :
    (ds : List Decision) → decisions_status complete_with_provider_limits ds ≢ complete
unfolding decisions_status
decisions_status-limits [] = ground arith
decisions_status-limits (d ∷ ds) = ground (arith, decisions_status-limits ds)

compute-file_decision :
    (c : OffboardingCertificate) (d : Decision)
    → compute_certificate_status (file_decision c d) ≡ compute_certificate_status c
unfolding compute_certificate_status file_decision
compute-file_decision c d = ground arith

compute-file_decisions :
    (c : OffboardingCertificate) (ds : List Decision)
    → compute_certificate_status (file_decisions c ds) ≡ compute_certificate_status c
unfolding file_decisions
compute-file_decisions c [] = refl
compute-file_decisions c (d ∷ ds) =
    compute-file_decisions (file_decision c d) ds ∙ compute-file_decision c d

compute-cleared :
    (c : OffboardingCertificate)
    → compute_certificate_status (cleared c) ≡ compute_certificate_status c
unfolding compute_certificate_status cleared
compute-cleared c = refl

-- What filing one decision leaves alone, filing all of them does.
file_decisions-keeps {ℓ} :
    {X : Type ℓ} (field : OffboardingCertificate → X)
    → ((c : OffboardingCertificate) (d : Decision) → field (file_decision c d) ≡ field c)
    → (c : OffboardingCertificate) (ds : List Decision) → field (file_decisions c ds) ≡ field c
unfolding file_decisions
file_decisions-keeps field keeps c [] = refl
file_decisions-keeps field keeps c (d ∷ ds) =
    file_decisions-keeps field keeps (file_decision c d) ds ∙ keeps c d

file_decision-frame :
    (c : OffboardingCertificate) (d : Decision)
    → ((file_decision c d).decisions ≡ c.decisions)
      × ((file_decision c d).subject ≡ c.subject)
      × ((file_decision c d).unknowns ≡ c.unknowns)
      × ((file_decision c d).providers ≡ c.providers)
unfolding file_decision
file_decision-frame c d = (ground arith, ground arith, ground arith, ground arith)

-- What a refresh leaves alone.
pub refresh-frame :
    (c : OffboardingCertificate)
    → let r = refresh_certificate_decision_views c in
      (r.decisions ≡ c.decisions)
      × (r.subject ≡ c.subject)
      × (r.unknowns ≡ c.unknowns)
      × (r.providers ≡ c.providers)
unfolding refresh_certificate_decision_views cleared
refresh-frame c = (
  file_decisions-keeps (λ r. r.decisions) (λ r d. (file_decision-frame r d).0) (cleared c)
      c.decisions,
  file_decisions-keeps (λ r. r.subject) (λ r d. (file_decision-frame r d).1) (cleared c)
      c.decisions,
  file_decisions-keeps (λ r. r.unknowns) (λ r d. (file_decision-frame r d).2) (cleared c)
      c.decisions,
  file_decisions-keeps (λ r. r.providers) (λ r d. (file_decision-frame r d).3) (cleared c)
      c.decisions,
)

status-refresh :
    (c : OffboardingCertificate)
    → (refresh_certificate_decision_views c).status ≡ some (compute_certificate_status c)
unfolding refresh_certificate_decision_views
status-refresh c = ap some (compute-file_decisions (cleared c) c.decisions ∙ compute-cleared c)

compute_complete :
    (c : OffboardingCertificate)
    → (compute_certificate_status c ≡ complete) ↔ (
        (is_stale c.status ≡ false)
        × (c.unknowns ≡ [])
        × (any has_errors c.providers ≡ false)
        × (any is_open c.decisions ≡ false))
unfolding compute_certificate_status
compute_complete c =
    ground (arith, decisions_status-complete c.decisions, decisions_status-limits c.decisions)

-- A refreshed certificate is complete exactly when it was not marked as stale, nothing is unknown,
-- no provider reported an error, and no decision is proposed, approved, blocked or failed
-- verification.
pub refresh_complete :
    (c : OffboardingCertificate)
    → ((refresh_certificate_decision_views c).status ≡ some complete) ↔ (
        (is_stale c.status ≡ false)
        × (c.unknowns ≡ [])
        × (any has_errors c.providers ≡ false)
        × (any is_open c.decisions ≡ false))
refresh_complete c = ground (arith, status-refresh c, compute_complete c)

decisions_status-kept :
    (ds : List Decision)
    → (decisions_status complete_with_provider_limits ds ≡ complete_with_provider_limits)
      ↔ (any is_open ds ≡ false)
unfolding decisions_status any
decisions_status-kept [] = ground arith
decisions_status-kept (d ∷ ds) = ground (arith, decisions_status-kept ds)

decisions_status-unlimited :
    (ds : List Decision) → decisions_status complete ds ≢ complete_with_provider_limits
unfolding decisions_status
decisions_status-unlimited [] = ground arith
decisions_status-unlimited (d ∷ ds) = ground (arith, decisions_status-unlimited ds)

compute_limits :
    (c : OffboardingCertificate)
    → (compute_certificate_status c ≡ complete_with_provider_limits) ↔ (
        (is_stale c.status ≡ false)
        × (c.unknowns ≢ [])
        × ((c.decisions ≡ [])
            ⊎ ((any has_errors c.providers ≡ false) × (any is_open c.decisions ≡ false))))
unfolding compute_certificate_status
compute_limits c =
    ground (arith, decisions_status-kept c.decisions, decisions_status-unlimited c.decisions)

-- A refreshed certificate is complete with provider limits exactly when it was not marked as stale,
-- something is unknown, and either no decision was made, whatever errors its providers reported, or
-- no provider reported an error and no decision is proposed, approved, blocked or failed verification.
pub refresh_limits :
    (c : OffboardingCertificate)
    → ((refresh_certificate_decision_views c).status ≡ some complete_with_provider_limits) ↔ (
        (is_stale c.status ≡ false)
        × (c.unknowns ≢ [])
        × ((c.decisions ≡ [])
            ⊎ ((any has_errors c.providers ≡ false) × (any is_open c.decisions ≡ false))))
refresh_limits c = ground (arith, status-refresh c, compute_limits c)
