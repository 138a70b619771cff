-- ===== src/Sync/Returned.antt =====
-- The countdowns of users who are to be removed no longer.
use unseat.Base.{
  ℕ, ◌+◌, suc, String, List, [], ◌∷◌, ◌++◌, Bool, true, false, not, ◌&&◌, ◌==◌, eq_iff, eq_refl,
  arith, ◌≡◌, refl, sym, ◌∙◌, ltb, Bool-cases, inl, inr, any, keep, All, any-append, append_assoc,
  subst,
}
use unseat.Base.Sorting.{any-sort_by}
use unseat.Core.Engine.{UserAction, ReconcilePlan}
use unseat.Store.Pending.{
  PendingRemoval, is_for, insert_pending_removal, cancel_pending_removal, is_expired,
  get_pending_removals, get_expired_removals,
}
use unseat.Sync.World.{World, attempt, try, request, insert_event}
use unseat.Sync.Actions.{
  Pass, send_notification, add_seat, add_seats, drop_seat, drop_seats, execute_actions,
}
use unseat.Sync.Expiry.{still_orphaned, close_countdown, cancel_each, cancel_returned_users}

module _ (name : String) (orphans : List UserAction) where
  -- A countdown that runs for somebody who is no longer to be removed.
  abbrev stray : PendingRemoval → Bool
  stray r = r.provider == name && not r.cancelled && not (still_orphaned orphans r.email)

  -- The same, leaving out those whose address stands in a list of countdowns.
  abbrev stray_out : List PendingRemoval → PendingRemoval → Bool
  stray_out rs r = stray r && not (any (is_for name r.email) rs)

  any-stray_out : (rows : List PendingRemoval) → any (stray_out []) rows ≡ any stray rows
  unfolding any
  any-stray_out [] = refl
  any-stray_out (r ∷ rows) = ground (arith, any-stray_out rows)

  -- A countdown that is passed over was not stray.
  stray-kept :
      (q : PendingRemoval) (qs rows : List PendingRemoval)
      → still_orphaned orphans q.email ≡ true
      → any (stray_out (q ∷ qs)) rows ≡ false
      → any (stray_out qs) rows ≡ false
  unfolding any
  stray-kept q qs [] kept h = refl
  stray-kept q qs (r ∷ rows) kept h =
      ground (arith, eq_iff q.email r.email, stray-kept q qs rows kept)

  stray-cancel :
      (q : PendingRemoval) (qs rows : List PendingRemoval)
      → any (stray_out (q ∷ qs)) rows ≡ false
      → any (stray_out qs) (cancel_pending_removal name q.email rows) ≡ false
  unfolding any cancel_pending_removal
  stray-cancel q qs [] h = refl
  stray-cancel q qs (r ∷ rows) h = ground (
    arith,
    eq_iff q.email r.email,
    eq_iff r.email q.email,
    eq_iff r.provider name,
    stray-cancel q qs rows,
  )

  stray-insert :
      (now : ℕ) (a : String) (t : ℕ) (rows : List PendingRemoval)
      → still_orphaned orphans a ≡ true
      → any stray rows ≡ false
      → any stray (insert_pending_removal now name a t rows) ≡ false
  unfolding any insert_pending_removal
  stray-insert now a t [] listed h = ground arith
  stray-insert now a t (r ∷ rows) listed h =
      ground (arith, eq_iff r.email a, stray-insert now a t rows listed)

  expired-stray :
      (now : ℕ) (rows : List PendingRemoval)
      → any stray rows ≡ false
      → any (λ r. not (still_orphaned orphans r.email)) (keep (is_expired now name) rows) ≡ false
  unfolding any keep
  expired-stray now [] h = refl
  expired-stray now (r ∷ rows) h = ground (arith, expired-stray now rows)

  abbrev running : String → PendingRemoval → Bool
  running e r = r.provider == name && not r.cancelled && r.email == e

  stray-covered :
      (out rows : List PendingRemoval)
      → ((e : String) → any (running e) rows ≡ true → any (is_for name e) out ≡ true)
      → any (stray_out out) rows ≡ false
  unfolding any
  stray-covered out [] h = refl
  stray-covered out (r ∷ rows) h =
      ground
        (arith, eq_refl r.email, h r.email, stray-covered out rows (λ e k. h e (ground (arith, k))))

  running-keep :
      (e : String) (rows : List PendingRemoval)
      → any (running e) rows ≡ true
      → any (is_for name e) (keep (λ r. r.provider == name && not r.cancelled) rows) ≡ true
  unfolding any keep
  running-keep e [] h = h
  running-keep e (r ∷ rows) h = ground (arith, running-keep e rows)

  -- Every stray countdown is listed.
  listed-stray :
      (rows : List PendingRemoval) → any (stray_out (get_pending_removals name rows)) rows ≡ false
  unfolding get_pending_removals
  listed-stray rows = stray-covered (get_pending_removals name rows) rows (λ e h.
      any-sort_by _ (is_for name e) (keep (λ r. r.provider == name && not r.cancelled) rows)
      ∙ running-keep e rows h)

-- Countdowns are read and written without an error, and a grace period is set.
abbrev Undisturbed : Pass → Type 0
Undisturbed p = ((n : ℕ) → p.fails n ≡ false) × (ltb 0 p.policies.grace_period ≡ true)

pending-close :
    (p : Pass) (email : String) (w : World)
    → Undisturbed p
    → (close_countdown p email w).pending ≡ cancel_pending_removal p.name email w.pending
unfolding close_countdown try attempt
pending-close p email w calm = ground (arith, calm.0 w.calls)

stray-cancel_each :
    (p : Pass) (orphans : List UserAction) (rs : List PendingRemoval) (w : World)
    → Undisturbed p
    → any (stray_out p.name orphans rs) w.pending ≡ false
    → any (stray p.name orphans) (cancel_each p orphans rs w).pending ≡ false
unfolding cancel_each
stray-cancel_each p orphans [] w calm h = sym (any-stray_out p.name orphans w.pending) ∙ h
stray-cancel_each p orphans (r ∷ rs) w calm h = elim (Bool-cases (still_orphaned orphans r.email)) [
  | inl t ↦
      rw (cancel_each, t)
        (stray-cancel_each p orphans rs w calm (stray-kept p.name orphans r rs w.pending t h))
  | inr f ↦
      rw (cancel_each, f)
        (stray-cancel_each p orphans rs (close_countdown p r.email w) calm
          (rw (pending-close p r.email w calm) (stray-cancel p.name orphans r rs w.pending h)))
]

stray-cancel_returned :
    (p : Pass) (plan : ReconcilePlan) (w : World)
    → Undisturbed p
    → any (stray p.name plan.to_remove) (cancel_returned_users p plan w).pending ≡ false
unfolding cancel_returned_users attempt
stray-cancel_returned p plan w calm =
    rw (cancel_returned_users, calm.1, calm.0 w.calls)
      (stray-cancel_each p plan.to_remove (get_pending_removals p.name w.pending)
        (record w { calls = suc w.calls }) calm (listed-stray p.name plan.to_remove w.pending))

pending-add_seats :
    (p : Pass) (xs : List UserAction) (w : World) → (add_seats p xs w).pending ≡ w.pending
unfolding add_seats add_seat request insert_event try attempt
pending-add_seats p [] w = refl
pending-add_seats p (a ∷ xs) w = ground (arith, pending-add_seats p xs (add_seat p a w))

stray-drop_seat :
    (p : Pass) (orphans : List UserAction) (a : UserAction) (w : World)
    → Undisturbed p
    → still_orphaned orphans a.email ≡ true
    → any (stray p.name orphans) w.pending ≡ false
    → any (stray p.name orphans) (drop_seat p a w).pending ≡ false
unfolding drop_seat send_notification try attempt
stray-drop_seat p orphans a w calm listed h = ground (
  arith,
  calm.0 w.calls,
  calm.1,
  stray-insert p.name orphans p.now a.email (p.now + p.policies.grace_period) w.pending listed h,
)

stray-drop_seats :
    (p : Pass) (orphans xs : List UserAction) (w : World)
    → Undisturbed p
    → All (λ a. still_orphaned orphans a.email ≡ true) xs
    → any (stray p.name orphans) w.pending ≡ false
    → any (stray p.name orphans) (drop_seats p xs w).pending ≡ false
unfolding drop_seats
stray-drop_seats p orphans [] w calm listed h = h
stray-drop_seats p orphans (a ∷ xs) w calm listed h =
    stray-drop_seats p orphans xs (drop_seat p a w) calm listed.1
      (stray-drop_seat p orphans a w calm listed.0 h)

All-still_orphaned :
    (before xs : List UserAction) → All (λ a. still_orphaned (before ++ xs) a.email ≡ true) xs
unfolding still_orphaned any
All-still_orphaned before [] = tt
All-still_orphaned before (a ∷ xs) = (
  ground (arith, any-append (λ b. b.email == a.email) before (a ∷ xs), eq_refl a.email),
  subst (λ whole. All (λ b. still_orphaned whole b.email ≡ true) xs)
      (append_assoc before (a ∷ []) xs) (All-still_orphaned (before ++ (a ∷ [])) xs),
)

-- With a grace period and no failing call, the countdowns that a pass finds expired, after it has
-- cancelled those of returned users and executed its plan, are all of users that the plan still
-- removes.
pub expired-returned :
    (p : Pass) (plan : ReconcilePlan) (w : World)
    → ((n : ℕ) → p.fails n ≡ false)
    → ltb 0 p.policies.grace_period ≡ true
    → any
        (λ r. not (still_orphaned plan.to_remove r.email))
        (get_expired_removals p.now p.name
          (execute_actions p plan (cancel_returned_users p plan w)).pending)
      ≡ false
unfolding execute_actions get_expired_removals
expired-returned p plan w calm grace =
    let cancelled = cancel_returned_users p plan w in
    any-sort_by _ _ (keep (is_expired p.now p.name) (execute_actions p plan cancelled).pending)
    ∙ expired-stray p.name plan.to_remove p.now _ (
        stray-drop_seats p plan.to_remove plan.to_remove (add_seats p plan.to_add cancelled)
          (calm, grace) (All-still_orphaned [] plan.to_remove)
          (rw (pending-add_seats p plan.to_add cancelled)
            (stray-cancel_returned p plan w (calm, grace))))
