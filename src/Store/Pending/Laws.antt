-- ===== src/Store/Pending/Laws.antt =====
-- The countdown of a pending removal.
use unseat.Base.{
  ℕ, ◌≤◌, ◌+◌, String, List, [], ◌∷◌, Bool, true, false, not, ◌&&◌, Option, none, some, ◌==◌,
  eq_iff, eq_refl, arith, ◌≡◌, ◌∙◌, if◌then◌else◌, keep, any, ltb, nat_eq,
}
use unseat.Base.Sorting.{any-sort_by}
use unseat.Store.Pending.{
  PendingRemoval, is_for, restart, insert_pending_removal, cancel_pending_removal, is_expired,
  get_expired_removals,
}

-- The row of a provider and an address.
abbrev pub row : String → String → List PendingRemoval → Option PendingRemoval
row p e [] = none
row p e (r ∷ rs) = if is_for p e r then some r else row p e rs

abbrev pub inserted : ℕ → String → String → ℕ → Option PendingRemoval → PendingRemoval
inserted now p e t none = record {
  provider = p;
  email = e;
  detected_at = now;
  expires_at = t;
  cancelled = false;
}
inserted now p e t (some r) = restart t r

-- An insertion makes a row where there was none, keeps the deadline of a countdown that runs, and
-- restarts one that was cancelled; no other row changes.
pub row-insert_pending_removal :
    (now : ℕ) (p e : String) (t : ℕ) (q f : String) (rows : List PendingRemoval)
    → row q f (insert_pending_removal now p e t rows)
      ≡ (if p == q && e == f then some (inserted now p e t (row p e rows)) else row q f rows)
unfolding insert_pending_removal
row-insert_pending_removal now p e t q f [] = ground (arith, eq_iff p q, eq_iff e f)
row-insert_pending_removal now p e t q f (r ∷ rs) = ground (
  arith,
  eq_iff p q,
  eq_iff e f,
  eq_iff r.provider p,
  eq_iff r.email e,
  eq_iff r.provider q,
  eq_iff r.email f,
  row-insert_pending_removal now p e t q f rs,
)

abbrev stopped : Option PendingRemoval → Option PendingRemoval
stopped none = none
stopped (some r) = some (record r { cancelled = true })

row-cancel_pending_removal :
    (p e q f : String) (rows : List PendingRemoval)
    → row q f (cancel_pending_removal p e rows)
      ≡ (if p == q && e == f then stopped (row q f rows) else row q f rows)
unfolding cancel_pending_removal
row-cancel_pending_removal p e q f [] = ground arith
row-cancel_pending_removal p e q f (r ∷ rs) = ground (
  arith,
  eq_iff p q,
  eq_iff e f,
  eq_iff r.provider p,
  eq_iff r.email e,
  eq_iff r.provider q,
  eq_iff r.email f,
  row-cancel_pending_removal p e q f rs,
)

-- A run of insertions for one provider and address, each at its own time with the grace period that
-- is configured.
abbrev pub insert_each : String → String → ℕ → List ℕ → List PendingRemoval → List PendingRemoval
insert_each p e grace [] rows = rows
insert_each p e grace (t ∷ ts) rows =
    insert_each p e grace ts (insert_pending_removal t p e (t + grace) rows)

-- A running countdown.
abbrev pub due_at : String → String → ℕ → List PendingRemoval → Bool
due_at p e t rows = elim (row p e rows) [
  | none ↦ false
  | some r ↦ not r.cancelled && nat_eq r.expires_at t
]

due_at-insert_each :
    (p e : String) (grace : ℕ) (ts : List ℕ) (t : ℕ) (rows : List PendingRemoval)
    → due_at p e t rows ≡ true
    → due_at p e t (insert_each p e grace ts rows) ≡ true
due_at-insert_each p e grace [] t rows h = h
due_at-insert_each p e grace (s ∷ ts) t rows h =
    due_at-insert_each p e grace ts t (insert_pending_removal s p e (s + grace) rows)
      (ground (arith, row-insert_pending_removal s p e (s + grace) p e rows, eq_refl p, eq_refl e))

due-listed :
    (p e : String) (t now : ℕ) (rows : List PendingRemoval)
    → due_at p e t rows ≡ true
    → t ≤ now
    → any (is_for p e) (keep (is_expired now p) rows) ≡ true
unfolding any keep
due-listed p e t now [] h k = cc
due-listed p e t now (r ∷ rs) h k = ground (arith, due-listed p e t now rs)

due_at-start :
    (p e : String) (first grace : ℕ) (rows : List PendingRemoval)
    → row p e rows ≡ none
    → due_at p e (first + grace) (insert_pending_removal first p e (first + grace) rows) ≡ true
due_at-start p e first grace rows absent =
    ground
      (arith, row-insert_pending_removal first p e (first + grace) p e rows, eq_refl p, eq_refl e)

-- For an address without a countdown, however often its removal is requested again after the first
-- request: once the grace period since the first request has passed, the removal is listed as
-- expired.
pub grace_period_ends :
    (p e : String) (first grace now : ℕ) (again : List ℕ) (rows : List PendingRemoval)
    → row p e rows ≡ none
    → first + grace ≤ now
    → any (is_for p e) (get_expired_removals now p (insert_each p e grace (first ∷ again) rows))
      ≡ true
unfolding get_expired_removals
grace_period_ends p e first grace now again rows absent passed =
    let started = insert_pending_removal first p e (first + grace) rows in
    let last = insert_each p e grace again started in
    any-sort_by (λ a b. ltb a.expires_at b.expires_at) (is_for p e) (keep (is_expired now p) last)
    ∙ due-listed p e (first + grace) now last
        (due_at-insert_each p e grace again (first + grace) started
          (due_at-start p e first grace rows absent))
        passed
