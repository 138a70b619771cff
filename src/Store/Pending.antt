-- ===== src/Store/Pending.antt =====
-- internal/store/sqlite.go: the table `pending_removals`, whose rows are unique by provider and
-- address. A `bool` test stands for the `WHERE` clause of a statement.
pub mod Laws
use unseat.Base.{
  ℕ, String, List, [], ◌∷◌, Bool, true, false, not, ◌&&◌, Option, none, some, ◌==◌, if◌then◌else◌,
  keep, ltb, leb,
}
use unseat.Base.Sorting.{sort_by}

pub record PendingRemoval : Type 0 where
  pub provider : String
  pub email : String
  pub detected_at : ℕ
  pub expires_at : ℕ
  pub cancelled : Bool

abbrev pub is_for : String → String → PendingRemoval → Bool
is_for provider email r = r.provider == provider && r.email == email

-- The clause `ON CONFLICT … DO UPDATE` for a row that is there.
abbrev pub restart : ℕ → PendingRemoval → PendingRemoval
restart expires_at r = record r {
  expires_at = if r.cancelled then expires_at else r.expires_at;
  cancelled = false;
}

-- `InsertPendingRemoval`; `now` is the default of `detected_at`.
unfoldable pub insert_pending_removal :
    ℕ → String → String → ℕ → List PendingRemoval → List PendingRemoval
insert_pending_removal now provider email expires_at [] =
    record {
      provider = provider;
      email = email;
      detected_at = now;
      expires_at = expires_at;
      cancelled = false;
    }
    ∷ []
insert_pending_removal now provider email expires_at (r ∷ rs) =
    if is_for provider email r
    then restart expires_at r ∷ rs
    else r ∷ insert_pending_removal now provider email expires_at rs

-- `CancelPendingRemoval`
unfoldable pub cancel_pending_removal : String → String → List PendingRemoval → List PendingRemoval
cancel_pending_removal provider email [] = []
cancel_pending_removal provider email (r ∷ rs) =
    (if is_for provider email r then record r { cancelled = true } else r)
    ∷ cancel_pending_removal provider email rs

-- `GetPendingRemovals`
unfoldable pub get_pending_removals : String → List PendingRemoval → List PendingRemoval
get_pending_removals provider rows =
    sort_by (λ a b. ltb a.detected_at b.detected_at)
      (keep (λ r. r.provider == provider && not r.cancelled) rows)

abbrev pub is_expired : ℕ → String → PendingRemoval → Bool
is_expired now provider r = r.provider == provider && not r.cancelled && leb r.expires_at now

-- `GetExpiredRemovals` at the time `now`
unfoldable pub get_expired_removals : ℕ → String → List PendingRemoval → List PendingRemoval
get_expired_removals now provider rows =
    sort_by (λ a b. ltb a.expires_at b.expires_at) (keep (is_expired now provider) rows)
