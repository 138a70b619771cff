-- ===== src/Core/Correlate.antt =====
-- internal/core/correlate.go: people whom one provider has deactivated and another still carries.
pub mod Laws
use unseat.Base.{
  ℕ, String, List, [], ◌∷◌, ◌++◌, Bool, not, ◌&&◌, Option, none, some, ◌==◌, if◌then◌else◌, ltb,
  nat_eq, length, normal, has_at,
}
use unseat.Base.Dict.{Dict, lookup, insert}
use unseat.Base.Sorting.{str_lt, sort_by, sort_strings}
use unseat.Core.Types.{User, status_suspended}

pub record OffboardingGap : Type 0 where
  pub email : String
  pub deactivated_in : List String
  pub still_active_in : List String

-- The `state` of one address.
pub record Presence : Type 0 where
  pub active : List String
  pub deactivated : List String

abbrev pub nowhere : Presence
nowhere = record { active = []; deactivated = [] }

-- The entry of an address, new if there is none.
unfoldable pub presence : String → Dict Presence → Presence
presence email m = elim (lookup email m) [ none ↦ nowhere | some s ↦ s ]

unfoldable pub is_deactivated : User → Bool
is_deactivated u = u.status == status_suspended

-- A seat of a provider, entered under its address.
unfoldable pub enter : String → User → Presence → Presence
unfolding is_deactivated
enter provider u s =
    if is_deactivated u
    then record s { deactivated = s.deactivated ++ (provider ∷ []) }
    else record s { active = s.active ++ (provider ∷ []) }

-- The body of the inner loop of `FindOffboardingGaps`.
unfoldable pub note_seat : String → User → Dict Presence → Dict Presence
note_seat provider u m =
    let email = normal u.email in
    if has_at email then insert email (enter provider u (presence email m)) m else m

unfoldable pub note_users : String → List User → Dict Presence → Dict Presence
unfolding note_seat
note_users provider [] m = m
note_users provider (u ∷ us) m = note_users provider us (note_seat provider u m)

unfoldable pub note_all : Dict (List User) → Dict Presence → Dict Presence
unfolding note_users
note_all [] m = m
note_all ((provider, users) ∷ seats) m = note_all seats (note_users provider users m)

unfoldable pub is_gap : Presence → Bool
is_gap s = ltb 0 (length s.deactivated) && ltb 0 (length s.active)

unfoldable pub gap_of : String → Presence → OffboardingGap
gap_of email s = record {
  email = email;
  deactivated_in = sort_strings s.deactivated;
  still_active_in = sort_strings s.active;
}

-- The second loop of `FindOffboardingGaps`.
unfoldable pub gaps_of : Dict Presence → List OffboardingGap
unfolding is_gap gap_of
gaps_of [] = []
gaps_of ((email, s) ∷ m) = let rest = gaps_of m in if is_gap s then gap_of email s ∷ rest else rest

unfoldable pub gap_before : OffboardingGap → OffboardingGap → Bool
gap_before a b =
    if not (nat_eq (length a.still_active_in) (length b.still_active_in))
    then ltb (length b.still_active_in) (length a.still_active_in)
    else str_lt a.email b.email

-- `FindOffboardingGaps`
unfoldable pub find_offboarding_gaps : Dict (List User) → List OffboardingGap
unfolding note_all gaps_of gap_before
find_offboarding_gaps seats = sort_by gap_before (gaps_of (note_all seats []))
