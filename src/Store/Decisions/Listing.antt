-- ===== src/Store/Decisions/Listing.antt =====
-- internal/store/sqlite.go: `ListDecisions`. The limit is a natural number: 0 stands for every
-- number that is not positive.
use unseat.Base.{
  ℕ, String, List, Bool, true, ◌&&◌, ◌||◌, Option, none, some, ◌==◌, if◌then◌else◌, keep, ltb,
  nat_eq, map, take,
}
use unseat.Base.Sorting.{sort_by, str_lt}
use unseat.Core.Decisions.{Decision, DecisionStatus, status_name}
use unseat.Store.Decisions.{DecisionRow}

pub record DecisionFilter : Type 0 where
  pub provider : Option String
  pub subject : Option String
  pub status : Option DecisionStatus
  pub limit : ℕ

abbrev agrees : Option String → String → Bool
agrees none s = true
agrees (some t) s = s == t

-- The clauses `WHERE 1=1 AND …`
abbrev pub selects : DecisionFilter → DecisionRow → Bool
selects f r =
    agrees f.provider r.decision.provider
    && agrees f.subject r.decision.subject
    && elim f.status [ none ↦ true | some s ↦ status_name r.decision.status == status_name s ]

-- `ORDER BY updated_at DESC, id`
abbrev pub newer : DecisionRow → DecisionRow → Bool
newer a b =
    ltb b.updated_at a.updated_at
    || (nat_eq a.updated_at b.updated_at && str_lt a.decision.id b.decision.id)

-- `ListDecisions`
unfoldable pub list_decisions : DecisionFilter → List DecisionRow → List Decision
list_decisions f rows =
    let found = map (λ r. r.decision) (sort_by newer (keep (selects f) rows)) in
    if ltb 0 f.limit then take f.limit found else found
