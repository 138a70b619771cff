-- ===== src/Store/Decisions/Laws.antt =====
-- The decision table: a read after a write, and what each transition requires.
use unseat.Base.{
  String, List, [], ◌∷◌, Option, none, some, ◌==◌, eq_iff, arith, ◌≡◌, refl, if◌then◌else◌,
}
use unseat.Core.Decisions.{Decision, DecisionStatus}
use unseat.Store.Decisions.{DecisionRow, DecisionEvent, DecisionTables, find_row, put_row}

pub find_row-put_row :
    (id : String) (r : DecisionRow) (rows : List DecisionRow)
    → find_row id (put_row r rows) ≡ (if r.decision.id == id then some r else find_row id rows)
unfolding find_row put_row
find_row-put_row id r [] = refl
find_row-put_row id r (q ∷ rows) = ground (
  arith,
  eq_iff r.decision.id id,
  eq_iff q.decision.id id,
  eq_iff q.decision.id r.decision.id,
  find_row-put_row id r rows,
)

pub id-find_row :
    (id : String) (rows : List DecisionRow) (r : DecisionRow)
    → find_row id rows ≡ some r
    → r.decision.id ≡ id
unfolding find_row
id-find_row id [] r h = cc
id-find_row id (q ∷ rows) r h = ground (arith, eq_iff q.decision.id id, id-find_row id rows r)

-- The status that is stored for a decision.
abbrev pub status_at : String → DecisionTables → Option DecisionStatus
status_at id db = elim (find_row id db.rows) [ none ↦ none | some r ↦ some r.decision.status ]

-- The decision that is stored under an identifier.
abbrev pub decision_at : String → DecisionTables → Option Decision
decision_at id db = elim (find_row id db.rows) [ none ↦ none | some r ↦ some r.decision ]

pub decision_at-put_row :
    (id : String) (r : DecisionRow) (rows : List DecisionRow) (events : List DecisionEvent)
    → decision_at id (record { rows = put_row r rows; events = events }) ≡ (
        if r.decision.id == id
        then some r.decision
        else decision_at id (record { rows = rows; events = events }))
decision_at-put_row id r rows events =
    ground (arith, find_row-put_row id r rows, eq_iff r.decision.id id)
