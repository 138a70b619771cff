-- ===== src/Enforce/Laws.antt =====
-- What reaches a provider when a decision is applied, and what is recorded of it.
use unseat.Base.{
  ℕ, String, List, [], ◌∷◌, Bool, true, false, not, ◌&&◌, Option, none, some, ◌==◌, arith, ◌≡◌,
  refl, ◌⊎◌, inl, inr, if◌then◌else◌, Option-cases, Bool-cases, is_some,
}
use unseat.Base.Dict.{lookup}
use unseat.Core.Objects.{remove_workspace_member, same_action, supports_action}
use unseat.Core.Matrix.{action_matrix}
use unseat.Core.Decisions.{Decision, DecisionStatus, executed}
use unseat.Store.Decisions.{
  DecisionRow, DecisionTables, Change, changed, refused, find_row, mark_decision_executed,
  is_approved,
}
use unseat.Store.Decisions.Machine.{Obeys, mark_executed, run_command-Obeys}
use unseat.Enforce.{
  Provider, Registry, Outage, get_provider, candidate, Applied, remove_failed, database_failed,
  settle, record_executed, execute, apply_read, apply,
}

-- An approved removal of a member whose provider is registered and supports it.
abbrev pub authorised : Registry → Decision → Bool
authorised registry d =
    is_approved d.status
    && same_action d.action_class remove_workspace_member
    && elim (lookup d.provider registry) [
      | none ↦ false
      | some p ↦ supports_action (action_matrix p.capabilities d.provider) d.action_class
    ]

abbrev authorised_at : Registry → String → DecisionTables → Bool
authorised_at registry id db = elim (find_row id db.rows) [
  | none ↦ false
  | some row ↦ authorised registry row.decision
]

-- The status that is stored for a decision.
abbrev pub status_at : String → DecisionTables → Option DecisionStatus
status_at id db = elim (find_row id db.rows) [ none ↦ none | some r ↦ some r.decision.status ]

-- The decision moved to executed, and no other moved.
abbrev pub Recorded : String → DecisionTables → Applied → Type 0
Recorded id db a =
    (a.failure ≡ none)
    × ((k : String) → status_at k a.tables ≡ (if id == k then some executed else status_at k db))

-- The provider's answer decides, and then the database: an error of either is returned and leaves
-- the tables, and without one the removal is recorded.
abbrev pub Answered : String → DecisionTables → Applied → Option String → Option String → Type 0
Answered id db a (some e) outage = (a.failure ≡ some (remove_failed e)) × (a.tables ≡ db)
Answered id db a none (some e) = (a.failure ≡ some (database_failed e)) × (a.tables ≡ db)
Answered id db a none none = Recorded id db a

abbrev pub Silent : DecisionTables → Applied → Type 0
Silent db a = (a.requests ≡ []) × (is_some a.failure ≡ true) × (a.tables ≡ db)

abbrev pub Enforces : Registry → Outage → String → DecisionTables → Applied → Type 0
Enforces registry outage id db a =
    ((authorised_at registry id db && not (is_some outage.on_get) ≡ false) × Silent db a)
    ⊎ ((outage.on_get ≡ none)
        × (row : DecisionRow) × (p : Provider) × (find_row id db.rows ≡ some row)
        × (authorised registry row.decision ≡ true)
        × (lookup row.decision.provider registry ≡ some p)
        × (a.requests ≡ (p.name, row.decision.object_id) ∷ [])
        × Answered id db a (p.remove_user row.decision.object_id) outage.on_mark)

settle-Recorded :
    (id actor : String) (db : DecisionTables) (requests : List (String × String)) (c : Change)
    (row : DecisionRow)
    → find_row id db.rows ≡ some row
    → is_approved row.decision.status ≡ true
    → Obeys (mark_executed id actor) db c
    → Recorded id db (settle db requests c)
unfolding settle
settle-Recorded id actor db requests (changed d db') row found granted o =
    let (r, is_found, allowed, moved, kept, decisions, event) = o in
    (refl, λ k. ground (arith, decisions k, moved))
settle-Recorded id actor db requests (refused r) row found granted o =
    absurd (ground (arith, o, found, granted))

requests-settle :
    (db : DecisionTables) (requests : List (String × String)) (c : Change)
    → (settle db requests c).requests ≡ requests
unfolding settle
requests-settle db requests (changed d db') = refl
requests-settle db requests (refused r) = refl

executable-candidate :
    (registry : Registry) (d : Decision) → (candidate registry d).executable ≡ authorised registry d
unfolding candidate get_provider
executable-candidate registry d = ground arith

execute-Answered :
    (now : ℕ) (id actor : String) (on_mark : Option String) (p : Provider) (db : DecisionTables)
    (row : DecisionRow)
    → find_row id db.rows ≡ some row
    → is_approved row.decision.status ≡ true
    → same_action row.decision.action_class remove_workspace_member ≡ true
    → let a = execute now id actor on_mark p row.decision db in
      (a.requests ≡ (p.name, row.decision.object_id) ∷ [])
      × Answered id db a (p.remove_user row.decision.object_id) on_mark
unfolding execute record_executed settle
execute-Answered now id actor on_mark p db row found granted removal =
    elim (Option-cases (p.remove_user row.decision.object_id)) [
      | inr (e, failure) ↦ rw (execute, removal, failure) (refl, (refl, refl))
      | inl success ↦ rw (execute, removal, success) (recorded on_mark)
    ]
  where
    requests : List (String × String)
    requests = (p.name, row.decision.object_id) ∷ []

    recorded :
        (o : Option String)
        → ((record_executed now id actor o db requests).requests ≡ requests)
          × Answered id db (record_executed now id actor o db requests) none o
    recorded (some e) = (refl, (refl, refl))
    recorded none =
        let changes = mark_decision_executed now id actor db in
        (
          requests-settle db requests changes,
          settle-Recorded id actor db requests changes row found granted
              (run_command-Obeys (λ t. "") now (mark_executed id actor) db),
        )

-- Where the database reads the decision, applying it makes one request if the decision is stored,
-- approved, a removal of a member and supported by its registered provider, and none otherwise; where
-- the database does not, it makes none. A request that succeeds is recorded as executed, for this
-- decision and no other, unless the database refuses to; every failure is returned and leaves all
-- tables as they were.
pub apply-Enforces :
    (registry : Registry) (outage : Outage) (now : ℕ) (id actor : String) (db : DecisionTables)
    → Enforces registry outage id db (apply registry outage now id actor db)
unfolding apply apply_read candidate get_provider
apply-Enforces registry outage now id actor db = elim (Option-cases outage.on_get) [
  | inr (why, g) ↦ rw (apply, g) (inl (ground (arith, g), (refl, refl, refl)))
  | inl g ↦ elim (Option-cases (find_row id db.rows)) [
    | inl e ↦ rw (apply, g, apply_read, e) (inl (ground (arith, e), (refl, refl, refl)))
    | inr (row, e) ↦ elim (Bool-cases (authorised registry row.decision)) [
      | inr f ↦
          rw (apply, g, apply_read, e, executable-candidate registry row.decision, f)
            (inl (ground (arith, e, f), (refl, refl, refl)))
      | inl t ↦ elim (Option-cases (lookup row.decision.provider registry)) [
        | inl missing ↦ absurd (ground (arith, t, missing))
        | inr (p, known) ↦
            let (asked, answered) =
              execute-Answered now id actor outage.on_mark p db row e (ground (arith, t))
                (ground (arith, t)) in
            rw (apply, g, apply_read, e, executable-candidate registry row.decision, t, known)
              (inr (refl, row, p, refl, t, known, asked, answered))
      ]
    ]
  ]
]
