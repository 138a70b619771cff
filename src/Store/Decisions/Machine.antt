-- ===== src/Store/Decisions/Machine.antt =====
-- The transitions of a stored decision, as one machine over its status.
use unseat.Base.{
  ℕ, String, [], ◌∷◌, ◌++◌, Bool, true, false, not, ◌&&◌, none, some, ◌==◌, arith, ◌≡◌, refl, ◌∙◌,
  if◌then◌else◌, Option-cases, Bool-cases, inl, inr, normal, trim_space,
}
use unseat.Core.Objects.{request_owner_attestation, same_action}
use unseat.Core.Decisions.{Decision, DecisionStatus, approved, rejected, executed, verified}
use unseat.Store.Decisions.{
  DecisionRow, DecisionEvent, DecisionTables, EventKind, Change, changed, refused, find_row,
  approve_decision, reject_decision, transition_decision, mark_decision_executed,
  mark_decision_verified, attest_owner, attest_row, is_proposed, is_undecided, is_approved,
  is_executed, record_change, was_approved, was_rejected, was_executed, was_verified,
  owner_attested, or_default,
}
use unseat.Store.Decisions.Merge.{recommendation}
use unseat.Store.Decisions.Laws.{find_row-put_row, id-find_row, decision_at}

-- The five ways to change one stored decision.
pub data Command : Type 0 where
  approve : (id approver : String) → Command
  reject : (id rejector reason : String) → Command
  attest : (id owner actor reason : String) → Command
  mark_executed mark_verified : (id actor : String) → Command

abbrev pub subject_id : Command → String
subject_id (approve id approver) = id
subject_id (reject id rejector reason) = id
subject_id (attest id owner actor reason) = id
subject_id (mark_executed id actor) = id
subject_id (mark_verified id actor) = id

abbrev pub run_command : (ℕ → String) → ℕ → Command → DecisionTables → Change
run_command format_time now (approve id approver) db = approve_decision now id approver db
run_command format_time now (reject id rejector reason) db =
    reject_decision now id rejector reason db
run_command format_time now (attest id owner actor reason) db =
    attest_owner format_time now id owner actor reason db
run_command format_time now (mark_executed id actor) db = mark_decision_executed now id actor db
run_command format_time now (mark_verified id actor) db = mark_decision_verified now id actor db

abbrev pub goal : Command → DecisionStatus
goal (approve id approver) = approved
goal (reject id rejector reason) = rejected
goal (attest id owner actor reason) = verified
goal (mark_executed id actor) = executed
goal (mark_verified id actor) = verified

abbrev pub kind_of : Command → EventKind
kind_of (approve id approver) = was_approved
kind_of (reject id rejector reason) = was_rejected
kind_of (attest id owner actor reason) = owner_attested
kind_of (mark_executed id actor) = was_executed
kind_of (mark_verified id actor) = was_verified

-- What a command requires of the stored decision and of its own texts.
abbrev pub allows : Command → Decision → Bool
allows (approve id approver) d = is_proposed d.status
allows (reject id rejector reason) d = is_undecided d.status && not (trim_space reason == "")
allows (attest id owner actor reason) d =
    is_undecided d.status
    && same_action d.action_class request_owner_attestation
    && not (normal owner == "")
allows (mark_executed id actor) d = is_approved d.status
allows (mark_verified id actor) d = is_executed d.status

-- Whether some stored decision allows a command.
abbrev pub allowed_at : Command → DecisionTables → Bool
allowed_at c db = elim (find_row (subject_id c) db.rows) [
  | none ↦ false
  | some row ↦ allows c row.decision
]

-- What a command leaves of the recommendation: all of it, but that an attestation adds metadata.
abbrev pub Keeps : Command → Decision → Decision → Type 0
Keeps (attest id owner actor reason) old new =
    recommendation new ≡ record (recommendation old) { metadata = new.metadata }
Keeps c old new = recommendation new ≡ recommendation old

-- A change was allowed, moves the one decision to the command's status and keeps what it
-- recommends, leaves every other decision as it was, and records one event with the decision; a
-- refusal means that no stored decision allows the command.
abbrev pub Obeys : Command → DecisionTables → Change → Type 0
Obeys c db (changed d db') =
    (row : DecisionRow) × (find_row (subject_id c) db.rows ≡ some row)
    × (allows c row.decision ≡ true)
    × (d.status ≡ goal c)
    × Keeps c row.decision d
    × ((k : String) → decision_at k db' ≡ (if subject_id c == k then some d else decision_at k db))
    × ((e : DecisionEvent) × (db'.events ≡ db.events ++ (e ∷ []))
        × (e.decision_id ≡ subject_id c)
        × (e.kind ≡ kind_of c)
        × (e.from_status ≡ some row.decision.status)
        × (e.to_status ≡ goal c)
        × (e.payload ≡ d))
Obeys c db (refused r) = allowed_at c db ≡ false

changed-Obeys :
    (c : Command) (db : DecisionTables) (row : DecisionRow) (d : Decision) (now : ℕ)
    (actor reason : String)
    → find_row (subject_id c) db.rows ≡ some row
    → allows c row.decision ≡ true
    → d.id ≡ row.decision.id
    → d.status ≡ goal c
    → Keeps c row.decision d
    → Obeys c db (
        changed d
          (record_change now row.hash d (kind_of c) (some row.decision.status) actor reason db))
unfolding record_change
changed-Obeys c db row d now actor reason found allowed same_id moved kept =
    let id_eq = id-find_row (subject_id c) db.rows row found in
    (
      row,
      found,
      allowed,
      moved,
      kept,
      (λ k. ground (
        arith,
        id_eq,
        find_row-put_row k (record { decision = d; hash = row.hash; updated_at = now }) db.rows,
      )),
      (_, refl, same_id ∙ id_eq, refl, refl, moved, refl),
    )

approve-Obeys :
    (now : ℕ) (id approver : String) (db : DecisionTables)
    → Obeys (approve id approver) db (approve_decision now id approver db)
unfolding approve_decision recommendation
approve-Obeys now id approver db = elim (Option-cases (find_row id db.rows)) [
  | inl e ↦ rw (e, approve_decision) (ground (arith, e))
  | inr (row, e) ↦ elim (Bool-cases (is_proposed row.decision.status)) [
    | inl t ↦
        rw (e, approve_decision, t)
          (changed-Obeys (approve id approver) db row _ now (or_default approver "cli") "" e t refl
            refl refl)
    | inr f ↦ rw (e, approve_decision, f) (ground (arith, e, f))
  ]
]

reject-Obeys :
    (now : ℕ) (id rejector reason : String) (db : DecisionTables)
    → Obeys (reject id rejector reason) db (reject_decision now id rejector reason db)
unfolding reject_decision recommendation
reject-Obeys now id rejector reason db = elim (Bool-cases (trim_space reason == "")) [
  | inl blank ↦ rw (reject_decision, blank) (ground (arith, blank))
  | inr text ↦ elim (Option-cases (find_row id db.rows)) [
    | inl e ↦ rw (reject_decision, text, e) (ground (arith, e))
    | inr (row, e) ↦ elim (Bool-cases (is_undecided row.decision.status)) [
      | inl t ↦
          rw (reject_decision, text, e, t)
            (changed-Obeys (reject id rejector reason) db row _ now (or_default rejector "cli")
              (trim_space reason) e (ground (arith, t, text)) refl refl refl)
      | inr f ↦ rw (reject_decision, text, e, f) (ground (arith, e, f))
    ]
  ]
]

transition-Obeys :
    (c : Command) (is_from : DecisionStatus → Bool) (now : ℕ) (actor : String) (db : DecisionTables)
    → ((d : Decision) → allows c d ≡ is_from d.status)
    → ((d : Decision) → Keeps c d (record d { status = goal c }))
    → Obeys c db (transition_decision now (subject_id c) actor is_from (goal c) (kind_of c) db)
unfolding transition_decision
transition-Obeys c is_from now actor db same keeps =
    elim (Option-cases (find_row (subject_id c) db.rows)) [
      | inl e ↦ rw (transition_decision, e) (ground (arith, e))
      | inr (row, e) ↦ elim (Bool-cases (is_from row.decision.status)) [
        | inl t ↦
            rw (transition_decision, e, t)
              (changed-Obeys c db row _ now actor "" e (same row.decision ∙ t) refl refl
                (keeps row.decision))
        | inr f ↦ rw (transition_decision, e, f) (ground (arith, e, f, same row.decision))
      ]
    ]

attest-Obeys :
    (format_time : ℕ → String) (now : ℕ) (id owner actor reason : String) (db : DecisionTables)
    → Obeys
        (attest id owner actor reason)
        db
        (attest_owner format_time now id owner actor reason db)
unfolding attest_owner attest_row recommendation
attest-Obeys format_time now id owner actor reason db = elim (Bool-cases (normal owner == "")) [
  | inl blank ↦ rw (attest_owner, blank) (ground (arith, blank))
  | inr text ↦ elim (Option-cases (find_row id db.rows)) [
    | inl e ↦ rw (attest_owner, text, e) (ground (arith, e))
    | inr (row, e) ↦
        elim (Bool-cases (same_action row.decision.action_class request_owner_attestation)) [
          | inr other ↦ rw (attest_owner, attest_row, text, e, other) (ground (arith, e, other))
          | inl right ↦ elim (Bool-cases (is_undecided row.decision.status)) [
            | inr f ↦ rw (attest_owner, attest_row, text, e, right, f) (ground (arith, e, f))
            | inl t ↦
                rw (attest_owner, attest_row, text, e, right, t)
                  (changed-Obeys (attest id owner actor reason) db row _ now
                    (or_default actor "cli") (trim_space reason) e (ground (arith, t, right, text))
                    refl refl refl)
          ]
        ]
  ]
]

-- Approve, reject, attest, mark executed and mark verified, each on any tables: the change either
-- obeys the machine (the decision was stored and in a status that allows it, reaches the command's
-- status with its recommendation kept, no other decision changes, one event records it), or nothing
-- stored allows the command.
pub run_command-Obeys :
    (format_time : ℕ → String) (now : ℕ) (c : Command) (db : DecisionTables)
    → Obeys c db (run_command format_time now c db)
unfolding mark_decision_executed mark_decision_verified recommendation
run_command-Obeys format_time now (approve id approver) db = approve-Obeys now id approver db
run_command-Obeys format_time now (reject id rejector reason) db =
    reject-Obeys now id rejector reason db
run_command-Obeys format_time now (attest id owner actor reason) db =
    attest-Obeys format_time now id owner actor reason db
run_command-Obeys format_time now (mark_executed id actor) db =
    transition-Obeys (mark_executed id actor) is_approved now (or_default actor "system") db
      (λ d. refl) (λ d. refl)
run_command-Obeys format_time now (mark_verified id actor) db =
    transition-Obeys (mark_verified id actor) is_executed now (or_default actor "system") db
      (λ d. refl) (λ d. refl)
