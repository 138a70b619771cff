-- ===== src/Store/Decisions/History.antt =====
-- The tables that the program can reach: internal/store/sqlite.go under any sequence of recomputed
-- recommendations and of changes of one decision.
use unseat.Base.{
  ℕ, String, List, [], ◌∷◌, Bool, true, false, ◌&&◌, ◌||◌, none, some, ◌==◌, eq_iff, arith, ◌≡◌,
  Option, refl, if◌then◌else◌, Option-cases, Bool-cases, inl, inr, any, All, any-append, subst,
  some-injective, sym, ap, ◌∙◌, eq_refl,
}
use unseat.Core.Decisions.{Decision, DecisionStatus, approved, executed, verified}
use unseat.Store.Decisions.{
  DecisionRow, DecisionEvent, DecisionTables, EventKind, changed, find_row, record_change,
  was_approved, owner_attested,
}
use unseat.Store.Decisions.Merge.{
  Recommendation, recommendation, merge_existing, merge_incoming_decision, upsert_decision,
  upsert_decisions, stale_version, hash_of,
}
use unseat.Store.Decisions.Laws.{id-find_row, decision_at, decision_at-put_row}
use unseat.Store.Decisions.Machine.{
  Command, approve, reject, attest, mark_executed, mark_verified, subject_id, run_command, goal,
  kind_of, allows, Obeys, Keeps, run_command-Obeys,
}

-- The statuses that only a person gives: approved, and what follows from it.
abbrev pub is_granted : DecisionStatus → Bool
is_granted approved = true
is_granted executed = true
is_granted verified = true
is_granted _ = false

abbrev is_grant : EventKind → Bool
is_grant was_approved = true
is_grant owner_attested = true
is_grant _ = false

module _ (hash_recommendation : Recommendation → String) where
  -- An event in which a person approved or attested a decision, of which the recommendation had a
  -- certain hash.
  abbrev pub grants : String → String → DecisionEvent → Bool
  grants id hash e =
      is_grant e.kind && e.decision_id == id && hash_of hash_recommendation e.payload == hash

  -- Every decision in a granted status has such an event, for its own recommendation.
  abbrev IsVouched : DecisionTables → Type 0
  IsVouched db =
      (id : String) (d : Decision)
      → decision_at id db ≡ some d
      → is_granted d.status ≡ true
      → any (grants id (hash_of hash_recommendation d)) db.events ≡ true

granted-goal :
    (c : Command) (d : Decision)
    → allows c d ≡ true
    → is_granted (goal c) ≡ true
    → (is_grant (kind_of c) || is_granted d.status) ≡ true
granted-goal (approve id approver) d h k = refl
granted-goal (reject id rejector reason) d h k = absurd (ground (arith, k))
granted-goal (attest id owner actor reason) d h k = refl
granted-goal (mark_executed id actor) d h k = ground arith
granted-goal (mark_verified id actor) d h k = ground arith

kept-goal :
    (c : Command) (old new : Decision)
    → is_grant (kind_of c) ≡ false
    → Keeps c old new
    → recommendation new ≡ recommendation old
kept-goal (approve id approver) old new h k = k
kept-goal (reject id rejector reason) old new h k = k
kept-goal (attest id owner actor reason) old new h k = absurd (ground (arith, h))
kept-goal (mark_executed id actor) old new h k = k
kept-goal (mark_verified id actor) old new h k = k

module _ (hash_recommendation : Recommendation → String) where
  -- The command's own decision: its event grants it, or it was granted before.
  moved-IsVouched :
      (c : Command) (db db' : DecisionTables) (d : Decision)
      → Obeys c db (changed d db')
      → IsVouched hash_recommendation db
      → is_granted d.status ≡ true
      → any (grants hash_recommendation (subject_id c) (hash_of hash_recommendation d)) db'.events
        ≡ true
  unfolding any
  moved-IsVouched c db db' d o ok g =
      let (
        row,
        found,
        allowed,
        moved,
        kept,
        decisions,
        (e, events, id_eq, kind_eq, from_eq, to_eq, payload_eq),
      ) =
        o in
      let p = grants hash_recommendation (subject_id c) (hash_of hash_recommendation d) in
      rw (events, any-append p db.events (e ∷ []))
        (elim (Bool-cases (is_grant (kind_of c))) [
          | inl t ↦ ground (
            arith,
            kind_eq,
            id_eq,
            t,
            eq_refl (subject_id c),
            ap (hash_of hash_recommendation) payload_eq,
            eq_refl (hash_of hash_recommendation d),
          )
          | inr f ↦
              let same : hash_of hash_recommendation row.decision ≡ hash_of hash_recommendation d =
                ap hash_recommendation (sym (kept-goal c row.decision d f kept)) in
              let granted =
                granted-goal c row.decision allowed (subst (λ s. is_granted s ≡ true) moved g) in
              let past =
                ok (subject_id c) row.decision (ground (arith, found))
                  (ground (arith, granted, f)) in
              let now =
                subst (λ key. any (grants hash_recommendation (subject_id c) key) db.events ≡ true)
                  same past in
              ground (arith, now)
        ])

  -- A change that obeys the machine keeps every granted decision vouched for.
  Obeys-IsVouched :
      (c : Command) (db db' : DecisionTables) (d : Decision)
      → Obeys c db (changed d db')
      → IsVouched hash_recommendation db
      → IsVouched hash_recommendation db'
  unfolding any
  Obeys-IsVouched c db db' d o ok id x h g =
      let (
        row,
        found,
        allowed,
        moved,
        kept,
        decisions,
        (e, events, id_eq, kind_eq, from_eq, to_eq, payload_eq),
      ) =
        o in
      elim (Bool-cases (subject_id c == id)) [
        | inl t ↦
            let same : d ≡ x = some-injective _ _ (sym (rw t at (decisions id)) ∙ h) in
            let own : subject_id c ≡ id = ground (arith, eq_iff (subject_id c) id, t) in
            let vouched =
              moved-IsVouched c db db' d o ok
                (subst (λ y. is_granted y.status ≡ true) (sym same) g) in
            subst
              (λ y.
                any (grants hash_recommendation id (hash_of hash_recommendation y)) db'.events
                ≡ true)
              same
              (subst
                (λ j.
                  any (grants hash_recommendation j (hash_of hash_recommendation d)) db'.events
                  ≡ true)
                own vouched)
        | inr f ↦
            let past = ok id x (sym (rw f at (decisions id)) ∙ h) g in
            rw (events, any-append) (ground (arith, past))
      ]

module _ (hash_recommendation : Recommendation → String) where
  id-merge :
      (d : Decision) (rows : List DecisionRow)
      → (merge_incoming_decision hash_recommendation d rows).stored.id ≡ d.id
  unfolding merge_incoming_decision merge_existing stale_version
  id-merge d rows = elim (Option-cases (find_row d.id rows)) [
    | inl e ↦ rw (merge_incoming_decision, e) refl
    | inr (row, e) ↦ rw (merge_incoming_decision, e) (ground (arith, id-find_row d.id rows row))
  ]

  -- A granted decision that an upsert stores is the one that was stored.
  granted-merge :
      (d : Decision) (db : DecisionTables)
      → is_granted d.status ≡ false
      → is_granted (merge_incoming_decision hash_recommendation d db.rows).stored.status ≡ true
      → decision_at d.id db ≡ some (merge_incoming_decision hash_recommendation d db.rows).stored
  unfolding merge_incoming_decision merge_existing stale_version
  granted-merge d db fresh h = elim (Option-cases (find_row d.id db.rows)) [
    | inl e ↦ ground (arith, e, h, fresh)
    | inr (row, e) ↦ ground (arith, e, h, fresh)
  ]

  decision_at-upsert :
      (now : ℕ) (d : Decision) (db : DecisionTables) (id : String)
      → decision_at id (upsert_decision hash_recommendation now d db) ≡ (
          if d.id == id
          then some (merge_incoming_decision hash_recommendation d db.rows).stored
          else decision_at id db)
  unfolding upsert_decision record_change
  decision_at-upsert now d db id =
      let m = merge_incoming_decision hash_recommendation d db.rows in
      let row : DecisionRow = record {
        decision = m.stored;
        hash = hash_of hash_recommendation m.stored;
        updated_at = now;
      } in
      let stored = rw (id-merge d db.rows) at (decision_at-put_row id row db.rows db.events) in
      elim (Option-cases m.event) [
        | inl e ↦ rw (upsert_decision, e) stored
        | inr (x, e) ↦ rw (upsert_decision, e) stored
      ]

  events-upsert :
      (now : ℕ) (d : Decision) (db : DecisionTables) (p : DecisionEvent → Bool)
      → any p db.events ≡ true
      → any p (upsert_decision hash_recommendation now d db).events ≡ true
  unfolding upsert_decision record_change
  events-upsert now d db p h =
      elim (Option-cases (merge_incoming_decision hash_recommendation d db.rows).event) [
        | inl e ↦ rw (upsert_decision, e) h
        | inr (x, e) ↦ rw (upsert_decision, e, any-append) (ground (arith, h))
      ]

  upsert-IsVouched :
      (now : ℕ) (d : Decision) (db : DecisionTables)
      → is_granted d.status ≡ false
      → IsVouched hash_recommendation db
      → IsVouched hash_recommendation (upsert_decision hash_recommendation now d db)
  upsert-IsVouched now d db fresh ok id x h g =
      let after = decision_at-upsert now d db id in
      events-upsert now d db (grants hash_recommendation id (hash_of hash_recommendation x)) (
        ok id x
          (elim (Bool-cases (d.id == id)) [
            | inl t ↦
                let same : (merge_incoming_decision hash_recommendation d db.rows).stored ≡ x =
                  some-injective _ _ (sym (rw t at after) ∙ h) in
                let own : d.id ≡ id = ground (arith, eq_iff d.id id, t) in
                subst (λ j. decision_at j db ≡ some x) own
                  (granted-merge d db fresh (subst (λ y. is_granted y.status ≡ true) (sym same) g)
                    ∙ ap some same)
            | inr f ↦ sym (rw f at after) ∙ h
          ])
          g)

  upserts-IsVouched :
      (now : ℕ) (ds : List Decision) (db db' : DecisionTables)
      → All (λ d. is_granted d.status ≡ false) ds
      → upsert_decisions hash_recommendation now ds db ≡ some db'
      → IsVouched hash_recommendation db
      → IsVouched hash_recommendation db'
  unfolding upsert_decisions
  upserts-IsVouched now [] db db' fresh done ok =
      subst (IsVouched hash_recommendation) (some-injective _ _ done) ok
  upserts-IsVouched now (d ∷ ds) db db' fresh done ok =
      let stored = upsert_decision hash_recommendation now d db in
      upserts-IsVouched now ds stored db' fresh.1 (ground (arith, done))
        (upsert-IsVouched now d db fresh.0 ok)

module _ (hash_recommendation : Recommendation → String) (format_time : ℕ → String) where
  -- The tables that a sequence of the store's operations can leave, from empty ones. Decisions
  -- that are written anew have not been granted: `BuildDecisions` proposes or blocks.
  pub data Reachable : DecisionTables → Type 0 where
    empty_tables : Reachable (record { rows = []; events = [] })
    commanded :
        {db db' : DecisionTables} (now : ℕ) (c : Command) (d : Decision)
        → run_command format_time now c db ≡ changed d db'
        → Reachable db
        → Reachable db'
    recomputed :
        {db db' : DecisionTables} (now : ℕ) (ds : List Decision)
        → All (λ d. is_granted d.status ≡ false) ds
        → upsert_decisions hash_recommendation now ds db ≡ some db'
        → Reachable db
        → Reachable db'

none-some : (d : Decision) → ◌≡◌ {A = Option Decision} none (some d) → ⊥
none-some d h = cc

Reachable-IsVouched :
    (hash_recommendation : Recommendation → String) (format_time : ℕ → String) {db : DecisionTables}
    → Reachable hash_recommendation format_time db
    → IsVouched hash_recommendation db
unfolding find_row
Reachable-IsVouched hash_recommendation format_time empty_tables =
    λ id d h g. absurd (none-some d h)
Reachable-IsVouched hash_recommendation format_time (commanded now c d ran past) =
    Obeys-IsVouched hash_recommendation c _ _ d
      (subst (Obeys c _) ran (run_command-Obeys format_time now c _))
      (Reachable-IsVouched hash_recommendation format_time past)
Reachable-IsVouched hash_recommendation format_time (recomputed now ds fresh done past) =
    upserts-IsVouched hash_recommendation now ds _ _ fresh done
      (Reachable-IsVouched hash_recommendation format_time past)

-- In all reachable tables, a decision that is approved, executed or verified has an event in which
-- a person approved or attested that decision, when its recommendation had the hash that it still
-- has, whatever was recomputed or rejected in between.
pub granted-Reachable :
    (hash_recommendation : Recommendation → String) (format_time : ℕ → String) (db : DecisionTables)
    (id : String) (d : Decision)
    → Reachable hash_recommendation format_time db
    → decision_at id db ≡ some d
    → is_granted d.status ≡ true
    → any (grants hash_recommendation id (hash_of hash_recommendation d)) db.events ≡ true
granted-Reachable hash_recommendation format_time db id d past stored granted =
    Reachable-IsVouched hash_recommendation format_time past id d stored granted
