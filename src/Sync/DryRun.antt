-- ===== src/Sync/DryRun.antt =====
-- A pass with `dry_run` set, and what it may touch.
use unseat.Base.{
  String, List, [], ◌∷◌, ◌++◌, true, arith, ◌≡◌, refl, ap, ◌∙◌, Option-cases, inl, inr, Result, ok,
  err, Result-cases,
}
use unseat.Base.Dict.{Dict, lookup}
use unseat.Core.Types.{User}
use unseat.Core.Alias.{build_alias_index}
use unseat.Core.Seats.{ClassifiedSeat, DirectoryUser}
use unseat.Core.Engine.{
  ReconcileInput, ReconcilePlan, place, place_class, place_all, started, reconcile, seats_of,
}
use unseat.Core.Engine.Laws.{reconcile-eq-ok}
use unseat.Sync.World.{World, attempt, try, insert_event}
use unseat.Sync.Actions.{Pass}
use unseat.Sync.Pass.{
  Reconciler, reconcile_input, cache_users, execute_plan, finish_provider, pass_of,
  reconcile_provider, reconcile_each, run, build_directory, distinct, members_of, group_emails,
  provider_names,
}

dry_run-place : (plan : ReconcilePlan) (s : ClassifiedSeat) → (place plan s).dry_run ≡ plan.dry_run
unfolding place place_class
dry_run-place plan s = ground arith

dry_run-place_all :
    (plan : ReconcilePlan) (ss : List ClassifiedSeat) → (place_all plan ss).dry_run ≡ plan.dry_run
unfolding place_all
dry_run-place_all plan [] = refl
dry_run-place_all plan (s ∷ ss) = dry_run-place_all (place plan s) ss ∙ dry_run-place plan s

dry_run-reconcile :
    (input : ReconcileInput) (plan : ReconcilePlan)
    → reconcile input ≡ ok plan
    → plan.dry_run ≡ input.dry_run
unfolding started
dry_run-reconcile input plan h =
    let (desired, found, made) = reconcile-eq-ok input plan h in
    ap (λ x. x.dry_run) made ∙ dry_run-place_all (started input desired) (seats_of input desired)

-- Neither a request nor a countdown.
abbrev pub Untouched : World → World → Type 0
Untouched w w' = (w'.requests ≡ w.requests) × (w'.pending ≡ w.pending)

cache-Untouched : (p : Pass) (users : List User) (w : World) → Untouched w (cache_users p users w)
unfolding cache_users try attempt
cache-Untouched p users w = (ground arith, ground arith)

finish-Untouched :
    (p : Pass) (aliases : Dict (List String)) (users : List User) (plan : Result ReconcilePlan)
    (w : World)
    → ((x : ReconcilePlan) → plan ≡ ok x → x.dry_run ≡ true)
    → Untouched w (finish_provider p aliases users plan w).world
unfolding finish_provider execute_plan insert_event try attempt
finish-Untouched p aliases users (err e) w dry = (refl, refl)
finish-Untouched p aliases users (ok plan) w dry =
    (ground (arith, dry plan refl), ground (arith, dry plan refl))

Untouched-trans : (u v w : World) → Untouched u v → Untouched v w → Untouched u w
Untouched-trans u v w a b = (b.0 ∙ a.0, b.1 ∙ a.1)

module _ (r : Reconciler) (dry : r.config.policies.dry_run ≡ true) where
  provider-Untouched :
      (name : String) (index : Dict String) (directory : Dict DirectoryUser) (w : World)
      → Untouched w (reconcile_provider r name index directory w).world
  unfolding reconcile_provider reconcile_input
  provider-Untouched name index directory w = elim (Option-cases (lookup name r.registry)) [
    | inl e ↦ rw (reconcile_provider, e) (refl, refl)
    | inr (provider, e) ↦ elim (Result-cases provider.listed) [
      | inr (why, f) ↦ rw (reconcile_provider, e, f) (refl, refl)
      | inl (users, f) ↦
          let p = pass_of r name provider in
          let input = reconcile_input r name index directory users in
          rw (reconcile_provider, e, f)
            (Untouched-trans w (cache_users p users w)
              (finish_provider p r.config.aliases users (reconcile input)
                (cache_users p users w)).world
              (cache-Untouched p users w)
              (finish-Untouched p r.config.aliases users (reconcile input) (cache_users p users w)
                (λ plan made. dry_run-reconcile input plan made ∙ dry)))
    ]
  ]

  each-Untouched :
      (index : Dict String) (directory : Dict DirectoryUser) (names : List String)
      (plans : List ReconcilePlan) (w : World)
      → Untouched w (reconcile_each r index directory names plans w).1
  unfolding reconcile_each
  each-Untouched index directory [] plans w = (refl, refl)
  each-Untouched index directory (name ∷ names) plans w =
      let done = reconcile_provider r name index directory w in
      let plans' : List ReconcilePlan = elim done.plan [
        | err e ↦ plans
        | ok plan ↦ plans ++ (plan ∷ [])
      ] in
      Untouched-trans w done.world (reconcile_each r index directory names plans' done.world).1
        (provider-Untouched name index directory w)
        (each-Untouched index directory names plans' done.world)

-- With `dry_run` set, a whole run over all providers makes no call that changes members and leaves
-- every countdown as it was, whatever the directory, the providers and the database answer.
pub run-Untouched :
    (r : Reconciler) (w : World) → r.config.policies.dry_run ≡ true → Untouched w (run r w).1
unfolding run
run-Untouched r w dry = elim (Result-cases r.list_users) [
  | inr (why, e) ↦ rw (run, e) (refl, refl)
  | inl (users, e) ↦
      rw (run, e)
        (each-Untouched r dry
          (build_alias_index r.config.aliases
            (distinct [] (members_of r.list_group_members (group_emails r.config.mappings))))
          (build_directory users []) (provider_names r.config.mappings) [] w)
]
