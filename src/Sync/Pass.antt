-- ===== src/Sync/Pass.antt =====
-- internal/sync/reconciler.go: `reconcileProvider`, `buildDirectory` and `Run`. A `range` over a map
-- visits it in the order of insertion. The clock is read once for a pass.
use unseat.Base.{
  ℕ, String, List, [], ◌∷◌, ◌++◌, Bool, none, some, ◌==◌, ◌<>◌, if◌then◌else◌, to_lower, length,
  any, map, Result, ok, err,
}
use unseat.Base.Decimal.{decimal}
use unseat.Base.Dict.{Dict, lookup, insert}
use unseat.Core.Types.{User, Capabilities, sync_completed, status_suspended}
use unseat.Core.Alias.{build_alias_index}
use unseat.Core.Seats.{DirectoryUser}
use unseat.Core.Engine.{ReconcileInput, ReconcilePlan, reconcile, DesiredResolver}
use unseat.Config.{Config, Mapping, groups_for_provider, exception_set}
use unseat.Sync.World.{World, try, insert_event}
use unseat.Sync.Actions.{Pass, execute_actions}
use unseat.Sync.Expiry.{cancel_returned_users, execute_expired_removals}

-- What the pass uses of a registered provider: its capabilities and what `ListUsers` answers.
pub record SyncProvider : Type 0 where
  pub capabilities : Capabilities
  pub listed : Result (List User)

-- `Reconciler`: the oracle of failures, the time of the pass, the configuration, the registry, what
-- the identity provider answers, whether a notifier was given.
pub record Reconciler : Type 0 where
  pub fails : ℕ → Bool
  pub now : ℕ
  pub config : Config
  pub registry : Dict SyncProvider
  pub list_group_members : DesiredResolver
  pub list_users : Result (List User)
  pub has_notifier : Bool

pub record Outcome : Type 0 where
  pub plan : Result ReconcilePlan
  pub world : World

-- The argument of `core.Reconcile`.
unfoldable pub reconcile_input :
    Reconciler → String → Dict String → Dict DirectoryUser → List User → ReconcileInput
reconcile_input r name alias_index directory users = record {
  provider_name = name;
  group_mappings = groups_for_provider name r.config.mappings;
  desired_resolver = r.list_group_members;
  actual_users = users;
  exceptions = some (exception_set name r.config.policies.exceptions []);
  alias_index = some alias_index;
  dry_run = r.config.policies.dry_run;
  grace_period = r.config.policies.grace_period;
  directory = some directory;
  domain = r.config.identity_domain;
}

-- The two writes of the cached users.
unfoldable pub cache_users : Pass → List User → World → World
unfolding try
cache_users p users w =
    try p.fails
      (λ v. record v {
        states =
            insert p.name
              (record {
                synced_at = p.now;
                user_count = length users;
                reports_activity = p.capabilities.reports_activity;
              })
              v.states;
      })
      (try p.fails (λ v. record v { cached = insert p.name users v.cached }) w)

-- The block that a dry run skips.
unfoldable pub execute_plan : Pass → Dict (List String) → List User → ReconcilePlan → World → World
execute_plan p aliases users plan w =
    if plan.dry_run
    then w
    else execute_expired_removals p aliases users
        (execute_actions p plan (cancel_returned_users p plan w))

abbrev details : ReconcilePlan → String
details plan =
    "add="
    <> (decimal (length plan.to_add)
        <> (" remove="
            <> (decimal (length plan.to_remove) <> (" unchanged=" <> decimal plan.unchanged))))

-- The part of `reconcileProvider` that follows `core.Reconcile`.
unfoldable pub finish_provider :
    Pass → Dict (List String) → List User → Result ReconcilePlan → World → Outcome
unfolding execute_plan insert_event
finish_provider p aliases users (err e) w = record {
  plan = err ("reconcile " <> (p.name <> (": " <> e)));
  world = w;
}
finish_provider p aliases users (ok plan) w = record {
  plan = ok plan;
  world =
      insert_event p.fails sync_completed p.name "" (details plan) p.now
        (execute_plan p aliases users plan w);
}

-- What stays fixed while one provider is reconciled.
abbrev pub pass_of : Reconciler → String → SyncProvider → Pass
pass_of r name provider = record {
  fails = r.fails;
  now = r.now;
  policies = r.config.policies;
  has_notifier = r.has_notifier;
  name = name;
  capabilities = provider.capabilities;
}

-- `reconcileProvider`
unfoldable pub reconcile_provider :
    Reconciler → String → Dict String → Dict DirectoryUser → World → Outcome
unfolding cache_users finish_provider reconcile_input
reconcile_provider r name alias_index directory w = elim (lookup name r.registry) [
  | none ↦ record { plan = err ("provider \"" <> (name <> "\" not registered")); world = w }
  | some provider ↦ elim provider.listed [
    | err e ↦ record { plan = err ("list users from " <> (name <> (": " <> e))); world = w }
    | ok users ↦
        let p = pass_of r name provider in
        finish_provider p r.config.aliases users
          (reconcile (reconcile_input r name alias_index directory users)) (cache_users p users w)
  ]
]

-- The loop of `buildDirectory`.
unfoldable pub build_directory : List User → Dict DirectoryUser → Dict DirectoryUser
build_directory [] m = m
build_directory (u ∷ us) m =
    let k = to_lower u.email in
    build_directory us (insert k (record { email = k; suspended = u.status == status_suspended }) m)

-- The keys of a set that a loop fills, each once.
unfoldable pub distinct : List String → List String → List String
distinct seen [] = seen
distinct seen (x ∷ xs) = distinct (if any (λ y. y == x) seen then seen else seen ++ (x ∷ [])) xs

abbrev pub group_emails : List Mapping → List String
group_emails ms = distinct [] (map (λ m. m.group) ms)

-- The names of the providers of all mappings, in order.
unfoldable pub names_of : List Mapping → List String
names_of [] = []
names_of (m ∷ ms) = map (λ p. p.name) m.providers ++ names_of ms

abbrev pub provider_names : List Mapping → List String
provider_names ms = distinct [] (names_of ms)

-- The members of the groups that could be read.
unfoldable pub members_of : DesiredResolver → List String → List String
members_of resolver [] = []
members_of resolver (g ∷ gs) =
    (elim (resolver g) [ err e ↦ [] | ok users ↦ map (λ u. u.email) users ])
    ++ members_of resolver gs

-- The loop of `Run` over the providers: the plans that were made, and the world.
unfoldable pub reconcile_each :
    Reconciler
    → Dict String
    → Dict DirectoryUser
    → List String
    → List ReconcilePlan
    → World
    → List ReconcilePlan × World
unfolding reconcile_provider
reconcile_each r index directory [] plans w = (plans, w)
reconcile_each r index directory (name ∷ names) plans w =
    let done = reconcile_provider r name index directory w in
    reconcile_each r index directory names
      (elim done.plan [ err e ↦ plans | ok plan ↦ plans ++ (plan ∷ []) ]) done.world

-- `Run`
unfoldable pub run : Reconciler → World → Result (List ReconcilePlan) × World
unfolding reconcile_each build_directory distinct names_of members_of
run r w =
    let ms = r.config.mappings in
    let emails = distinct [] (members_of r.list_group_members (group_emails ms)) in
    elim r.list_users [
      | err e ↦ (err ("read directory: " <> e), w)
      | ok users ↦
          let (plans, w') =
            reconcile_each r (build_alias_index r.config.aliases emails) (build_directory users [])
              (provider_names ms) [] w in
          (ok plans, w')
    ]
