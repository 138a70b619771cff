-- ===== src/Sync/Expiry.antt =====
-- internal/sync/reconciler.go: `cancelReturnedUsers` and `executeExpiredRemovals`. A `range` over
-- the aliases visits them in the order of the list.
use unseat.Base.{
  String, List, [], ◌∷◌, Bool, not, none, some, ◌==◌, if◌then◌else◌, to_lower, any, ltb,
}
use unseat.Base.Dict.{Dict, lookup, insert}
use unseat.Core.Types.{User}
use unseat.Core.Engine.{UserAction, ReconcilePlan}
use unseat.Store.Pending.{
  PendingRemoval, cancel_pending_removal, get_pending_removals, get_expired_removals,
}
use unseat.Sync.World.{World, attempt, try}
use unseat.Sync.Actions.{Pass, remove_seat}

-- A lookup in `stillOrphaned`.
unfoldable pub still_orphaned : List UserAction → String → Bool
still_orphaned to_remove email = any (λ a. a.email == email) to_remove

-- A call of `CancelPendingRemoval`.
unfoldable pub close_countdown : Pass → String → World → World
unfolding try
close_countdown p email w =
    try p.fails (λ v. record v { pending = cancel_pending_removal p.name email v.pending }) w

-- The loop of `cancelReturnedUsers`.
unfoldable pub cancel_each : Pass → List UserAction → List PendingRemoval → World → World
unfolding close_countdown still_orphaned
cancel_each p to_remove [] w = w
cancel_each p to_remove (r ∷ rs) w =
    cancel_each p to_remove rs
      (if still_orphaned to_remove r.email then w else close_countdown p r.email w)

-- `cancelReturnedUsers`
unfoldable pub cancel_returned_users : Pass → ReconcilePlan → World → World
unfolding cancel_each attempt
cancel_returned_users p plan w =
    let done = attempt p.fails (λ v. v) w in
    if not (ltb 0 p.policies.grace_period)
    then w
    else if not done.good
    then done.world
    else cancel_each p plan.to_remove (get_pending_removals p.name done.world.pending) done.world

-- The addresses that the provider reports, each under its lower case.
unfoldable pub raw_emails : List User → Dict String → Dict String
raw_emails [] m = m
raw_emails (u ∷ us) m = raw_emails us (insert (to_lower u.email) u.email m)

-- The loop over the aliases of one canonical address.
unfoldable pub alias_targets : String → List String → Dict String → Dict String
alias_targets canonical [] m = m
alias_targets canonical (alias ∷ rest) m =
    alias_targets canonical rest
      (elim (lookup (to_lower alias) m) [ none ↦ m | some raw ↦ insert (to_lower canonical) raw m ])

-- The loop over all aliases.
unfoldable pub add_targets : Dict (List String) → Dict String → Dict String
unfolding alias_targets
add_targets [] m = m
add_targets ((canonical, aliases) ∷ rest) m = add_targets rest (alias_targets canonical aliases m)

-- The map `target` of `executeExpiredRemovals`.
unfoldable pub targets : Dict (List String) → List User → Dict String
unfolding raw_emails add_targets
targets aliases users = add_targets aliases (raw_emails users [])

-- The loop of `executeExpiredRemovals`, one round.
unfoldable pub expire : Pass → Dict String → PendingRemoval → World → World
unfolding close_countdown
expire p target r w = elim (lookup (to_lower r.email) target) [
  | none ↦ close_countdown p r.email w
  | some raw ↦ close_countdown p r.email (remove_seat p r.email raw w)
]

unfoldable pub expire_each : Pass → Dict String → List PendingRemoval → World → World
unfolding expire
expire_each p target [] w = w
expire_each p target (r ∷ rs) w = expire_each p target rs (expire p target r w)

-- `executeExpiredRemovals`
unfoldable pub execute_expired_removals : Pass → Dict (List String) → List User → World → World
unfolding expire_each attempt targets
execute_expired_removals p aliases users w =
    let done = attempt p.fails (λ v. v) w in
    if not (ltb 0 p.policies.grace_period)
    then w
    else if not p.capabilities.can_remove
    then w
    else if not done.good
    then done.world
    else expire_each p (targets aliases users)
        (get_expired_removals p.now p.name done.world.pending) done.world
