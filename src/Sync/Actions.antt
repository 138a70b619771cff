-- ===== src/Sync/Actions.antt =====
-- internal/sync/reconciler.go: `executeActions`, `removeSeat` and `sendNotification`.
use unseat.Base.{ℕ, ◌+◌, String, List, [], ◌∷◌, ◌++◌, Bool, not, ◌&&◌, if◌then◌else◌, ltb}
use unseat.Core.Types.{Capabilities, user_added, user_removed}
use unseat.Core.Engine.{UserAction, ReconcilePlan, target}
use unseat.Store.Pending.{insert_pending_removal}
use unseat.Config.{Policies}
use unseat.Sync.World.{World, adding, removing, try, request, insert_event}

-- What a pass over one provider does not change: the oracle of failures, the time, the policies,
-- whether there is a notifier, the provider's name and its capabilities.
pub record Pass : Type 0 where
  pub fails : ℕ → Bool
  pub now : ℕ
  pub policies : Policies
  pub has_notifier : Bool
  pub name : String
  pub capabilities : Capabilities

-- `sendNotification`
unfoldable pub send_notification : Pass → String → String → World → World
unfolding try
send_notification p email action w =
    if p.policies.notify_on_remove && p.has_notifier
    then try p.fails
        (λ v. record v {
          messages =
              v.messages ++ (record { provider = p.name; email = email; action = action } ∷ []);
        })
        w
    else w

-- `removeSeat`
unfoldable pub remove_seat : Pass → String → String → World → World
unfolding request insert_event send_notification
remove_seat p email target w =
    let done = request p.fails (removing p.name target) w in
    if not done.good
    then done.world
    else send_notification p email "removed"
        (insert_event p.fails user_removed p.name email "" p.now done.world)

-- The first loop of `executeActions`, one round.
unfoldable pub add_seat : Pass → UserAction → World → World
unfolding request insert_event
add_seat p a w =
    let done = request p.fails (adding p.name a.email a.role) w in
    if not p.capabilities.can_add
    then w
    else if not done.good
    then done.world
    else insert_event p.fails user_added p.name a.email "" p.now done.world

unfoldable pub add_seats : Pass → List UserAction → World → World
unfolding add_seat
add_seats p [] w = w
add_seats p (a ∷ as') w = add_seats p as' (add_seat p a w)

-- The second loop, one round.
unfoldable pub drop_seat : Pass → UserAction → World → World
unfolding try send_notification remove_seat
drop_seat p a w =
    if not p.capabilities.can_remove
    then w
    else if ltb 0 p.policies.grace_period
    then send_notification p a.email "pending_removal" (
        try p.fails
          (λ v. record v {
            pending =
                insert_pending_removal p.now p.name a.email (p.now + p.policies.grace_period)
                  v.pending;
          })
          w)
    else remove_seat p a.email (target a) w

unfoldable pub drop_seats : Pass → List UserAction → World → World
unfolding drop_seat
drop_seats p [] w = w
drop_seats p (a ∷ as') w = drop_seats p as' (drop_seat p a w)

-- `executeActions`
unfoldable pub execute_actions : Pass → ReconcilePlan → World → World
unfolding add_seats drop_seats
execute_actions p plan w = drop_seats p plan.to_remove (add_seats p plan.to_add w)
