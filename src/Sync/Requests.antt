-- ===== src/Sync/Requests.antt =====
-- Which calls a pass makes of a provider.
use unseat.Base.{
  true, is_some, suc, String, List, [], ◌∷◌, ◌++◌, Bool, not, ◌&&◌, none, some, arith, ◌≡◌, refl,
  ◌∙◌, if◌then◌else◌, to_lower, ltb, Option-cases, inl, inr, append-nil, append_assoc, flat_map,
}
use unseat.Base.Dict.{Dict, lookup}
use unseat.Core.Types.{User}
use unseat.Core.Engine.{UserAction, ReconcilePlan, target}
use unseat.Store.Pending.{PendingRemoval, get_expired_removals}
use unseat.Sync.World.{World, Request, adding, removing, attempt, try, request, insert_event}
use unseat.Sync.Actions.{
  Pass, send_notification, remove_seat, add_seat, add_seats, drop_seat, drop_seats, execute_actions,
}
use unseat.Sync.Targets.{ListedAs, is_listed_by_any, targets-Sound, targets-reached}
use unseat.Sync.Expiry.{close_countdown, targets, expire, expire_each, execute_expired_removals}

requests-send :
    (p : Pass) (email action : String) (w : World)
    → (send_notification p email action w).requests ≡ w.requests
unfolding send_notification try attempt
requests-send p email action w = ground arith

-- Whether a removal takes place at once.
abbrev pub at_once : Pass → Bool
at_once p = p.capabilities.can_remove && not (ltb 0 p.policies.grace_period)

abbrev pub add_request : Pass → UserAction → List Request
add_request p a = if p.capabilities.can_add then adding p.name a.email a.role ∷ [] else []

abbrev pub remove_request : Pass → UserAction → List Request
remove_request p a = if at_once p then removing p.name (target a) ∷ [] else []

-- A step that makes some requests, then the rest of a loop that makes those of the others.
requests-loop :
    {A : Type 0} (emit : A → List Request) (a : A) (xs : List A) (w w' : World) {out : List Request}
    → w'.requests ≡ w.requests ++ emit a
    → out ≡ w'.requests ++ flat_map emit xs
    → out ≡ w.requests ++ flat_map emit (a ∷ xs)
unfolding flat_map
requests-loop emit a xs w w' step rest = rest ∙ rw (step, append_assoc) refl

requests-none : (w : World) → w.requests ≡ w.requests ++ []
requests-none w = rw (append-nil) refl

requests-remove_seat :
    (p : Pass) (email target : String) (w : World)
    → (remove_seat p email target w).requests ≡ w.requests ++ (removing p.name target ∷ [])
unfolding remove_seat request insert_event try attempt send_notification
requests-remove_seat p email target w = ground arith

requests-add_seat :
    (p : Pass) (a : UserAction) (w : World)
    → (add_seat p a w).requests ≡ w.requests ++ add_request p a
unfolding add_seat request insert_event try attempt
requests-add_seat p a w = ground (arith, requests-none w)

requests-add_seats :
    (p : Pass) (xs : List UserAction) (w : World)
    → (add_seats p xs w).requests ≡ w.requests ++ flat_map (add_request p) xs
unfolding add_seats flat_map
requests-add_seats p [] w = requests-none w
requests-add_seats p (a ∷ xs) w =
    requests-loop (add_request p) a xs w (add_seat p a w) (requests-add_seat p a w)
      (requests-add_seats p xs (add_seat p a w))

requests-drop_seat :
    (p : Pass) (a : UserAction) (w : World)
    → (drop_seat p a w).requests ≡ w.requests ++ remove_request p a
unfolding drop_seat send_notification try attempt
requests-drop_seat p a w =
    ground (arith, requests-none w, requests-remove_seat p a.email (target a) w)

requests-drop_seats :
    (p : Pass) (xs : List UserAction) (w : World)
    → (drop_seats p xs w).requests ≡ w.requests ++ flat_map (remove_request p) xs
unfolding drop_seats flat_map
requests-drop_seats p [] w = requests-none w
requests-drop_seats p (a ∷ xs) w =
    requests-loop (remove_request p) a xs w (drop_seat p a w) (requests-drop_seat p a w)
      (requests-drop_seats p xs (drop_seat p a w))

-- The actions of a plan call the provider exactly for the additions, if it can add, and for the
-- removals, if it can remove and no grace period is set, in the order of the plan; no failure of
-- an earlier call stops the later ones.
pub requests-execute_actions :
    (p : Pass) (plan : ReconcilePlan) (w : World)
    → (execute_actions p plan w).requests
      ≡ (w.requests ++ flat_map (add_request p) plan.to_add)
        ++ flat_map (remove_request p) plan.to_remove
unfolding execute_actions
requests-execute_actions p plan w =
    rw
      (
        requests-drop_seats p plan.to_remove (add_seats p plan.to_add w),
        requests-add_seats p plan.to_add w,
      )
      refl

-- The removal that an expired countdown leads to.
abbrev pub expiry_request : Pass → Dict String → PendingRemoval → List Request
expiry_request p known r = elim (lookup (to_lower r.email) known) [
  | none ↦ []
  | some raw ↦ removing p.name raw ∷ []
]

requests-close :
    (p : Pass) (email : String) (w : World) → (close_countdown p email w).requests ≡ w.requests
unfolding close_countdown try attempt
requests-close p email w = ground arith

requests-expire :
    (p : Pass) (known : Dict String) (r : PendingRemoval) (w : World)
    → (expire p known r w).requests ≡ w.requests ++ expiry_request p known r
unfolding expire
requests-expire p known r w = elim (Option-cases (lookup (to_lower r.email) known)) [
  | inl e ↦ rw (expire, expiry_request, e) (requests-close p r.email w ∙ requests-none w)
  | inr (raw, e) ↦
      rw (expire, expiry_request, e)
        (requests-close p r.email (remove_seat p r.email raw w)
          ∙ requests-remove_seat p r.email raw w)
]

requests-expire_each :
    (p : Pass) (known : Dict String) (rs : List PendingRemoval) (w : World)
    → (expire_each p known rs w).requests ≡ w.requests ++ flat_map (expiry_request p known) rs
unfolding expire_each flat_map
requests-expire_each p known [] w = requests-none w
requests-expire_each p known (r ∷ rs) w =
    requests-loop (expiry_request p known) r rs w (expire p known r w) (requests-expire p known r w)
      (requests-expire_each p known rs (expire p known r w))

-- The countdowns that a pass acts on: none without a grace period, if the provider cannot remove,
-- or if the table cannot be read.
abbrev pub due : Pass → World → List PendingRemoval
due p w =
    if ltb 0 p.policies.grace_period && p.capabilities.can_remove && not (p.fails w.calls)
    then get_expired_removals p.now p.name w.pending
    else []

requests-expired :
    (p : Pass) (aliases : Dict (List String)) (users : List User) (w : World)
    → (execute_expired_removals p aliases users w).requests
      ≡ w.requests ++ flat_map (expiry_request p (targets aliases users)) (due p w)
unfolding execute_expired_removals attempt flat_map
requests-expired p aliases users w = ground (
  arith,
  requests-expire_each p (targets aliases users) (get_expired_removals p.now p.name w.pending)
      (record w { calls = suc w.calls }),
  requests-none w,
)

-- With a grace period, a provider that can remove and a table that can be read, the expired
-- countdowns call the provider once each, in their order, for the address that a map gives the
-- account, and not at all for an account that the map lacks; otherwise there is no call. The map gives
-- an account only an address under which the provider lists it, itself or through declared aliases,
-- spelled as the provider spells it; and it has every account that is listed itself or under a declared
-- alias.
pub requests-execute_expired_removals :
    (p : Pass) (aliases : Dict (List String)) (users : List User) (w : World)
    → (known : Dict String) × ((execute_expired_removals p aliases users w).requests
        ≡ w.requests ++ flat_map (expiry_request p known) (due p w))
      × ((key raw : String) → lookup key known ≡ some raw → ListedAs aliases users key raw)
      × ((key : String)
          → is_listed_by_any aliases users key ≡ true
          → is_some (lookup key known) ≡ true)
requests-execute_expired_removals p aliases users w = (
  targets aliases users,
  requests-expired p aliases users w,
  targets-Sound aliases users,
  targets-reached users aliases,
)
