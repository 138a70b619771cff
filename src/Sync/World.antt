-- ===== src/Sync/World.antt =====
-- What a pass of internal/sync/reconciler.go reads and changes outside of itself: the providers,
-- the tables of the store, the notifications. Every call outside may fail, which an argument
-- decides from the number of the call; a call that fails changes nothing.
use unseat.Base.{ℕ, suc, String, List, [], ◌∷◌, ◌++◌, Bool, true, false, if◌then◌else◌}
use unseat.Base.Dict.{Dict}
use unseat.Core.Types.{User, Event, EventType}
use unseat.Store.Pending.{PendingRemoval}

-- A call of a provider that changes its members.
pub data Request : Type 0 where
  adding : (provider email role : String) → Request
  removing : (provider target : String) → Request

-- `notify.Message`, without the two texts made from these fields
pub record Message : Type 0 where
  pub provider : String
  pub email : String
  pub action : String

pub record SyncState : Type 0 where
  pub synced_at : ℕ
  pub user_count : ℕ
  pub reports_activity : Bool

-- `requests` are the calls in the order in which they were made, those that failed included.
pub record World : Type 0 where
  pub pending : List PendingRemoval
  pub events : List Event
  pub requests : List Request
  pub messages : List Message
  pub cached : Dict (List User)
  pub states : Dict SyncState
  pub calls : ℕ

-- Whether a call succeeded, and the world after it.
pub record Done : Type 0 where
  pub good : Bool
  pub world : World

module _ (fails : ℕ → Bool) where
  -- A call outside, whose success has an effect on the world.
  unfoldable pub attempt : (World → World) → World → Done
  attempt effect w =
      let w' = record w { calls = suc w.calls } in
      if fails w.calls
      then record { good = false; world = w' }
      else record { good = true; world = effect w' }

  -- A call whose error is only written to the log.
  unfoldable pub try : (World → World) → World → World
  unfolding attempt
  try effect w = (attempt effect w).world

  -- A call of a provider, which stands among the requests whatever comes of it.
  unfoldable pub request : Request → World → Done
  unfolding attempt
  request r w = attempt (λ v. v) (record w { requests = w.requests ++ (r ∷ []) })

  -- `InsertEvent`
  unfoldable pub insert_event : EventType → String → String → String → ℕ → World → World
  unfolding try
  insert_event type provider email details now w =
      try
        (λ v. record v {
          events =
              v.events
              ++ (record {
                id = "";
                type = type;
                provider = provider;
                email = email;
                details = details;
                trigger = "sync";
                occurred_at = now;
              }
                  ∷ []);
        })
        w
