-- ===== src/Offboarding/Desired.antt =====
-- `directoryIndex`, `desiredByProvider` and `exceptionsForProvider` of
-- internal/offboarding/offboarding.go. A group is asked for once; the answer of the identity provider
-- may depend on the number of the call.
use unseat.Base.{
  ℕ, suc, String, ◌<>◌, List, [], ◌∷◌, ◌++◌, Bool, true, Option, none, some, ◌==◌, if◌then◌else◌,
  normal, any,
}
use unseat.Base.Dict.{Dict, lookup, insert}
use unseat.Base.Sorting.{sort_strings}
use unseat.Core.Types.{User, status_suspended}
use unseat.Core.Seats.{DirectoryUser}
use unseat.Config.{ProviderMapping, Mapping, Exception, covers}

-- The map of `directoryIndex`.
unfoldable pub directory_map : List User → Dict DirectoryUser → Dict DirectoryUser
directory_map [] m = m
directory_map (u ∷ us) m =
    let k = normal u.email in
    directory_map us (
      if k == ""
      then m
      else insert k (record { email = k; suspended = u.status == status_suspended }) m)

-- The addresses of `directoryIndex`.
unfoldable pub known_emails : List User → List String
known_emails [] = []
known_emails (u ∷ us) =
    let k = normal u.email in let rest = known_emails us in if k == "" then rest else k ∷ rest

-- `directoryIndex`
unfoldable pub directory_index : List User → Dict DirectoryUser × List String
unfolding directory_map known_emails
directory_index users = (directory_map users [], sort_strings (known_emails users))

-- The variables of `desiredByProvider`, and the number of calls made.
pub record Wanted : Type 0 where
  pub desired : Dict (Dict Bool)
  pub errs : Dict (List String)
  pub group_cache : Dict (List User × Option String)
  pub calls : ℕ

unfoldable pub or_empty {ℓ} : {A : Type ℓ} → Option (List A) → List A
or_empty none = []
or_empty (some xs) = xs

-- The addresses of a group's members.
unfoldable pub want_members : List User → Dict Bool → Dict Bool
want_members [] m = m
want_members (u ∷ us) m =
    let email = normal u.email in want_members us (if email == "" then m else insert email true m)

empty_sets : List String → Dict (Dict Bool) → Dict (Dict Bool)
empty_sets [] m = m
empty_sets (name ∷ names) m = empty_sets names (insert name [] m)

module _ (list_group_members : ℕ → String → List User × Option String) where
  -- The members of a group, from the cache or by a call.
  unfoldable pub group_members : String → Wanted → (List User × Option String) × Wanted
  group_members group w = elim (lookup group w.group_cache) [
    | some answer ↦ (answer, w)
    | none ↦
        let answer = list_group_members w.calls group in
        (answer, record w { group_cache = insert group answer w.group_cache; calls = suc w.calls })
  ]

  take_members : String → String → (List User × Option String) × Wanted → Wanted
  take_members group name ((members, some why), w) = record w {
    errs =
        insert name
          (or_empty (lookup name w.errs) ++ (("mapped group " <> (group <> (": " <> why))) ∷ []))
          w.errs;
  }
  take_members group name ((members, none), w) = record w {
    desired = insert name (want_members members (or_empty (lookup name w.desired))) w.desired;
  }

  -- The body of the inner loop of `desiredByProvider`.
  unfoldable pub want_mapping : List String → String → ProviderMapping → Wanted → Wanted
  unfolding group_members take_members or_empty
  want_mapping targets group pm w =
      if any (λ t. t == pm.name) targets
      then take_members group pm.name (group_members group w)
      else w

  unfoldable pub want_providers : List String → String → List ProviderMapping → Wanted → Wanted
  unfolding want_mapping
  want_providers targets group [] w = w
  want_providers targets group (pm ∷ pms) w =
      want_providers targets group pms (want_mapping targets group pm w)

  unfoldable pub want_mappings : List String → List Mapping → Wanted → Wanted
  unfolding want_providers
  want_mappings targets [] w = w
  want_mappings targets (m ∷ ms) w =
      want_mappings targets ms (want_providers targets m.group m.providers w)

  -- `desiredByProvider`
  unfoldable pub desired_by_provider : List Mapping → List String → Wanted
  unfolding want_mappings empty_sets
  desired_by_provider mappings targets =
      want_mappings targets mappings
        (record { desired = empty_sets targets []; errs = []; group_cache = []; calls = 0 })

-- `exceptionApplies`
unfoldable pub exception_applies : Exception → String → Bool
exception_applies ex name = any (covers name) ex.providers

-- `exceptionsForProvider`
unfoldable pub exceptions_from : String → List Exception → Dict Bool → Dict Bool
exceptions_from name [] m = m
exceptions_from name (ex ∷ exs) m =
    let email = normal ex.email in
    exceptions_from name exs
      (if exception_applies ex name then (if email == "" then m else insert email true m) else m)

unfoldable pub exceptions_for_provider : List Exception → String → Dict Bool
unfolding exceptions_from
exceptions_for_provider exceptions name = exceptions_from name exceptions []
