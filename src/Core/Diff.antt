-- ===== src/Core/Diff.antt =====
-- internal/core/types.go: `ComputeDiff`, the users to add and to remove.
pub mod Laws
use unseat.Base.{String, List, [], ◌∷◌, if◌then◌else◌}
use unseat.Base.Dict.{Dict, insert, has_key}
use unseat.Core.Types.{User, key}

pub record DiffResult : Type 0 where
  pub to_add : List User
  pub to_remove : List User

-- The loop that fills `desiredMap` or `actualMap`.
index_users : Dict User → List User → Dict User
index_users m [] = m
index_users m (u ∷ us) = index_users (insert (key u) u m) us

-- The loop over one map that collects the users whose key the other map lacks.
missing_from : Dict User → Dict User → List User
missing_from other [] = []
missing_from other ((k, u) ∷ m) =
    let rest = missing_from other m in if has_key k other then rest else u ∷ rest

unfoldable pub compute_diff : List User → List User → DiffResult
unfolding index_users missing_from
compute_diff desired actual =
    let desired_map = index_users [] desired in
    let actual_map = index_users [] actual in
    record {
      to_add = missing_from actual_map desired_map;
      to_remove = missing_from desired_map actual_map;
    }
