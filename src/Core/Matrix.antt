-- ===== src/Core/Matrix.antt =====
-- internal/core/action.go: the action matrix of a provider, from its declared capabilities or from
-- the legacy booleans.
use unseat.Base.{
  String, List, [], ◌∷◌, ◌++◌, Bool, true, false, ◌==◌, ◌≡◌, if◌then◌else◌, map, arith,
}
use unseat.Core.Types.{Capabilities}
use unseat.Core.Objects.{
  ActionCapability, ActionClass, user, workspace_member, add_user, suspend_login,
  remove_workspace_member, transfer_ownership, absent_on_rescan, status_on_rescan, supports_action,
  same_action,
}

-- The four appends of `LegacyActionCapabilities`.
add_capability : String → ActionCapability
add_capability provider = record {
  provider = provider;
  object_kind = workspace_member;
  action_class = add_user;
  effect = "adds or invites a user according to provider semantics";
  can_execute = true;
  can_verify = true;
  verified = false;
  destructive = false;
  requires_approval = false;
  verification = status_on_rescan;
  known_limits = [];
}

remove_capability : String → ActionCapability
remove_capability provider = record {
  provider = provider;
  object_kind = workspace_member;
  action_class = remove_workspace_member;
  effect =
      "removes, deactivates, suspends, or otherwise releases a user's workspace access according to provider semantics";
  can_execute = true;
  can_verify = true;
  verified = false;
  destructive = true;
  requires_approval = true;
  verification = absent_on_rescan;
  known_limits =
      "legacy CanRemove does not state whether the provider deletes, deactivates, suspends, or unassigns"
      ∷ [];
}

suspend_capability : String → ActionCapability
suspend_capability provider = record {
  provider = provider;
  object_kind = user;
  action_class = suspend_login;
  effect = "suspends login while retaining the provider object";
  can_execute = true;
  can_verify = true;
  verified = false;
  destructive = true;
  requires_approval = true;
  verification = status_on_rescan;
  known_limits = [];
}

role_capability : String → ActionCapability
role_capability provider = record {
  provider = provider;
  object_kind = workspace_member;
  action_class = transfer_ownership;
  effect = "changes role or ownership-like responsibility according to provider semantics";
  can_execute = true;
  can_verify = true;
  verified = false;
  destructive = false;
  requires_approval = true;
  verification = status_on_rescan;
  known_limits = "legacy CanSetRole does not prove ownership transfer semantics" ∷ [];
}

-- `LegacyActionCapabilities`
unfoldable pub legacy_action_capabilities : String → Capabilities → List ActionCapability
unfolding add_capability remove_capability suspend_capability role_capability
legacy_action_capabilities provider c =
    (if c.can_add then add_capability provider ∷ [] else [])
    ++ ((if c.can_remove then remove_capability provider ∷ [] else [])
        ++ ((if c.can_suspend then suspend_capability provider ∷ [] else [])
            ++ (if c.can_set_role then role_capability provider ∷ [] else [])))

-- The loop over the copy of the declared matrix.
unfoldable pub with_provider : String → ActionCapability → ActionCapability
with_provider provider a = if a.provider == "" then record a { provider = provider } else a

-- `Capabilities.ActionMatrix`
unfoldable pub action_matrix : Capabilities → String → List ActionCapability
unfolding with_provider
action_matrix c provider = elim c.actions [
  | [] ↦ legacy_action_capabilities provider c
  | a ∷ rest ↦ map (with_provider provider) (a ∷ rest)
]

-- What the matrix says of a class: the declared actions decide where there are any, and the legacy
-- booleans decide otherwise, for the four classes that they stand for.
abbrev pub legacy_supports : Capabilities → ActionClass → Bool
legacy_supports c add_user = c.can_add
legacy_supports c remove_workspace_member = c.can_remove
legacy_supports c suspend_login = c.can_suspend
legacy_supports c transfer_ownership = c.can_set_role
legacy_supports c _ = false

supports-legacy :
    (c : Capabilities) (provider : String) (class : ActionClass)
    → supports_action (legacy_action_capabilities provider c) class ≡ legacy_supports c class
unfolding supports_action legacy_action_capabilities same_action
supports-legacy c provider add_user = ground arith
supports-legacy c provider class = ground arith
