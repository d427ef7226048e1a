-- ===== src/Scope.antt =====
-- helios_permissions/role_permissions.go: the tests on scopes.
mod Tables
pub mod Laws
pub use Tables.{PermScope, scope_self, scope_platform, scope_project, scope_platform_project}
unfoldable pub use Tables.{
  self_permissions, platform_permissions, project_permissions, dual_permissions, perm_scope,
}
use helios_permission_golang.Prelude.{
  Str, Bool, true, false, ◌||◌, Option, none, some, [], ◌==◌, lookup,
}
use helios_permission_golang.Permission.{Permission}

abbrev is_some {ℓ} : {A : Type ℓ} → Option A → Bool
is_some none = false
is_some (some a) = true

-- `PERM_SCOPE[perm]`: the zero value of a string for a missing key
unfoldable pub scope_of : Permission → PermScope
scope_of perm = elim (lookup perm perm_scope) [ none ↦ [] | some s ↦ s ]

unfoldable pub is_valid_permission : Permission → Bool
is_valid_permission p = is_some (lookup p perm_scope)

unfoldable pub is_self_scope : Permission → Bool
unfolding scope_of
is_self_scope perm = scope_of perm == scope_self

unfoldable pub is_platform_grantable : Permission → Bool
unfolding scope_of
is_platform_grantable perm =
    let s = scope_of perm in s == scope_platform || s == scope_platform_project

unfoldable pub is_tenant_grantable : Str → Bool
is_tenant_grantable perm = elim (lookup perm perm_scope) [
  | none ↦ true
  | some s ↦ s == scope_project || s == scope_platform_project
]
