-- ===== src/Roles.antt =====
-- helios_permissions/role_permissions.go: the tests on roles and the universal permissions.
mod Tables
pub mod Laws
pub use Tables.{Role, role_owner, role_admin, role_editor, role_viewer}
unfoldable pub use Tables.{
  owner_permissions, admin_permissions, editor_permissions, viewer_permissions, role_permissions,
  roles,
}
use helios_permission_golang.Prelude.{
  Bool, true, false, not, none, some, List, [], ◌∷◌, ◌==◌, contains, lookup, if◌then◌else◌,
}
use helios_permission_golang.Permission.{Permission}
use helios_permission_golang.Scope.{is_self_scope}

-- `ROLE_PERMISSIONS[role]`: nil, which has no element, for a missing key
unfoldable pub permissions_of : Role → List Permission
permissions_of role = elim (lookup role role_permissions) [ none ↦ [] | some perms ↦ perms ]

unfoldable pub is_valid_role : Role → Bool
is_valid_role r =
    if r == role_owner
    then true
    else if r == role_admin
    then true
    else if r == role_editor
    then true
    else if r == role_viewer
    then true
    else false

unfoldable pub resolve_permissions : Role → List Permission
resolve_permissions role = elim (lookup role role_permissions) [ none ↦ [] | some perms ↦ perms ]

unfoldable pub role_has_permission : Role → Permission → Bool
unfolding permissions_of
role_has_permission role perm = contains (permissions_of role) perm

-- the loop of `IsUniversalPerm`
unfoldable pub every_role_has : List Role → Permission → Bool
every_role_has [] perm = true
every_role_has (role ∷ rs) perm =
    let rest = every_role_has rs perm in if not (role_has_permission role perm) then false else rest

unfoldable pub is_universal_perm : Permission → Bool
unfolding every_role_has
is_universal_perm perm = if is_self_scope perm then true else every_role_has roles perm
