-- ===== src/Roles/Laws.antt =====
-- helios_permissions/role_permissions.go: what the roles grant, for every role and permission text.
use helios_permission_golang.Prelude.{
  true, false, not, ◌&&◌, ◌||◌, [], ◌≡◌, ◌≢◌, ◌↔◌, refl, arith, if◌then◌else◌, ◌==◌, ==-comm, bytes,
  lookup, contains, all, all-contains, contains_mono,
}
use helios_permission_golang.Permission.{Permission, helios_tenant_transfer}
use helios_permission_golang.Scope.{
  is_self_scope, is_platform_grantable, self_permissions, platform_permissions, dual_permissions,
}
use helios_permission_golang.Scope.Laws.{scope_tests-partition}
use helios_permission_golang.Roles.{
  Role, role_owner, role_admin, role_editor, role_viewer, owner_permissions, admin_permissions,
  editor_permissions, viewer_permissions, role_permissions, roles, permissions_of, is_valid_role,
  resolve_permissions, role_has_permission, every_role_has, is_universal_perm,
}

tables : Unit {0}
unfolding all contains ◌==◌ bytes owner_permissions admin_permissions editor_permissions
    viewer_permissions self_permissions platform_permissions dual_permissions
tables = tt

chain :
    (all (contains editor_permissions) viewer_permissions ≡ true)
    × (all (contains admin_permissions) editor_permissions ≡ true)
    × (all (contains owner_permissions) admin_permissions ≡ true)
unfolding tables
chain = (refl, refl, refl)

-- What VIEWER may do, EDITOR may do; what EDITOR may do, ADMIN may do; what ADMIN may do, OWNER
-- may do.
pub roles_nested :
    (p : Permission)
    → (role_has_permission role_viewer p ≡ true → role_has_permission role_editor p ≡ true)
      × (role_has_permission role_editor p ≡ true → role_has_permission role_admin p ≡ true)
      × (role_has_permission role_admin p ≡ true → role_has_permission role_owner p ≡ true)
unfolding role_has_permission permissions_of role_permissions lookup ◌==◌ bytes
roles_nested p = (
  contains_mono viewer_permissions editor_permissions p chain.0,
  contains_mono editor_permissions admin_permissions p chain.1,
  contains_mono admin_permissions owner_permissions p chain.2,
)

-- A permission is universal exactly when it is self-scope or VIEWER, the smallest role, has it.
pub is_universal_perm-viewer :
    (p : Permission) → is_universal_perm p ≡ (is_self_scope p || role_has_permission role_viewer p)
unfolding is_universal_perm every_role_has roles
is_universal_perm-viewer p = ground (arith, roles_nested p)

-- Of a text that is none of the four roles, no permission; of a role, those of its list.
pub role_cases :
    (r : Role) (p : Permission)
    → role_has_permission r p ≡ (
        if role_owner == r
        then contains owner_permissions p
        else if role_admin == r
        then contains admin_permissions p
        else if role_editor == r
        then contains editor_permissions p
        else if role_viewer == r
        then contains viewer_permissions p
        else false)
unfolding role_has_permission permissions_of role_permissions lookup contains
role_cases r p = ground arith

owner_grantable :
    all
      (λ p.
        (contains platform_permissions p || contains dual_permissions p)
        && not (contains self_permissions p))
      owner_permissions
    ≡ true
unfolding tables
owner_grantable = refl

-- Every permission that a role has is grantable to a platform user and is not self-scope: no role
-- lists a self-scope, a project-scope or an unknown permission.
pub role_has_permission-is_platform_grantable :
    (r : Role) (p : Permission)
    → role_has_permission r p ≡ true
    → (is_platform_grantable p ≡ true) × (is_self_scope p ≡ false)
unfolding role_has_permission permissions_of role_permissions lookup contains
role_has_permission-is_platform_grantable r p h = ground (
  arith,
  scope_tests-partition p,
  all-contains _ owner_permissions p owner_grantable,
  contains_mono viewer_permissions editor_permissions p chain.0,
  contains_mono editor_permissions admin_permissions p chain.1,
  contains_mono admin_permissions owner_permissions p chain.2,
)

transfer_listed :
    (contains owner_permissions helios_tenant_transfer ≡ true)
    × (contains admin_permissions helios_tenant_transfer ≡ false)
    × (contains editor_permissions helios_tenant_transfer ≡ false)
    × (contains viewer_permissions helios_tenant_transfer ≡ false)
unfolding tables
transfer_listed = (refl, refl, refl, refl)

-- OWNER, and no other role or text, has the permission to transfer a tenant.
pub transfer_is_owner_only :
    (r : Role) → role_has_permission r helios_tenant_transfer ≡ (role_owner == r)
transfer_is_owner_only r = rw role_cases (ground (arith, transfer_listed))

-- `resolve_permissions` lists exactly what `role_has_permission` grants, nothing for a text that is
-- no role, and something for each role.
pub resolve_permissions-role_has_permission :
    (r : Role)
    → ((p : Permission) → contains (resolve_permissions r) p ≡ role_has_permission r p)
      × ((is_valid_role r ≡ true) ↔ (resolve_permissions r ≢ []))
unfolding resolve_permissions role_has_permission permissions_of is_valid_role role_permissions
    lookup owner_permissions admin_permissions editor_permissions viewer_permissions
resolve_permissions-role_has_permission r = (
  λ p. refl,
  ground (
    arith,
    ==-comm r role_owner,
    ==-comm r role_admin,
    ==-comm r role_editor,
    ==-comm r role_viewer,
  ),
)
