-- ===== src/Tests/Permissions.antt =====
-- Cases of helios_permissions_test/role_permissions_test.go.
use helios_permission_golang.Prelude.{
  negsuc, ◌-◌, ◌^◌, ◌*◌, true, false, not, ◌||◌, [], ◌≡◌, ◌≢◌, ◌↔◌, refl, bytes, ◌==◌, lookup,
  contains, pos, arith,
}
use helios_permission_golang.Permission
use helios_permission_golang.Permission.{Permission}
use helios_permission_golang.Scope.{
  self_permissions, platform_permissions, project_permissions, dual_permissions, perm_scope,
  is_valid_permission, is_self_scope, is_platform_grantable, is_tenant_grantable,
}
use helios_permission_golang.Scope.Laws.{scope_tests-partition}
use helios_permission_golang.Roles.{
  role_owner, role_admin, role_editor, role_viewer, role_permissions, roles, owner_permissions,
  admin_permissions, editor_permissions, viewer_permissions, is_valid_role, resolve_permissions,
  role_has_permission, every_role_has, is_universal_perm,
}
use helios_permission_golang.Roles.Laws.{
  roles_nested, is_universal_perm-viewer, role_has_permission-is_platform_grantable,
  resolve_permissions-role_has_permission,
}
use helios_permission_golang.Duration.{second, seconds_to_duration, seconds_to_duration_overflow}

tables : Unit {0}
unfolding lookup contains ◌==◌ bytes self_permissions perm_scope role_permissions roles
    owner_permissions admin_permissions editor_permissions viewer_permissions is_valid_role
    resolve_permissions role_has_permission every_role_has is_universal_perm is_valid_permission
    is_self_scope is_platform_grantable is_tenant_grantable
tables = tt

roles_and_permissions :
    (role_has_permission role_viewer Permission.athens_project_view ≡ true)
    × (role_has_permission role_viewer Permission.athens_project_delete ≡ false)
    × (role_has_permission role_owner Permission.athens_project_delete ≡ true)
    × (is_valid_role (bytes "GUEST") ≡ false)
    × (resolve_permissions (bytes "GUEST") ≡ [])
unfolding tables
roles_and_permissions = (refl, refl, refl, refl, refl)

scopes :
    (is_valid_permission Permission.muse_author_read ≡ true)
    × (is_tenant_grantable Permission.muse_author_read ≡ true)
    × (is_platform_grantable Permission.muse_author_read ≡ true)
    × (is_tenant_grantable Permission.athens_project_view ≡ false)
    × (is_valid_permission (bytes "crm:deals:view") ≡ false)
    × (is_tenant_grantable (bytes "crm:deals:view") ≡ true)
unfolding tables
scopes = (refl, refl, refl, refl, refl, refl)

universal :
    (is_universal_perm Permission.mercury_user_read_self ≡ true)
    × (is_universal_perm Permission.athens_project_view ≡ true)
    × (is_universal_perm Permission.athens_project_delete ≡ false)
unfolding tables
universal = (refl, refl, refl)

abbrev view : Permission
view = Permission.athens_project_view

abbrev transfer : Permission
transfer = Permission.helios_tenant_transfer

scope_tests-partition_example :
    (is_valid_permission transfer ≡ (
      contains self_permissions transfer
      || contains platform_permissions transfer
      || contains project_permissions transfer
      || contains dual_permissions transfer))
    × (is_self_scope transfer ≡ contains self_permissions transfer)
    × (is_platform_grantable transfer
        ≡ (contains platform_permissions transfer || contains dual_permissions transfer))
    × (is_tenant_grantable transfer
        ≡ not (contains self_permissions transfer || contains platform_permissions transfer))
scope_tests-partition_example = scope_tests-partition transfer

roles_nested_example :
    (role_has_permission role_viewer view ≡ true → role_has_permission role_editor view ≡ true)
    × (role_has_permission role_editor view ≡ true → role_has_permission role_admin view ≡ true)
    × (role_has_permission role_admin view ≡ true → role_has_permission role_owner view ≡ true)
roles_nested_example = roles_nested view

is_universal_perm-viewer_example :
    is_universal_perm view ≡ (is_self_scope view || role_has_permission role_viewer view)
is_universal_perm-viewer_example = is_universal_perm-viewer view

role_has_permission-is_platform_grantable_example :
    (is_platform_grantable transfer ≡ true) × (is_self_scope transfer ≡ false)
unfolding tables
role_has_permission-is_platform_grantable_example =
    role_has_permission-is_platform_grantable role_owner transfer refl

resolve_permissions-role_has_permission_example :
    ((p : Permission)
      → contains (resolve_permissions role_editor) p ≡ role_has_permission role_editor p)
    × ((is_valid_role role_editor ≡ true) ↔ (resolve_permissions role_editor ≢ []))
resolve_permissions-role_has_permission_example =
    resolve_permissions-role_has_permission role_editor

seconds_to_duration_overflow_example :
    seconds_to_duration (pos 9223372037) ≡ negsuc (2 ^ 64 - 1 - 9223372037 * second)
seconds_to_duration_overflow_example =
    seconds_to_duration_overflow 9223372037 (omega arith) (omega arith)
