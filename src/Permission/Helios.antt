-- ===== src/Permission/Helios.antt =====
-- helios_permissions/role_permissions.go: the permission constants of the service helios.
use helios_permission_golang.Prelude.{Str, bytes}

abbrev pub helios_external_register : Str
helios_external_register = bytes "helios:external:register"

abbrev pub helios_external_revoke : Str
helios_external_revoke = bytes "helios:external:revoke"

abbrev pub helios_external_view : Str
helios_external_view = bytes "helios:external:view"

abbrev pub helios_invitations_create : Str
helios_invitations_create = bytes "helios:invitations:create"

abbrev pub helios_invitations_revoke : Str
helios_invitations_revoke = bytes "helios:invitations:revoke"

abbrev pub helios_members_invite : Str
helios_members_invite = bytes "helios:members:invite"

abbrev pub helios_members_remove : Str
helios_members_remove = bytes "helios:members:remove"

abbrev pub helios_members_view : Str
helios_members_view = bytes "helios:members:view"

abbrev pub helios_roles_assign : Str
helios_roles_assign = bytes "helios:roles:assign"

abbrev pub helios_roles_revoke : Str
helios_roles_revoke = bytes "helios:roles:revoke"

abbrev pub helios_tenant_switch_self : Str
helios_tenant_switch_self = bytes "helios:tenant:switch:self"

abbrev pub helios_tenant_transfer : Str
helios_tenant_transfer = bytes "helios:tenant:transfer"
