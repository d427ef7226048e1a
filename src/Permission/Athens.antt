-- ===== src/Permission/Athens.antt =====
-- helios_permissions/role_permissions.go: the permission constants of the service athens.
use helios_permission_golang.Prelude.{Str, bytes}

abbrev pub athens_project_delete : Str
athens_project_delete = bytes "athens:project:delete"

abbrev pub athens_project_update : Str
athens_project_update = bytes "athens:project:update"

abbrev pub athens_project_view : Str
athens_project_view = bytes "athens:project:view"

abbrev pub athens_services_disable : Str
athens_services_disable = bytes "athens:services:disable"

abbrev pub athens_services_enable : Str
athens_services_enable = bytes "athens:services:enable"

abbrev pub athens_team_invite : Str
athens_team_invite = bytes "athens:team:invite"

abbrev pub athens_team_remove : Str
athens_team_remove = bytes "athens:team:remove"
