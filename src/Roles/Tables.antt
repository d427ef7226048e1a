-- ===== src/Roles/Tables.antt =====
-- helios_permissions/role_permissions.go: `Role`, `Roles` and `ROLE_PERMISSIONS`.
use helios_permission_golang.Prelude.{Str, bytes, Table, List, [], ◌∷◌}
use helios_permission_golang.Permission
use helios_permission_golang.Permission.{Permission}

-- `type Role string`
abbrev pub Role : Type 0
Role = Str

abbrev pub role_owner : Role
role_owner = bytes "OWNER"

abbrev pub role_admin : Role
role_admin = bytes "ADMIN"

abbrev pub role_editor : Role
role_editor = bytes "EDITOR"

abbrev pub role_viewer : Role
role_viewer = bytes "VIEWER"

unfoldable pub owner_permissions : List Permission
owner_permissions =
    Permission.athens_project_delete ∷ Permission.athens_project_update
    ∷ Permission.athens_project_view ∷ Permission.athens_services_disable
    ∷ Permission.athens_services_enable ∷ Permission.athens_team_invite
    ∷ Permission.athens_team_remove ∷ Permission.helios_external_register
    ∷ Permission.helios_external_revoke ∷ Permission.helios_external_view
    ∷ Permission.helios_invitations_create ∷ Permission.helios_invitations_revoke
    ∷ Permission.helios_members_invite ∷ Permission.helios_members_remove
    ∷ Permission.helios_members_view ∷ Permission.helios_roles_assign
    ∷ Permission.helios_roles_revoke ∷ Permission.helios_tenant_transfer
    ∷ Permission.mercury_api_keys_create ∷ Permission.mercury_api_keys_manage
    ∷ Permission.mercury_api_keys_read ∷ Permission.mercury_api_keys_revoke
    ∷ Permission.mercury_auth_config_read ∷ Permission.mercury_auth_config_apple_create
    ∷ Permission.mercury_auth_config_apple_update
    ∷ Permission.mercury_auth_config_forgot_password_create
    ∷ Permission.mercury_auth_config_forgot_password_read
    ∷ Permission.mercury_auth_config_forgot_password_update
    ∷ Permission.mercury_auth_config_oauth_create ∷ Permission.mercury_auth_config_oauth_update
    ∷ Permission.mercury_connection_oauth_refresh ∷ Permission.mercury_events_consume
    ∷ Permission.mercury_service_clients_read ∷ Permission.mercury_users_batch_read
    ∷ Permission.mercury_users_read ∷ Permission.mercury_users_write ∷ Permission.muse_author_create
    ∷ Permission.muse_author_delete ∷ Permission.muse_author_read ∷ Permission.muse_blog_create
    ∷ Permission.muse_blog_read ∷ []

unfoldable pub admin_permissions : List Permission
admin_permissions =
    Permission.athens_project_update ∷ Permission.athens_project_view
    ∷ Permission.athens_services_disable ∷ Permission.athens_services_enable
    ∷ Permission.athens_team_invite ∷ Permission.athens_team_remove
    ∷ Permission.helios_external_view ∷ Permission.helios_invitations_create
    ∷ Permission.helios_invitations_revoke ∷ Permission.helios_members_invite
    ∷ Permission.helios_members_remove ∷ Permission.helios_members_view
    ∷ Permission.helios_roles_assign ∷ Permission.helios_roles_revoke
    ∷ Permission.mercury_api_keys_create ∷ Permission.mercury_api_keys_read
    ∷ Permission.mercury_api_keys_revoke ∷ Permission.mercury_auth_config_read
    ∷ Permission.mercury_auth_config_apple_create ∷ Permission.mercury_auth_config_apple_update
    ∷ Permission.mercury_auth_config_forgot_password_create
    ∷ Permission.mercury_auth_config_forgot_password_read
    ∷ Permission.mercury_auth_config_forgot_password_update
    ∷ Permission.mercury_auth_config_oauth_create ∷ Permission.mercury_auth_config_oauth_update
    ∷ Permission.mercury_connection_oauth_refresh ∷ Permission.mercury_events_consume
    ∷ Permission.mercury_service_clients_read ∷ Permission.mercury_users_read
    ∷ Permission.mercury_users_write ∷ Permission.muse_author_create ∷ Permission.muse_author_read
    ∷ Permission.muse_blog_create ∷ Permission.muse_blog_read ∷ []

unfoldable pub editor_permissions : List Permission
editor_permissions =
    Permission.athens_project_view ∷ Permission.mercury_api_keys_read
    ∷ Permission.mercury_service_clients_read ∷ Permission.mercury_users_read
    ∷ Permission.muse_author_create ∷ Permission.muse_author_read ∷ Permission.muse_blog_create
    ∷ Permission.muse_blog_read ∷ []

unfoldable pub viewer_permissions : List Permission
viewer_permissions =
    Permission.athens_project_view ∷ Permission.mercury_api_keys_read
    ∷ Permission.mercury_service_clients_read ∷ Permission.mercury_users_read
    ∷ Permission.muse_author_read ∷ Permission.muse_blog_read ∷ []

unfoldable pub role_permissions : Table (List Permission)
role_permissions =
    (role_owner, owner_permissions)
    ∷ (role_admin, admin_permissions)
    ∷ (role_editor, editor_permissions)
    ∷ (role_viewer, viewer_permissions)
    ∷ []

unfoldable pub roles : List Role
roles = role_owner ∷ role_admin ∷ role_editor ∷ role_viewer ∷ []
