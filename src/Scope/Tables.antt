-- ===== src/Scope/Tables.antt =====
-- helios_permissions/role_permissions.go: `PermScope`, the four partitions and `PERM_SCOPE`.
use helios_permission_golang.Prelude.{Str, bytes, Table, List, [], ◌∷◌}
use helios_permission_golang.Permission
use helios_permission_golang.Permission.{Permission}

-- `type PermScope string`
abbrev pub PermScope : Type 0
PermScope = Str

abbrev pub scope_self : PermScope
scope_self = bytes "self"

abbrev pub scope_platform : PermScope
scope_platform = bytes "platform"

abbrev pub scope_project : PermScope
scope_project = bytes "project"

abbrev pub scope_platform_project : PermScope
scope_platform_project = bytes "platform/project"

unfoldable pub self_permissions : List Permission
self_permissions =
    Permission.mercury_user_read_self ∷ Permission.mercury_user_write_self
    ∷ Permission.mercury_user_delete_self ∷ Permission.mercury_connection_read_self
    ∷ Permission.mercury_connection_slack_phrase_create_self
    ∷ Permission.mercury_connection_oauth_initiate_self
    ∷ Permission.mercury_connection_oauth_complete_self
    ∷ Permission.mercury_connection_slack_revoke_self
    ∷ Permission.mercury_connection_google_revoke_self
    ∷ Permission.mercury_connection_imap_revoke_self
    ∷ Permission.mercury_connection_imap_create_self ∷ Permission.helios_tenant_switch_self ∷ []

unfoldable pub platform_permissions : List Permission
platform_permissions =
    Permission.athens_project_view ∷ Permission.athens_project_update
    ∷ Permission.athens_project_delete ∷ Permission.athens_services_enable
    ∷ Permission.athens_services_disable ∷ Permission.athens_team_invite
    ∷ Permission.athens_team_remove ∷ Permission.mercury_users_read ∷ Permission.mercury_users_write
    ∷ Permission.mercury_users_batch_read ∷ Permission.mercury_api_keys_create
    ∷ Permission.mercury_api_keys_revoke ∷ Permission.mercury_api_keys_read
    ∷ Permission.mercury_api_keys_manage ∷ Permission.mercury_service_clients_read
    ∷ Permission.mercury_auth_config_read ∷ Permission.mercury_auth_config_apple_create
    ∷ Permission.mercury_auth_config_apple_update ∷ Permission.mercury_auth_config_oauth_create
    ∷ Permission.mercury_auth_config_oauth_update
    ∷ Permission.mercury_auth_config_forgot_password_create
    ∷ Permission.mercury_auth_config_forgot_password_update
    ∷ Permission.mercury_auth_config_forgot_password_read
    ∷ Permission.mercury_connection_oauth_refresh ∷ Permission.mercury_events_consume
    ∷ Permission.muse_blog_create ∷ Permission.muse_blog_read ∷ Permission.muse_author_create
    ∷ Permission.muse_author_delete ∷ Permission.helios_tenant_transfer
    ∷ Permission.helios_members_view ∷ Permission.helios_members_invite
    ∷ Permission.helios_members_remove ∷ Permission.helios_roles_assign
    ∷ Permission.helios_roles_revoke ∷ Permission.helios_invitations_create
    ∷ Permission.helios_invitations_revoke ∷ Permission.helios_external_register
    ∷ Permission.helios_external_revoke ∷ Permission.helios_external_view ∷ []

unfoldable pub project_permissions : List Permission
project_permissions =
    Permission.muse_posts_read ∷ Permission.muse_posts_write ∷ Permission.muse_posts_delete
    ∷ Permission.muse_drafts_read ∷ Permission.muse_drafts_write ∷ Permission.zeta_fines_view
    ∷ Permission.zeta_fines_create ∷ Permission.zeta_fines_pay ∷ Permission.zeta_fines_challenge
    ∷ Permission.zeta_fines_assign ∷ Permission.zeta_fleet_view ∷ Permission.zeta_fleet_edit
    ∷ Permission.zeta_drivers_view ∷ Permission.zeta_drivers_manage ∷ Permission.zeta_reports_view
    ∷ Permission.zeta_billing_view ∷ Permission.zeta_billing_manage ∷ Permission.zeta_team_manage
    ∷ Permission.zeta_tenant_configure ∷ []

unfoldable pub dual_permissions : List Permission
dual_permissions = Permission.muse_author_read ∷ []

unfoldable pub perm_scope : Table PermScope
perm_scope =
    (Permission.mercury_user_read_self, scope_self)
    ∷ (Permission.mercury_user_write_self, scope_self)
    ∷ (Permission.mercury_user_delete_self, scope_self)
    ∷ (Permission.mercury_connection_read_self, scope_self)
    ∷ (Permission.mercury_connection_slack_phrase_create_self, scope_self)
    ∷ (Permission.mercury_connection_oauth_initiate_self, scope_self)
    ∷ (Permission.mercury_connection_oauth_complete_self, scope_self)
    ∷ (Permission.mercury_connection_slack_revoke_self, scope_self)
    ∷ (Permission.mercury_connection_google_revoke_self, scope_self)
    ∷ (Permission.mercury_connection_imap_revoke_self, scope_self)
    ∷ (Permission.mercury_connection_imap_create_self, scope_self)
    ∷ (Permission.helios_tenant_switch_self, scope_self)
    ∷ (Permission.athens_project_view, scope_platform)
    ∷ (Permission.athens_project_update, scope_platform)
    ∷ (Permission.athens_project_delete, scope_platform)
    ∷ (Permission.athens_services_enable, scope_platform)
    ∷ (Permission.athens_services_disable, scope_platform)
    ∷ (Permission.athens_team_invite, scope_platform)
    ∷ (Permission.athens_team_remove, scope_platform)
    ∷ (Permission.mercury_users_read, scope_platform)
    ∷ (Permission.mercury_users_write, scope_platform)
    ∷ (Permission.mercury_users_batch_read, scope_platform)
    ∷ (Permission.mercury_api_keys_create, scope_platform)
    ∷ (Permission.mercury_api_keys_revoke, scope_platform)
    ∷ (Permission.mercury_api_keys_read, scope_platform)
    ∷ (Permission.mercury_api_keys_manage, scope_platform)
    ∷ (Permission.mercury_service_clients_read, scope_platform)
    ∷ (Permission.mercury_auth_config_read, scope_platform)
    ∷ (Permission.mercury_auth_config_apple_create, scope_platform)
    ∷ (Permission.mercury_auth_config_apple_update, scope_platform)
    ∷ (Permission.mercury_auth_config_oauth_create, scope_platform)
    ∷ (Permission.mercury_auth_config_oauth_update, scope_platform)
    ∷ (Permission.mercury_auth_config_forgot_password_create, scope_platform)
    ∷ (Permission.mercury_auth_config_forgot_password_update, scope_platform)
    ∷ (Permission.mercury_auth_config_forgot_password_read, scope_platform)
    ∷ (Permission.mercury_connection_oauth_refresh, scope_platform)
    ∷ (Permission.mercury_events_consume, scope_platform)
    ∷ (Permission.muse_blog_create, scope_platform)
    ∷ (Permission.muse_blog_read, scope_platform)
    ∷ (Permission.muse_author_create, scope_platform)
    ∷ (Permission.muse_author_delete, scope_platform)
    ∷ (Permission.helios_tenant_transfer, scope_platform)
    ∷ (Permission.helios_members_view, scope_platform)
    ∷ (Permission.helios_members_invite, scope_platform)
    ∷ (Permission.helios_members_remove, scope_platform)
    ∷ (Permission.helios_roles_assign, scope_platform)
    ∷ (Permission.helios_roles_revoke, scope_platform)
    ∷ (Permission.helios_invitations_create, scope_platform)
    ∷ (Permission.helios_invitations_revoke, scope_platform)
    ∷ (Permission.helios_external_register, scope_platform)
    ∷ (Permission.helios_external_revoke, scope_platform)
    ∷ (Permission.helios_external_view, scope_platform)
    ∷ (Permission.muse_posts_read, scope_project)
    ∷ (Permission.muse_posts_write, scope_project)
    ∷ (Permission.muse_posts_delete, scope_project)
    ∷ (Permission.muse_drafts_read, scope_project)
    ∷ (Permission.muse_drafts_write, scope_project)
    ∷ (Permission.zeta_fines_view, scope_project)
    ∷ (Permission.zeta_fines_create, scope_project)
    ∷ (Permission.zeta_fines_pay, scope_project)
    ∷ (Permission.zeta_fines_challenge, scope_project)
    ∷ (Permission.zeta_fines_assign, scope_project)
    ∷ (Permission.zeta_fleet_view, scope_project)
    ∷ (Permission.zeta_fleet_edit, scope_project)
    ∷ (Permission.zeta_drivers_view, scope_project)
    ∷ (Permission.zeta_drivers_manage, scope_project)
    ∷ (Permission.zeta_reports_view, scope_project)
    ∷ (Permission.zeta_billing_view, scope_project)
    ∷ (Permission.zeta_billing_manage, scope_project)
    ∷ (Permission.zeta_team_manage, scope_project)
    ∷ (Permission.zeta_tenant_configure, scope_project)
    ∷ (Permission.muse_author_read, scope_platform_project)
    ∷ []
