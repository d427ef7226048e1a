-- ===== src/Permission/Mercury.antt =====
-- helios_permissions/role_permissions.go: the permission constants of the service mercury.
use helios_permission_golang.Prelude.{Str, bytes}

abbrev pub mercury_api_keys_create : Str
mercury_api_keys_create = bytes "mercury:api_keys:create"

abbrev pub mercury_api_keys_manage : Str
mercury_api_keys_manage = bytes "mercury:api_keys:manage"

abbrev pub mercury_api_keys_read : Str
mercury_api_keys_read = bytes "mercury:api_keys:read"

abbrev pub mercury_api_keys_revoke : Str
mercury_api_keys_revoke = bytes "mercury:api_keys:revoke"

abbrev pub mercury_auth_config_read : Str
mercury_auth_config_read = bytes "mercury:auth_config:read"

abbrev pub mercury_auth_config_apple_create : Str
mercury_auth_config_apple_create = bytes "mercury:auth_config_apple:create"

abbrev pub mercury_auth_config_apple_update : Str
mercury_auth_config_apple_update = bytes "mercury:auth_config_apple:update"

abbrev pub mercury_auth_config_forgot_password_create : Str
mercury_auth_config_forgot_password_create = bytes "mercury:auth_config_forgot_password:create"

abbrev pub mercury_auth_config_forgot_password_read : Str
mercury_auth_config_forgot_password_read = bytes "mercury:auth_config_forgot_password:read"

abbrev pub mercury_auth_config_forgot_password_update : Str
mercury_auth_config_forgot_password_update = bytes "mercury:auth_config_forgot_password:update"

abbrev pub mercury_auth_config_oauth_create : Str
mercury_auth_config_oauth_create = bytes "mercury:auth_config_oauth:create"

abbrev pub mercury_auth_config_oauth_update : Str
mercury_auth_config_oauth_update = bytes "mercury:auth_config_oauth:update"

abbrev pub mercury_connection_read_self : Str
mercury_connection_read_self = bytes "mercury:connection:read:self"

abbrev pub mercury_connection_google_revoke_self : Str
mercury_connection_google_revoke_self = bytes "mercury:connection_google:revoke:self"

abbrev pub mercury_connection_imap_create_self : Str
mercury_connection_imap_create_self = bytes "mercury:connection_imap:create:self"

abbrev pub mercury_connection_imap_revoke_self : Str
mercury_connection_imap_revoke_self = bytes "mercury:connection_imap:revoke:self"

abbrev pub mercury_connection_oauth_complete_self : Str
mercury_connection_oauth_complete_self = bytes "mercury:connection_oauth:complete:self"

abbrev pub mercury_connection_oauth_initiate_self : Str
mercury_connection_oauth_initiate_self = bytes "mercury:connection_oauth:initiate:self"

abbrev pub mercury_connection_oauth_refresh : Str
mercury_connection_oauth_refresh = bytes "mercury:connection_oauth:refresh"

abbrev pub mercury_connection_slack_phrase_create_self : Str
mercury_connection_slack_phrase_create_self = bytes "mercury:connection_slack:phrase_create:self"

abbrev pub mercury_connection_slack_revoke_self : Str
mercury_connection_slack_revoke_self = bytes "mercury:connection_slack:revoke:self"

abbrev pub mercury_events_consume : Str
mercury_events_consume = bytes "mercury:events:consume"

abbrev pub mercury_service_clients_read : Str
mercury_service_clients_read = bytes "mercury:service_clients:read"

abbrev pub mercury_user_delete_self : Str
mercury_user_delete_self = bytes "mercury:user:delete:self"

abbrev pub mercury_user_read_self : Str
mercury_user_read_self = bytes "mercury:user:read:self"

abbrev pub mercury_user_write_self : Str
mercury_user_write_self = bytes "mercury:user:write:self"

abbrev pub mercury_users_batch_read : Str
mercury_users_batch_read = bytes "mercury:users:batch_read"

abbrev pub mercury_users_read : Str
mercury_users_read = bytes "mercury:users:read"

abbrev pub mercury_users_write : Str
mercury_users_write = bytes "mercury:users:write"
