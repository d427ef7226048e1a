-- ===== src/Permission/Zeta.antt =====
-- helios_permissions/role_permissions.go: the permission constants of the service zeta.
use helios_permission_golang.Prelude.{Str, bytes}

abbrev pub zeta_billing_manage : Str
zeta_billing_manage = bytes "zeta:billing:manage"

abbrev pub zeta_billing_view : Str
zeta_billing_view = bytes "zeta:billing:view"

abbrev pub zeta_drivers_manage : Str
zeta_drivers_manage = bytes "zeta:drivers:manage"

abbrev pub zeta_drivers_view : Str
zeta_drivers_view = bytes "zeta:drivers:view"

abbrev pub zeta_fines_assign : Str
zeta_fines_assign = bytes "zeta:fines:assign"

abbrev pub zeta_fines_challenge : Str
zeta_fines_challenge = bytes "zeta:fines:challenge"

abbrev pub zeta_fines_create : Str
zeta_fines_create = bytes "zeta:fines:create"

abbrev pub zeta_fines_pay : Str
zeta_fines_pay = bytes "zeta:fines:pay"

abbrev pub zeta_fines_view : Str
zeta_fines_view = bytes "zeta:fines:view"

abbrev pub zeta_fleet_edit : Str
zeta_fleet_edit = bytes "zeta:fleet:edit"

abbrev pub zeta_fleet_view : Str
zeta_fleet_view = bytes "zeta:fleet:view"

abbrev pub zeta_reports_view : Str
zeta_reports_view = bytes "zeta:reports:view"

abbrev pub zeta_team_manage : Str
zeta_team_manage = bytes "zeta:team:manage"

abbrev pub zeta_tenant_configure : Str
zeta_tenant_configure = bytes "zeta:tenant:configure"
