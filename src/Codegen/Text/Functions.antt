-- ===== src/Codegen/Text/Functions.antt =====
-- cmd/codegen/main.go: the functions in the output that read PERM_SCOPE, and the frame of IsValidRole.
use helios_permission_golang.Prelude.{Str, List, [], ◌∷◌, bytes}
use helios_permission_golang.Codegen.Text.Utf8.{text}

unfoldable pub is_valid_permission_func : List Str
is_valid_permission_func =
    bytes "// IsValidPermission reports whether p is a known permission string."
    ∷ bytes "func IsValidPermission(p Permission) bool {"
    ∷ bytes "\t_, ok := PERM_SCOPE[p]"
    ∷ bytes "\treturn ok"
    ∷ bytes "}"
    ∷ []
    ∷ []

unfoldable pub is_valid_role_head : List Str
is_valid_role_head =
    bytes "// IsValidRole reports whether r is a known role string."
    ∷ bytes "func IsValidRole(r Role) bool {"
    ∷ bytes "\tswitch r {"
    ∷ []

unfoldable pub is_valid_role_tail : List Str
is_valid_role_tail = bytes "\t}" ∷ bytes "\treturn false" ∷ bytes "}" ∷ [] ∷ []

unfoldable pub is_self_scope_func : List Str
is_self_scope_func =
    text "// IsSelfScope reports whether perm has scope \"self\" (universal — granted"
    ∷ bytes "// without any role lookup). Used by the resolver's Step 1."
    ∷ bytes "func IsSelfScope(perm Permission) bool {"
    ∷ bytes "\treturn PERM_SCOPE[perm] == ScopeSelf"
    ∷ bytes "}"
    ∷ []
    ∷ []

unfoldable pub is_platform_grantable_func : List Str
is_platform_grantable_func =
    bytes "// IsPlatformGrantable reports whether perm is grantable via the"
    ∷ bytes "// platform-user path (scope is \"platform\" or \"platform/project\")."
    ∷ bytes "func IsPlatformGrantable(perm Permission) bool {"
    ∷ bytes "\ts := PERM_SCOPE[perm]"
    ∷ bytes "\treturn s == ScopePlatform || s == ScopePlatformProject"
    ∷ bytes "}"
    ∷ []
    ∷ []

unfoldable pub is_tenant_grantable_func : List Str
is_tenant_grantable_func =
    bytes "// IsTenantGrantable reports whether perm is grantable via the tenant-user"
    ∷ bytes "// path. Scope \"project\" and \"platform/project\" are grantable; any perm NOT"
    ∷ bytes "// in PERM_SCOPE is treated as tenant-defined and therefore grantable via"
    ∷ bytes "// TenantRole."
    ∷ bytes "func IsTenantGrantable(perm string) bool {"
    ∷ bytes "\ts, ok := PERM_SCOPE[Permission(perm)]"
    ∷ bytes "\tif !ok {"
    ∷ bytes "\t\treturn true"
    ∷ bytes "\t}"
    ∷ bytes "\treturn s == ScopeProject || s == ScopePlatformProject"
    ∷ bytes "}"
    ∷ []
    ∷ []
