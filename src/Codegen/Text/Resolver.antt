-- ===== src/Codegen/Text/Resolver.antt =====
-- cmd/codegen/main.go: the functions at the end of the output.
use helios_permission_golang.Prelude.{Str, List, [], ◌∷◌, bytes}
use helios_permission_golang.Codegen.Text.Utf8.{text}

unfoldable pub resolve_permissions_func : List Str
resolve_permissions_func =
    bytes "// ResolvePermissions returns ROLE_PERMISSIONS[role]. Returns an empty slice"
    ∷ text "// for unknown roles (defensive — caller code should be using the typed"
    ∷ bytes "// Role constants, but a runtime string from an untrusted source might not be)."
    ∷ bytes "func ResolvePermissions(role Role) []Permission {"
    ∷ bytes "\tif perms, ok := ROLE_PERMISSIONS[role]; ok {"
    ∷ bytes "\t\treturn perms"
    ∷ bytes "\t}"
    ∷ bytes "\treturn []Permission{}"
    ∷ bytes "}"
    ∷ []
    ∷ []

unfoldable pub role_has_permission_func : List Str
role_has_permission_func =
    bytes "// RoleHasPermission reports whether role is granted perm. Both args must be"
    ∷ text "// typed constants for the call to compile — a typo in a perm string will"
    ∷ bytes "// not satisfy the Permission type alias."
    ∷ bytes "func RoleHasPermission(role Role, perm Permission) bool {"
    ∷ bytes "\tfor _, p := range ROLE_PERMISSIONS[role] {"
    ∷ bytes "\t\tif p == perm {"
    ∷ bytes "\t\treturn true"
    ∷ bytes "\t\t}"
    ∷ bytes "\t}"
    ∷ bytes "\treturn false"
    ∷ bytes "}"
    ∷ []
    ∷ []

unfoldable pub is_universal_perm_func : List Str
is_universal_perm_func =
    text "// IsUniversalPerm reports whether perm is universal-by-contract — granted to"
    ∷ bytes "// every authenticated caller without consulting Helios. Holds when either the"
    ∷ bytes "// perm is self-scope, or it appears in every role's ROLE_PERMISSIONS entry"
    ∷ bytes "// (OWNER + ADMIN + EDITOR + VIEWER)."
    ∷ bytes "//"
    ∷ bytes "// Why this exists: Helios stores per-(user, tenant) membership rows. Root-tenant"
    ∷ bytes "// users (Mercury's platform admins) and any other tenantless caller have no row"
    ∷ bytes "// to look up. Without this short-circuit, every CallerHasPermission for a"
    ∷ bytes "// universal perm would resolve to not_a_member and 403 the caller. The contract"
    ∷ text "// invariant is that these perms do NOT depend on tenant membership — they are"
    ∷ bytes "// universal."
    ∷ bytes "//"
    ∷ bytes "// The check trusts the contract: if a perm is in every role's perm array, the"
    ∷ bytes "// contract author intends every authenticated user to have it. Adding a perm to"
    ∷ text "// all four roles is a deliberate, reviewable contract decision — the SDK honors"
    ∷ bytes "// it without re-fetching."
    ∷ bytes "func IsUniversalPerm(perm Permission) bool {"
    ∷ bytes "\tif IsSelfScope(perm) {"
    ∷ bytes "\t\treturn true"
    ∷ bytes "\t}"
    ∷ bytes "\tfor _, role := range Roles {"
    ∷ bytes "\t\tif !RoleHasPermission(role, perm) {"
    ∷ bytes "\t\t\treturn false"
    ∷ bytes "\t\t}"
    ∷ bytes "\t}"
    ∷ bytes "\treturn true"
    ∷ bytes "}"
    ∷ []
