-- ===== src/Codegen/Text/Around.antt =====
-- cmd/codegen/main.go: the fixed lines before the tuples and the maps.
use helios_permission_golang.Prelude.{Str, List, [], ◌∷◌, bytes}
use helios_permission_golang.Codegen.Text.Utf8.{text}

unfoldable pub about_self : List Str
about_self =
    text "// SELF_PERMISSIONS — universal perms granted implicitly to every"
    ∷ bytes "// authenticated user. Never appear in any ROLE_PERMISSIONS entry."
    ∷ []

unfoldable pub about_platform : List Str
about_platform =
    text "// PLATFORM_PERMISSIONS — granted via ROLE_PERMISSIONS[role] (platform-user"
    ∷ bytes "// path). Cannot be bundled into a TenantRole."
    ∷ []

unfoldable pub about_project : List Str
about_project =
    text "// PROJECT_PERMISSIONS — granted via TenantRole (tenant-user path). Cannot"
    ∷ bytes "// appear in any ROLE_PERMISSIONS entry."
    ∷ []

unfoldable pub about_dual : List Str
about_dual =
    text "// DUAL_PERMISSIONS — valid via either the platform-user path"
    ∷ bytes "// (ROLE_PERMISSIONS) or the tenant-user path (TenantRole bundle)."
    ∷ []

unfoldable pub about_perm_scope : List Str
about_perm_scope =
    text "// PERM_SCOPE — perm → scope lookup, populated at module load. The two-track"
    ∷ bytes "// resolver in Helios checks PERM_SCOPE[perm] to decide which path"
    ∷ bytes "// (platform-user vs tenant-user) is valid for the perm."
    ∷ bytes "var PERM_SCOPE = map[Permission]PermScope{"
    ∷ []

unfoldable pub about_roles_slice : List Str
about_roles_slice =
    bytes "// Roles lists every role in the platform. Same order as the contract's"
    ∷ bytes "// roles[] array."
    ∷ bytes "var Roles = []Role{"
    ∷ []

unfoldable pub about_role_permissions : List Str
about_role_permissions =
    text "// ROLE_PERMISSIONS is the canonical role → permission map. Every role lists"
    ∷ text "// its permissions explicitly — there is no inheritance. The contract"
    ∷ bytes "// validator (scripts/validate.mjs) enforces:"
    ∷ bytes "//   - helios:tenant:switch:self is present as a self-scope perm (universal)."
    ∷ bytes "//   - helios:tenant:transfer is OWNER-only (platform scope)."
    ∷ bytes "//   - Every role has >= 1 permission."
    ∷ bytes "//   - No role references a perm outside the vocabulary."
    ∷ bytes "//   - No self or project perms in any role."
    ∷ bytes "var ROLE_PERMISSIONS = map[Role][]Permission{"
    ∷ []
