-- ===== src/Codegen/Text/Header.antt =====
-- cmd/codegen/main.go: the fixed lines at the start of the output.
use helios_permission_golang.Prelude.{Str, List, [], ◌∷◌, bytes}
use helios_permission_golang.Codegen.Text.Utf8.{text}

unfoldable pub first_line : List Str
first_line = bytes "// Code generated by permission-contract/codegen-go.mjs DO NOT EDIT." ∷ []

-- After the line with the date.
unfoldable pub about_file : List Str
about_file =
    bytes "// Regenerate via: node scripts/codegen-go.mjs permissions.json > role_permissions.go"
    ∷ bytes "//"
    ∷ bytes "// The Permission type, PERM_SCOPE map, and ROLE_PERMISSIONS map are derived"
    ∷ text "// from the language-agnostic JSON contract. To change the platform's role →"
    ∷ bytes "// permission matrix, edit permissions.json in wazobiatech/permission-contract"
    ∷ text "// and re-run codegen — do not edit this file by hand."
    ∷ bytes "//"
    ∷ bytes "// Permission naming convention: {service}:{resource}:{action}."
    ∷ []

-- After the line with the services.
unfoldable pub about_scopes : List Str
about_scopes =
    text "//   resource — domain noun (project, users, posts, members, ...)"
    ∷ text "//   action   — verb (view, write, delete, manage, ...)"
    ∷ bytes "//"
    ∷ text "// v1.3.0 perm scopes — the resolver uses PERM_SCOPE[perm] to gate which"
    ∷ bytes "// path (platform-user vs tenant-user) is valid for a given perm:"
    ∷ text "//   self              — universal, granted implicitly (no role needed)"
    ∷ text "//   platform          — granted via ROLE_PERMISSIONS (platform-user path);"
    ∷ bytes "//                       cannot be bundled into a TenantRole"
    ∷ text "//   project           — granted via TenantRole (tenant-user path);"
    ∷ bytes "//                       cannot appear in ROLE_PERMISSIONS"
    ∷ text "//   platform/project  — valid via either path (dual-scope)."
    ∷ bytes "//"
    ∷ bytes "// Package helios_permissions mirrors the TS / Python SDKs. Callers gate"
    ∷ bytes "// decisions on the returned []Permission; a perm not listed in this file is"
    ∷ bytes "// a typo and will fail to compile against the Permission type alias."
    ∷ bytes "package helios_permissions"
    ∷ []
    ∷ []

unfoldable pub about_roles : List Str
about_roles =
    bytes "// Role is the closed enum of platform roles. Mirrors the RoleType Prisma"
    ∷ bytes "// enum in Helios. New roles must be added to the contract's roles[] array"
    ∷ bytes "// and the codegen re-run."
    ∷ bytes "type Role string"
    ∷ []
    ∷ bytes "const ("
    ∷ []

unfoldable pub about_permissions : List Str
about_permissions =
    bytes "// Permission is the closed string union of every permission in the platform."
    ∷ bytes "// Compile-time guard: a perm not listed here is a typo."
    ∷ bytes "type Permission string"
    ∷ []
    ∷ bytes "const ("
    ∷ []

unfoldable pub scope_block : List Str
scope_block =
    bytes "// PermScope is the closed set of valid permission scopes. Mirrors the"
    ∷ bytes "// contract's scope enum."
    ∷ bytes "type PermScope string"
    ∷ []
    ∷ bytes "const ("
    ∷ bytes "\tScopeSelf              PermScope = \"self\""
    ∷ bytes "\tScopePlatform          PermScope = \"platform\""
    ∷ bytes "\tScopeProject           PermScope = \"project\""
    ∷ bytes "\tScopePlatformProject   PermScope = \"platform/project\""
    ∷ bytes ")"
    ∷ []
    ∷ []
