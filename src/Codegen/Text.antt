-- ===== src/Codegen/Text.antt =====
-- cmd/codegen/main.go: the text that `emit` writes, line by line.
pub mod Utf8
pub mod Sections
pub mod Reading
pub mod Blocks
pub mod RoundTrip
pub mod Newlines
pub mod Lines
pub mod Declares
pub mod Header
pub mod Around
pub mod Functions
pub mod Resolver
use helios_permission_golang.Prelude.{
  ℕ, ltb, nat_eq, ◌||◌, if◌then◌else◌, Str, List, [], ◌∷◌, ◌++◌, bytes,
}
use helios_permission_golang.Errors.{Result, ok, err, panic}
use helios_permission_golang.Helios.Hex.{encode_to_string}
use helios_permission_golang.Codegen.{Contract, map, Emitted, emit}
use helios_permission_golang.Codegen.Text.Utf8.{text}
use helios_permission_golang.Codegen.Text.Header.{
  first_line, about_file, about_scopes, about_roles, about_permissions, scope_block,
}
use helios_permission_golang.Codegen.Text.Around.{
  about_self, about_platform, about_project, about_dual, about_perm_scope, about_roles_slice,
  about_role_permissions,
}
use helios_permission_golang.Codegen.Text.Functions.{
  is_valid_permission_func, is_valid_role_head, is_valid_role_tail, is_self_scope_func,
  is_platform_grantable_func, is_tenant_grantable_func,
}
use helios_permission_golang.Codegen.Text.Resolver.{
  resolve_permissions_func, role_has_permission_func, is_universal_perm_func,
}

-- One byte of a text in ASCII under `%q`.
abbrev quote_byte : ℕ → Str
quote_byte x =
    if nat_eq x b'"'
    then bytes "\\\""
    else if nat_eq x b'\\'
    then bytes "\\\\"
    else if nat_eq x 7
    then bytes "\\a"
    else if nat_eq x 8
    then bytes "\\b"
    else if nat_eq x 9
    then bytes "\\t"
    else if nat_eq x 10
    then bytes "\\n"
    else if nat_eq x 11
    then bytes "\\v"
    else if nat_eq x 12
    then bytes "\\f"
    else if nat_eq x 13
    then bytes "\\r"
    else if ltb x 32 || nat_eq x 127
    then bytes "\\x" ++ encode_to_string (x ∷ [])
    else x ∷ []

unfoldable pub quoted : Str → Str
quoted [] = bytes "\""
quoted (x ∷ s) = quote_byte x ++ quoted s

-- `%q`, of texts in ASCII.
abbrev pub quote : Str → Str
quote s = bytes "\"" ++ quoted s

-- `strings.Join(xs, ", ")`
unfoldable pub join_commas : List Str → Str
join_commas [] = []
join_commas (x ∷ []) = x
join_commas (x ∷ y ∷ xs) = x ++ (bytes ", " ++ join_commas (y ∷ xs))

-- The lines of the loops.
abbrev pub role_line : Str × Str → Str
role_line (name, value) = bytes "\t" ++ (name ++ (bytes " Role = " ++ quote value))

abbrev pub perm_line : Str × Str → Str
perm_line (name, value) = bytes "\t" ++ (name ++ (bytes " Permission = " ++ quote value))

abbrev pub item_line : Str → Str
item_line name = bytes "\t" ++ (name ++ bytes ",")

abbrev pub pair_line : Str × Str → Str
pair_line (name, scope) = bytes "\t" ++ (name ++ (bytes ": " ++ (scope ++ bytes ",")))

abbrev pub case_lines : List Str → List Str
case_lines [] = []
case_lines (name ∷ names) =
    (bytes "\tcase " ++ (name ++ bytes ":")) ∷ bytes "\t\treturn true" ∷ case_lines names

abbrev pub member_line : Str → Str
member_line name = bytes "\t\t" ++ (name ++ bytes ",")

abbrev pub entry_lines : List (Str × List Str) → List Str
entry_lines [] = []
entry_lines ((name, members) ∷ entries) =
    (bytes "\t" ++ (name ++ bytes ": {"))
    ∷ (map member_line members ++ (bytes "\t}," ∷ entry_lines entries))

-- `"}\n\n"` and `")\n\n"`
abbrev pub close_brace : List Str
close_brace = bytes "}" ∷ [] ∷ []

abbrev pub close_paren : List Str
close_paren = bytes ")" ∷ [] ∷ []

-- `emitTuple`
abbrev pub tuple_lines : Str → List Str → List Str → List Str
tuple_lines name items rest =
    (bytes "var " ++ (name ++ bytes " = []Permission{"))
    ∷ (map item_line items ++ (close_brace ++ rest))

-- The lines of the output, in the order of `emit`, from the end. `date` is the day of the run.
abbrev pub ending : List Str
ending = resolve_permissions_func ++ (role_has_permission_func ++ is_universal_perm_func)

abbrev pub from_role_permissions : Emitted → List Str
from_role_permissions out =
    about_role_permissions ++ (entry_lines out.role_permissions ++ (close_brace ++ ending))

abbrev pub from_functions : Emitted → List Str
from_functions out =
    is_valid_permission_func
    ++ (is_valid_role_head
        ++ (case_lines out.valid_roles
            ++ (is_valid_role_tail
                ++ (is_self_scope_func
                    ++ (is_platform_grantable_func
                        ++ (is_tenant_grantable_func ++ from_role_permissions out))))))

abbrev pub from_perm_scope : Emitted → List Str
from_perm_scope out =
    about_perm_scope
    ++ (map pair_line out.perm_scope
        ++ (close_brace
            ++ (about_roles_slice
                ++ (map item_line out.roles ++ (close_brace ++ from_functions out)))))

abbrev pub from_tuples : Emitted → List Str
from_tuples out =
    about_self
    ++ tuple_lines (bytes "SELF_PERMISSIONS") out.self_permissions (
        about_platform
        ++ tuple_lines (bytes "PLATFORM_PERMISSIONS") out.platform_permissions (
            about_project
            ++ tuple_lines (bytes "PROJECT_PERMISSIONS") out.project_permissions (
                about_dual
                ++ tuple_lines (bytes "DUAL_PERMISSIONS") out.dual_permissions
                    (from_perm_scope out))))

abbrev pub from_consts : Emitted → List Str
from_consts out =
    about_roles
    ++ (map role_line out.role_consts
        ++ (close_paren
            ++ (about_permissions
                ++ (map perm_line out.perm_consts
                    ++ (close_paren ++ (scope_block ++ from_tuples out))))))

abbrev pub header : Str → Contract → List Str → List Str
header date c rest =
    first_line
    ++ ((bytes "// Source: permission-contract v" ++ c.version)
        ∷ (bytes "// Generated at: " ++ date)
        ∷ (about_file
            ++ ((text "//   service  — one of: " ++ join_commas c.services)
                ∷ (about_scopes ++ rest))))

unfoldable pub output_lines : Str → Contract → Emitted → List Str
output_lines date c out = header date c (from_consts out)

unfoldable pub joined_lines : List Str → Str
joined_lines [] = []
joined_lines (l ∷ ls) = l ++ (10 ∷ joined_lines ls)

abbrev pub printed : Str → Contract → Result Emitted → Result Str
printed date c (ok out) = ok (joined_lines (output_lines date c out))
printed date c (err e) = err e
printed date c (panic message) = panic message

-- `emit`, with the text that it returns.
unfoldable pub emit_text : Str → Contract → Result Str
emit_text date c = printed date c (emit c)
