-- ===== src/Codegen/Text/RoundTrip.antt =====
-- cmd/codegen/main.go: the declarations that the lines of the output hold.
use helios_permission_golang.Prelude.{Str, true, List, bytes, all, ◌≡◌, refl}
use helios_permission_golang.Codegen.{Contract, Emitted, map}
use helios_permission_golang.Codegen.Text.{output_lines}
use helios_permission_golang.Codegen.Text.Header.{}
use helios_permission_golang.Codegen.Text.Around.{}
use helios_permission_golang.Codegen.Text.Functions.{}
use helios_permission_golang.Codegen.Text.Sections.{section_of}
use helios_permission_golang.Codegen.Text.Reading.{
  is_name, is_pair, is_const, is_entry, read_item, read_pair, read_const, read_cases,
  read_entry_lines, read_items, read_pairs, read_roles, read_perms, read_case_lines, read_entries,
}
use helios_permission_golang.Codegen.Text.Blocks.{
  consts_of, tuple_of, role_section, perm_section, scope_section, self_section, platform_section,
  project_section, dual_section, perm_scope_section, roles_section, cases_section, entries_section,
}

unfoldable pub read_lines : List Str → Emitted
read_lines ls =
    let (role_consts, after_roles) = consts_of ls in
    let (perm_consts, after_perms) = consts_of after_roles in
    let (scope_consts, after_scopes) = consts_of after_perms in
    let (self, after_self) = tuple_of (bytes "SELF_PERMISSIONS") after_scopes in
    let (platform, after_platform) = tuple_of (bytes "PLATFORM_PERMISSIONS") after_self in
    let (project, after_project) = tuple_of (bytes "PROJECT_PERMISSIONS") after_platform in
    let (dual, after_dual) = tuple_of (bytes "DUAL_PERMISSIONS") after_project in
    let (scope, after_scope) =
      section_of (bytes "var PERM_SCOPE = map[Permission]PermScope{") (bytes "}") after_dual in
    let (roles, after_roles_slice) =
      section_of (bytes "var Roles = []Role{") (bytes "}") after_scope in
    let (cases, after_cases) = section_of (bytes "\tswitch r {") (bytes "\t}") after_roles_slice in
    let (entries, end) =
      section_of (bytes "var ROLE_PERMISSIONS = map[Role][]Permission{") (bytes "}") after_cases in
    record {
      role_consts = map read_const role_consts;
      perm_consts = map read_const perm_consts;
      self_permissions = map read_item self;
      platform_permissions = map read_item platform;
      project_permissions = map read_item project;
      dual_permissions = map read_item dual;
      perm_scope = map read_pair scope;
      roles = map read_item roles;
      valid_roles = read_cases cases;
      role_permissions = (read_entry_lines entries).1;
    }

-- The names are identifiers, and the values of constants need no escape.
pub record IsPrintable (out : Emitted) : Type 0 where
  pub role_consts : all is_const out.role_consts ≡ true
  pub perm_consts : all is_const out.perm_consts ≡ true
  pub self_permissions : all is_name out.self_permissions ≡ true
  pub platform_permissions : all is_name out.platform_permissions ≡ true
  pub project_permissions : all is_name out.project_permissions ≡ true
  pub dual_permissions : all is_name out.dual_permissions ≡ true
  pub perm_scope : all is_pair out.perm_scope ≡ true
  pub roles : all is_name out.roles ≡ true
  pub valid_roles : all is_name out.valid_roles ≡ true
  pub role_permissions : all is_entry out.role_permissions ≡ true

-- The lines of the output hold the declarations that were printed: reading each section back by
-- its opening and closing lines gives every constant, tuple and map entry as it was.
pub read_lines-output_lines :
    (date : Str) (c : Contract) (out : Emitted)
    → IsPrintable out
    → read_lines (output_lines date c out) ≡ out
unfolding read_lines
read_lines-output_lines date c out h =
    rw
      (
        role_section date c out,
        perm_section date c out,
        scope_section date c out,
        self_section date c out,
        platform_section date c out,
        project_section date c out,
        dual_section date c out,
        perm_scope_section date c out,
        roles_section date c out,
        cases_section date c out,
        entries_section date c out,
      )
      (rw
        (
          read_roles out.role_consts h.role_consts,
          read_perms out.perm_consts h.perm_consts,
          read_items out.self_permissions h.self_permissions,
          read_items out.platform_permissions h.platform_permissions,
          read_items out.project_permissions h.project_permissions,
          read_items out.dual_permissions h.dual_permissions,
          read_pairs out.perm_scope h.perm_scope,
          read_items out.roles h.roles,
          read_case_lines out.valid_roles h.valid_roles,
          read_entries out.role_permissions h.role_permissions,
        )
        refl)
