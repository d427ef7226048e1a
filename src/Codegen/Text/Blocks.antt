-- ===== src/Codegen/Text/Blocks.antt =====
-- cmd/codegen/main.go: where the sections of the output begin and end.
use helios_permission_golang.Prelude.{
  ℕ, zero, suc, Str, false, List, [], ◌∷◌, ◌++◌, bytes, ◌==◌, contains, contains-append, ◌≡◌, refl,
  ◌∙◌, arith,
}
use helios_permission_golang.Codegen.{Contract, Emitted, map}
use helios_permission_golang.Codegen.Text.{
  role_line, perm_line, item_line, pair_line, case_lines, member_line, entry_lines, close_brace,
  close_paren, tuple_lines, ending, from_role_permissions, from_functions, from_perm_scope,
  from_tuples, header, output_lines,
}
use helios_permission_golang.Codegen.Text.Utf8.{text}
use helios_permission_golang.Codegen.Text.Header.{
  first_line, about_file, about_scopes, about_roles, about_permissions, scope_block,
}
use helios_permission_golang.Codegen.Text.Around.{
  about_self, about_platform, about_project, about_dual, about_perm_scope, about_roles_slice,
  about_role_permissions,
}
use helios_permission_golang.Codegen.Text.Functions.{
  is_valid_permission_func, is_valid_role_head, is_valid_role_tail, is_self_scope_func,
  is_platform_grantable_func, is_tenant_grantable_func,
}
use helios_permission_golang.Codegen.Text.Sections.{section_of, section_of-append}
use helios_permission_golang.Codegen.Text.Reading.{}

abbrev pub tuple_head : Str → Str
tuple_head name = bytes "var " ++ (name ++ bytes " = []Permission{")

-- The sections of the output, in their order: the lines of each and what follows it.
abbrev pub consts_of : List Str → List Str × List Str
consts_of ls = section_of (bytes "const (") (bytes ")") ls

abbrev pub tuple_of : Str → List Str → List Str × List Str
tuple_of name ls = section_of (tuple_head name) (bytes "}") ls

contains-lines :
    {A : Type 0} (print : A → Str) (line : Str)
    → ((a : A) → (print a == line) ≡ false)
    → (xs : List A) → contains (map print xs) line ≡ false
unfolding contains
contains-lines print line differ [] = refl
contains-lines print line differ (a ∷ xs) =
    ground (arith, differ a, contains-lines print line differ xs)

-- Parts of the fixed lines.
abbrev pub all_but_last : List Str → List Str
all_but_last [] = []
all_but_last (l ∷ []) = []
all_but_last (l ∷ k ∷ ls) = l ∷ all_but_last (k ∷ ls)

abbrev lines_from : ℕ → List Str → List Str
lines_from zero ls = ls
lines_from (suc n) [] = []
lines_from (suc n) (l ∷ ls) = lines_from n ls

abbrev first_lines : ℕ → List Str → List Str
first_lines zero ls = []
first_lines (suc n) [] = []
first_lines (suc n) (l ∷ ls) = l ∷ first_lines n ls

tuple_section :
    (name : Str) (before items rest : List Str)
    → contains before (tuple_head name) ≡ false
    → tuple_of name (before ++ tuple_lines name items rest) ≡ (map item_line items, [] ∷ rest)
unfolding bytes ◌==◌
tuple_section name before items rest h =
    section_of-append (tuple_head name) (bytes "}") before (map item_line items) ([] ∷ rest) h
      (contains-lines item_line (bytes "}") (λ a. refl) items)

contains-case_lines : (ns : List Str) → contains (case_lines ns) (bytes "\t}") ≡ false
unfolding contains bytes ◌==◌
contains-case_lines [] = refl
contains-case_lines (n ∷ ns) = contains-case_lines ns

contains-entry_lines : (es : List (Str × List Str)) → contains (entry_lines es) (bytes "}") ≡ false
unfolding contains bytes ◌==◌
contains-entry_lines [] = refl
contains-entry_lines ((name, ms) ∷ es) =
    contains-append (map member_line ms) (bytes "\t}," ∷ entry_lines es) (bytes "}")
    ∙ rw (contains-lines member_line (bytes "}") (λ a. refl) ms) (contains-entry_lines es)

module _ (date : Str) (c : Contract) (out : Emitted) where
  abbrev pub after_role_consts : List Str
  after_role_consts =
      []
      ∷ (about_permissions
          ++ (map perm_line out.perm_consts ++ (close_paren ++ (scope_block ++ from_tuples out))))

  pub role_section :
      consts_of (output_lines date c out) ≡ (map role_line out.role_consts, after_role_consts)
  unfolding output_lines first_line about_file about_scopes about_roles bytes text ◌==◌ contains
  role_section =
      section_of-append (bytes "const (") (bytes ")") (header date c (all_but_last about_roles))
        (map role_line out.role_consts) after_role_consts refl
        (contains-lines role_line (bytes ")") (λ a. refl) out.role_consts)

  abbrev pub after_perm_consts : List Str
  after_perm_consts = [] ∷ (scope_block ++ from_tuples out)

  pub perm_section :
      consts_of after_role_consts ≡ (map perm_line out.perm_consts, after_perm_consts)
  unfolding about_permissions bytes ◌==◌ contains
  perm_section =
      section_of-append (bytes "const (") (bytes ")") ([] ∷ all_but_last about_permissions)
        (map perm_line out.perm_consts) after_perm_consts refl
        (contains-lines perm_line (bytes ")") (λ a. refl) out.perm_consts)

  abbrev pub scope_lines : List Str
  scope_lines = first_lines 4 (lines_from 5 scope_block)

  pub scope_section : consts_of after_perm_consts ≡ (scope_lines, [] ∷ from_tuples out)
  unfolding scope_block bytes ◌==◌ contains
  scope_section =
      section_of-append (bytes "const (") (bytes ")") ([] ∷ first_lines 4 scope_block) scope_lines
        ([] ∷ from_tuples out) refl refl

  abbrev pub from_dual : List Str
  from_dual =
      about_dual
      ++ tuple_lines (bytes "DUAL_PERMISSIONS") out.dual_permissions (from_perm_scope out)

  abbrev pub from_project : List Str
  from_project =
      about_project ++ tuple_lines (bytes "PROJECT_PERMISSIONS") out.project_permissions from_dual

  abbrev pub from_platform : List Str
  from_platform =
      about_platform
      ++ tuple_lines (bytes "PLATFORM_PERMISSIONS") out.platform_permissions from_project

  pub self_section :
      tuple_of (bytes "SELF_PERMISSIONS") ([] ∷ from_tuples out)
      ≡ (map item_line out.self_permissions, [] ∷ from_platform)
  unfolding about_self bytes text ◌==◌ contains
  self_section =
      tuple_section (bytes "SELF_PERMISSIONS") ([] ∷ about_self) out.self_permissions from_platform
        refl

  pub platform_section :
      tuple_of (bytes "PLATFORM_PERMISSIONS") ([] ∷ from_platform)
      ≡ (map item_line out.platform_permissions, [] ∷ from_project)
  unfolding about_platform bytes text ◌==◌ contains
  platform_section =
      tuple_section (bytes "PLATFORM_PERMISSIONS") ([] ∷ about_platform) out.platform_permissions
        from_project refl

  pub project_section :
      tuple_of (bytes "PROJECT_PERMISSIONS") ([] ∷ from_project)
      ≡ (map item_line out.project_permissions, [] ∷ from_dual)
  unfolding about_project bytes text ◌==◌ contains
  project_section =
      tuple_section (bytes "PROJECT_PERMISSIONS") ([] ∷ about_project) out.project_permissions
        from_dual refl

  pub dual_section :
      tuple_of (bytes "DUAL_PERMISSIONS") ([] ∷ from_dual)
      ≡ (map item_line out.dual_permissions, [] ∷ from_perm_scope out)
  unfolding about_dual bytes text ◌==◌ contains
  dual_section =
      tuple_section (bytes "DUAL_PERMISSIONS") ([] ∷ about_dual) out.dual_permissions
        (from_perm_scope out) refl

  abbrev pub from_roles_slice : List Str
  from_roles_slice =
      about_roles_slice ++ (map item_line out.roles ++ (close_brace ++ from_functions out))

  pub perm_scope_section :
      section_of
        (bytes "var PERM_SCOPE = map[Permission]PermScope{")
        (bytes "}")
        ([] ∷ from_perm_scope out)
      ≡ (map pair_line out.perm_scope, [] ∷ from_roles_slice)
  unfolding about_perm_scope bytes text ◌==◌ contains
  perm_scope_section =
      section_of-append (bytes "var PERM_SCOPE = map[Permission]PermScope{") (bytes "}")
        ([] ∷ all_but_last about_perm_scope) (map pair_line out.perm_scope) ([] ∷ from_roles_slice)
        refl (contains-lines pair_line (bytes "}") (λ a. refl) out.perm_scope)

  pub roles_section :
      section_of (bytes "var Roles = []Role{") (bytes "}") ([] ∷ from_roles_slice)
      ≡ (map item_line out.roles, [] ∷ from_functions out)
  unfolding about_roles_slice bytes text ◌==◌ contains
  roles_section =
      section_of-append (bytes "var Roles = []Role{") (bytes "}")
        ([] ∷ all_but_last about_roles_slice) (map item_line out.roles) ([] ∷ from_functions out)
        refl (contains-lines item_line (bytes "}") (λ a. refl) out.roles)

  abbrev pub after_cases : List Str
  after_cases =
      lines_from 1 is_valid_role_tail
      ++ (is_self_scope_func
          ++ (is_platform_grantable_func
              ++ (is_tenant_grantable_func ++ from_role_permissions out)))

  pub cases_section :
      section_of (bytes "\tswitch r {") (bytes "\t}") ([] ∷ from_functions out)
      ≡ (case_lines out.valid_roles, after_cases)
  unfolding is_valid_permission_func is_valid_role_head is_valid_role_tail bytes ◌==◌ contains
  cases_section =
      section_of-append (bytes "\tswitch r {") (bytes "\t}")
        ([] ∷ (is_valid_permission_func ++ all_but_last is_valid_role_head))
        (case_lines out.valid_roles) after_cases refl (contains-case_lines out.valid_roles)

  pub entries_section :
      section_of (bytes "var ROLE_PERMISSIONS = map[Role][]Permission{") (bytes "}") after_cases
      ≡ (entry_lines out.role_permissions, [] ∷ ending)
  unfolding is_valid_role_tail is_self_scope_func is_platform_grantable_func
      is_tenant_grantable_func about_role_permissions bytes text ◌==◌ contains
  entries_section =
      section_of-append (bytes "var ROLE_PERMISSIONS = map[Role][]Permission{") (bytes "}")
        (lines_from 1 is_valid_role_tail
          ++ (is_self_scope_func
              ++ (is_platform_grantable_func
                  ++ (is_tenant_grantable_func ++ all_but_last about_role_permissions))))
        (entry_lines out.role_permissions) ([] ∷ ending) refl
        (contains-entry_lines out.role_permissions)
