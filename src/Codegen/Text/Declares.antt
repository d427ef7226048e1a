-- ===== src/Codegen/Text/Declares.antt =====
-- cmd/codegen/main.go: the text of the output holds the declarations.
use helios_permission_golang.Prelude.{
  Str, true, List, [], ◌∷◌, ◌++◌, bytes, all, ◌≡◌, refl, sym, ap, ◌∙◌, arith,
}
use helios_permission_golang.Codegen.{Contract, Emitted, map, emit}
use helios_permission_golang.Codegen.Text.{
  role_line, perm_line, item_line, pair_line, close_brace, close_paren, tuple_lines, ending,
  from_role_permissions, from_functions, from_perm_scope, from_tuples, from_consts, output_lines,
  joined_lines, join_commas, printed, emit_text,
}
use helios_permission_golang.Codegen.Text.Utf8.{text}
use helios_permission_golang.Codegen.Text.Header.{
  first_line, about_file, about_scopes, about_roles, about_permissions, scope_block,
}
use helios_permission_golang.Codegen.Text.Around.{
  about_self, about_platform, about_project, about_dual, about_perm_scope, about_roles_slice,
  about_role_permissions,
}
use helios_permission_golang.Codegen.Text.Functions.{
  is_valid_permission_func, is_valid_role_head, is_valid_role_tail, is_self_scope_func,
  is_platform_grantable_func, is_tenant_grantable_func,
}
use helios_permission_golang.Codegen.Text.Resolver.{
  resolve_permissions_func, role_has_permission_func, is_universal_perm_func,
}
use helios_permission_golang.Codegen.Text.Reading.{is_name, is_pair, is_const}
use helios_permission_golang.Codegen.Text.Blocks.{tuple_head}
use helios_permission_golang.Codegen.Text.Blocks.{tuple_head}
use helios_permission_golang.Codegen.Text.RoundTrip.{
  IsPrintable, read_lines, read_lines-output_lines,
}
use helios_permission_golang.Codegen.Text.Newlines.{
  not_newline, is_line, lines_of, lines_of-joined_lines,
}
use helios_permission_golang.Errors.{Result, ok}
use helios_permission_golang.Codegen.Text.Lines.{
  both, lines-are, item-is_line, pair-is_line, role-is_line, perm-is_line, cases-are_lines,
  entries-are_lines,
}

-- The fixed lines.
fixed_start :
    (all is_line first_line ≡ true)
    × (all is_line about_file ≡ true)
    × (all is_line about_scopes ≡ true)
    × (all is_line about_roles ≡ true)
    × (all is_line about_permissions ≡ true)
    × (all is_line scope_block ≡ true)
unfolding first_line about_file about_scopes about_roles about_permissions scope_block bytes text
    all
fixed_start = (refl, refl, refl, refl, refl, refl)

fixed_tables :
    (all is_line about_self ≡ true)
    × (all is_line about_platform ≡ true)
    × (all is_line about_project ≡ true)
    × (all is_line about_dual ≡ true)
    × (all is_line about_perm_scope ≡ true)
    × (all is_line about_roles_slice ≡ true)
    × (all is_line about_role_permissions ≡ true)
unfolding about_self about_platform about_project about_dual about_perm_scope about_roles_slice
    about_role_permissions bytes text all
fixed_tables = (refl, refl, refl, refl, refl, refl, refl)

fixed_functions :
    (all is_line is_valid_permission_func ≡ true)
    × (all is_line is_valid_role_head ≡ true)
    × (all is_line is_valid_role_tail ≡ true)
    × (all is_line is_self_scope_func ≡ true)
    × (all is_line is_platform_grantable_func ≡ true)
    × (all is_line is_tenant_grantable_func ≡ true)
unfolding is_valid_permission_func is_valid_role_head is_valid_role_tail is_self_scope_func
    is_platform_grantable_func is_tenant_grantable_func bytes text all
fixed_functions = (refl, refl, refl, refl, refl, refl)

fixed_end : all is_line ending ≡ true
unfolding resolve_permissions_func role_has_permission_func is_universal_perm_func bytes text all
fixed_end = refl

tuple_heads :
    (is_line (tuple_head (bytes "SELF_PERMISSIONS")) ≡ true)
    × (is_line (tuple_head (bytes "PLATFORM_PERMISSIONS")) ≡ true)
    × (is_line (tuple_head (bytes "PROJECT_PERMISSIONS")) ≡ true)
    × (is_line (tuple_head (bytes "DUAL_PERMISSIONS")) ≡ true)
unfolding bytes all
tuple_heads = (refl, refl, refl, refl)

closes :
    (rest : List Str)
    → all is_line rest ≡ true
    → (all is_line (close_brace ++ rest) ≡ true) × (all is_line (close_paren ++ rest) ≡ true)
unfolding bytes all
closes rest h = (h, h)

tuple-are_lines :
    (name : Str) (items rest : List Str)
    → is_line (tuple_head name) ≡ true
    → all is_name items ≡ true
    → all is_line rest ≡ true
    → all is_line (tuple_lines name items rest) ≡ true
unfolding all
tuple-are_lines name items rest h k l = rw h (
    both is_line (map item_line items) (close_brace ++ rest)
      (lines-are item_line is_name item-is_line items k) (closes rest l).0)

join-is_line : (xs : List Str) → all is_line xs ≡ true → is_line (join_commas xs) ≡ true
unfolding join_commas all bytes
join-is_line [] h = refl
join-is_line (x ∷ []) h = ground arith
join-is_line (x ∷ y ∷ xs) h =
    both not_newline x (bytes ", " ++ join_commas (y ∷ xs)) (ground arith)
      (join-is_line (y ∷ xs) (ground arith))

header_heads :
    (is_line (bytes "// Source: permission-contract v") ≡ true)
    × (is_line (bytes "// Generated at: ") ≡ true)
    × (is_line (text "//   service  — one of: ") ≡ true)
unfolding bytes text all
header_heads = (refl, refl, refl)

cons_line :
    (l : Str) (ls : List Str)
    → is_line l ≡ true
    → all is_line ls ≡ true
    → all is_line (l ∷ ls) ≡ true
unfolding all
cons_line l ls h k = rw h k

module _ (out : Emitted) (h : IsPrintable out) where
  then_ :
      (xs ys : List Str)
      → all is_line xs ≡ true
      → all is_line ys ≡ true
      → all is_line (xs ++ ys) ≡ true
  then_ = both is_line

  role_permissions-lines : all is_line (from_role_permissions out) ≡ true
  role_permissions-lines =
      let (_, _, _, _, _, _, about) = fixed_tables in
      then_ _ _ about (
        then_ _ _ (entries-are_lines out.role_permissions h.role_permissions)
          (closes _ fixed_end).0)

  functions-lines : all is_line (from_functions out) ≡ true
  functions-lines =
      let (permission, head, tail, self, platform, tenant) = fixed_functions in
      then_ _ _ permission (
        then_ _ _ head (
          then_ _ _ (cases-are_lines out.valid_roles h.valid_roles) (
            then_ _ _ tail
              (then_ _ _ self (then_ _ _ platform (then_ _ _ tenant role_permissions-lines))))))

  perm_scope-lines : all is_line (from_perm_scope out) ≡ true
  perm_scope-lines =
      let (_, _, _, _, scope, slice, _) = fixed_tables in
      then_ _ _ scope (
        then_ _ _ (lines-are pair_line is_pair pair-is_line out.perm_scope h.perm_scope)
          (closes _ (
            then_ _ _ slice (
              then_ _ _ (lines-are item_line is_name item-is_line out.roles h.roles)
                (closes _ functions-lines).0))).0)

  tuples-lines : all is_line (from_tuples out) ≡ true
  tuples-lines =
      let (self_head, platform_head, project_head, dual_head) = tuple_heads in
      let (self, platform, project, dual, _, _, _) = fixed_tables in
      then_ _ _ self (
        tuple-are_lines _ _ _ self_head h.self_permissions (
          then_ _ _ platform (
            tuple-are_lines _ _ _ platform_head h.platform_permissions (
              then_ _ _ project (
                tuple-are_lines _ _ _ project_head h.project_permissions (
                  then_ _ _ dual
                    (tuple-are_lines _ _ _ dual_head h.dual_permissions perm_scope-lines)))))))

  consts-lines : all is_line (from_consts out) ≡ true
  consts-lines =
      let (_, _, _, roles, permissions, scopes) = fixed_start in
      then_ _ _ roles (
        then_ _ _ (lines-are role_line is_const role-is_line out.role_consts h.role_consts)
          (closes _ (
            then_ _ _ permissions (
              then_ _ _ (lines-are perm_line is_const perm-is_line out.perm_consts h.perm_consts)
                (closes _ (then_ _ _ scopes tuples-lines)).1))).1)

  module _ (date : Str) (c : Contract) (day : is_line date ≡ true)
      (version : is_line c.version ≡ true) (services : all is_line c.services ≡ true) where
    all_lines : all is_line (output_lines date c out) ≡ true
    unfolding output_lines
    all_lines =
        let (first, file, scopes, _, _, _) = fixed_start in
        let (source, generated, service) = header_heads in
        then_ _ _ first (
          cons_line _ _ (both not_newline _ c.version source version) (
            cons_line _ _ (both not_newline _ date generated day) (
              then_ _ _ file (
                cons_line _ _ (both not_newline _ _ service (join-is_line c.services services))
                  (then_ _ _ scopes consts-lines)))))

-- Where the date, the version and the services have no newline, the names of constants are
-- identifiers and their values need no escape: the text that emit returns, cut into lines, holds
-- the declarations that emit made of the contract, each constant, tuple and map entry as it was.
pub emit_text-read_lines :
    (date : Str) (c : Contract) (out : Emitted) (content : Str)
    → emit c ≡ ok out
    → IsPrintable out
    → is_line date ≡ true
    → is_line c.version ≡ true
    → all is_line c.services ≡ true
    → emit_text date c ≡ ok content
    → read_lines (lines_of content) ≡ out
unfolding emit_text
emit_text-read_lines date c out content made h day version services written =
    let same : joined_lines (output_lines date c out) ≡ content =
      printed_ok (sym (ap (printed date c) made) ∙ written) in
    rw⁻¹ same (
      rw
        (lines_of-joined_lines (output_lines date c out)
          (all_lines out h date c day version services))
        (read_lines-output_lines date c out h))
  where
    printed_ok : {x y : Str} → ◌≡◌ {A = Result Str} (ok x) (ok y) → x ≡ y
    printed_ok e = cc
