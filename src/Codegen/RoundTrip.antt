-- ===== src/Codegen/RoundTrip.antt =====
-- cmd/codegen/main.go: the tables that the output declares are those of the contract.
use helios_permission_golang.Prelude.{Str, List, Table}
use helios_permission_golang.Codegen.{
  Perm, Contract, sort_strings, perm_const_name, role_const, map, scope_line,
}
use helios_permission_golang.Codegen.Buckets.{names, names_with}
use helios_permission_golang.Codegen.Resolve.{consts}
use helios_permission_golang.Codegen.Meaning.{IsRegular}

module _ (c : Contract) (ps : List Perm) (h : IsRegular c ps) where
  abbrev sorted : List Str
  sorted = sort_strings (names ps)

  abbrev perm_consts : Table Str
  perm_consts = consts perm_const_name sorted

  abbrev role_consts : Table Str
  role_consts = consts role_const c.roles

  abbrev lines_of : Str → Str → List (Str × Str)
  lines_of name scope = map (scope_line name) (names_with scope ps)
