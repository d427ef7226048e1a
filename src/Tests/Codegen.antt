-- ===== src/Tests/Codegen.antt =====
-- cmd/codegen/main.go on a small contract, and names that meet.
use helios_permission_golang.Prelude.{
  Str, List, ◌≢◌, ◌↔◌, true, all, [], ◌∷◌, bytes, ◌==◌, lookup, ◌≡◌, refl,
}
use helios_permission_golang.Errors.{ok}
use helios_permission_golang.Codegen.{
  Contract, Emitted, flatten, flatten_one, flatten_perms, flatten_services, text_le, insert_sorted,
  sort_strings, pascalize_segment, split, join_pascalized, perm_const_name, pascalize_role, emitted,
  emit,
}
use helios_permission_golang.Codegen.Names.{is_lower}
use helios_permission_golang.Codegen.Text.{output_lines, joined_lines, emit_text}
use helios_permission_golang.Codegen.Text.RoundTrip.{IsPrintable, read_lines}
use helios_permission_golang.Codegen.Text.Newlines.{is_line, lines_of}
use helios_permission_golang.Codegen.Text.Declares.{emit_text-read_lines}
use helios_permission_golang.Redis.{done}
use helios_permission_golang.Codegen.Main.{Machine, main}
use helios_permission_golang.Codegen.Exits.{Prints, main_iff}

abbrev view : Str
view = bytes "zeta:api_keys:view"

abbrev own : Str
own = bytes "athens:project:self"

abbrev contract : Contract
contract = record {
  version = bytes "1.3.0";
  services = bytes "zeta" ∷ bytes "athens" ∷ [];
  roles = bytes "OWNER" ∷ [];
  permissions =
      (bytes "athens", record { name = own; scope = bytes "self" } ∷ [])
      ∷ (
        bytes "zeta",
        record { name = view; scope = bytes "project" }
            ∷ record { name = bytes "zeta:draft"; scope = bytes "tenant" }
            ∷ [],
      )
      ∷ [];
  role_perms = (bytes "OWNER", view ∷ own ∷ []) ∷ [];
}

code : Unit {0}
unfolding bytes ◌==◌ lookup flatten flatten_one flatten_perms flatten_services text_le insert_sorted
    sort_strings pascalize_segment split join_pascalized perm_const_name pascalize_role emitted emit
    is_lower
code = tt

-- The permission with an unknown scope has a constant and is in no tuple.
tuples :
    ((flatten contract).all_perms ≡ view ∷ bytes "zeta:draft" ∷ own ∷ [])
    × ((flatten contract).self_perms ≡ own ∷ [])
    × ((flatten contract).project_perms ≡ view ∷ [])
    × ((flatten contract).platform_perms ≡ [])
    × ((flatten contract).dual_perms ≡ [])
unfolding code
tuples = (refl, refl, refl, refl, refl)

constant : perm_const_name view ≡ bytes "PermissionZetaApi_keysView"
unfolding code
constant = refl

roles_constant : pascalize_role (bytes "OWNER") ≡ bytes "Owner"
unfolding code
roles_constant = refl

names_meet : perm_const_name (bytes "a:b:c") ≡ perm_const_name (bytes "a:bC")
unfolding code
names_meet = refl

view-is_lower : is_lower true view ≡ true
unfolding code
view-is_lower = refl

output : Emitted
output = emitted contract (flatten contract)

emits : emit contract ≡ ok output
unfolding emit output bytes ◌==◌
emits = refl

abbrev date : Str
date = bytes "2026-07-02"

abbrev content : Str
content = joined_lines (output_lines date contract output)

output-IsPrintable : IsPrintable output
unfolding code output all
output-IsPrintable = record {
  role_consts = refl;
  perm_consts = refl;
  self_permissions = refl;
  platform_permissions = refl;
  project_permissions = refl;
  dual_permissions = refl;
  perm_scope = refl;
  roles = refl;
  valid_roles = refl;
  role_permissions = refl;
}

one_line :
    (is_line date ≡ true)
    × (is_line contract.version ≡ true)
    × (all is_line contract.services ≡ true)
unfolding bytes all
one_line = (refl, refl, refl)

emits_text : emit_text date contract ≡ ok content
unfolding emit_text
emits_text = rw emits refl

emit_text-read_lines_example : read_lines (lines_of content) ≡ output
emit_text-read_lines_example =
    emit_text-read_lines date contract output content emits output-IsPrintable one_line.0 one_line.1
      one_line.2 emits_text

abbrev machine : Machine
machine = record {
  read_file = λ path. done (bytes "{contract}");
  unmarshal = λ file. done contract;
  today = date;
}

abbrev args : List Str
args = bytes "codegen" ∷ bytes "permissions.json" ∷ []

main_iff_example :
    ((main machine args ≡ record { stdout = content; stderr = []; code = 0 })
      ↔ Prints machine args content)
    × ((main machine args).code ≢ 0 → (main machine args).stdout ≡ [])
main_iff_example = main_iff machine args content

prints : main machine args ≡ record { stdout = content; stderr = []; code = 0 }
unfolding main
prints = rw emits_text refl
