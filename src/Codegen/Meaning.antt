-- ===== src/Codegen/Meaning.antt =====
-- cmd/codegen/main.go: the output of `emit` read as Go reads it, against the contract.
use helios_permission_golang.Prelude.{
  Str, Bool, true, false, ◌&&◌, if◌then◌else◌, Option, none, some, ◌>>=◌, List, [], ◌∷◌, ◌++◌,
  Table, lookup, bytes, contains, all, ◌≡◌,
}
use helios_permission_golang.Codegen.{
  Perm, Contract, Flattened, flatten, or_nil, sort_strings, map, Emitted,
}
use helios_permission_golang.Codegen.Buckets.{declared, names, names_with, flatten_lem}
use helios_permission_golang.Codegen.Names.{is_lower}
use helios_permission_golang.Codegen.RoleNames.{is_upper}
use helios_permission_golang.Codegen.Identifiers.{is_word, is_worded, is_free}
use helios_permission_golang.Codegen.Resolve.{resolve_all, resolve_table, resolve_pairs}
use helios_permission_golang.Codegen.Distinct.{distinct}

-- The tables of a contract, or of a generated file.
pub record Tables : Type 0 where
  pub self_permissions : List Str
  pub platform_permissions : List Str
  pub project_permissions : List Str
  pub dual_permissions : List Str
  pub perm_scope : List (Str × Str)
  pub roles : List Str
  pub valid_roles : List Str
  pub role_permissions : List (Str × List Str)

abbrev pub firsts : {A : Type 0} → List (Str × A) → List Str
firsts [] = []
firsts ((x, a) ∷ xs) = x ∷ firsts xs

-- The constants of `PermScope`.
abbrev pub scope_consts : Table Str
scope_consts =
    (bytes "ScopeSelf", bytes "self")
    ∷ (bytes "ScopePlatform", bytes "platform")
    ∷ (bytes "ScopeProject", bytes "project")
    ∷ (bytes "ScopePlatformProject", bytes "platform/project")
    ∷ []

-- The constants have names that are identifiers in ASCII and that the package does not use.
abbrev pub has_free_names : Emitted → Bool
has_free_names out = all is_free (firsts out.role_consts) && all is_free (firsts out.perm_consts)

-- No constant is declared twice in a block, and no key is twice in a map.
abbrev pub has_no_duplicate : Emitted → Bool
has_no_duplicate out =
    distinct (firsts out.role_consts)
    && (distinct (firsts out.perm_consts)
        && (distinct (firsts out.perm_scope) && distinct (firsts out.role_permissions)))

abbrev pub resolved : Emitted → Option Tables
resolved out = do
  self ← resolve_all out.perm_consts out.self_permissions
  platform ← resolve_all out.perm_consts out.platform_permissions
  project ← resolve_all out.perm_consts out.project_permissions
  dual ← resolve_all out.perm_consts out.dual_permissions
  scopes ← resolve_pairs out.perm_consts scope_consts out.perm_scope
  roles ← resolve_all out.role_consts out.roles
  valid ← resolve_all out.role_consts out.valid_roles
  entries ← resolve_table out.role_consts out.perm_consts out.role_permissions
  some (record {
    self_permissions = self;
    platform_permissions = platform;
    project_permissions = project;
    dual_permissions = dual;
    perm_scope = scopes;
    roles = roles;
    valid_roles = valid;
    role_permissions = entries;
  })

-- The tables that the file declares; `none` where the name of a constant is not free, a constant or
-- a key stands twice, or a name is used that is not declared.
unfoldable pub read_back : Emitted → Option Tables
read_back out = if has_free_names out && has_no_duplicate out then resolved out else none

-- The tables that the contract describes.
abbrev pub under : Str → List Str → List (Str × Str)
under scope ps = map (λ p. (p, scope)) ps

abbrev pub granted : Contract → Str → List Str
granted c r = sort_strings (or_nil (lookup r c.role_perms))

abbrev pub tables_of : Contract → List Perm → Tables
tables_of c ps = record {
  self_permissions = names_with (bytes "self") ps;
  platform_permissions = names_with (bytes "platform") ps;
  project_permissions = names_with (bytes "project") ps;
  dual_permissions = names_with (bytes "platform/project") ps;
  perm_scope =
      under (bytes "self") (names_with (bytes "self") ps)
      ++ (under (bytes "platform") (names_with (bytes "platform") ps)
          ++ (under (bytes "project") (names_with (bytes "project") ps)
              ++ under (bytes "platform/project") (names_with (bytes "platform/project") ps)));
  roles = c.roles;
  valid_roles = c.roles;
  role_permissions = map (λ r. (r, granted c r)) c.roles;
}

-- A contract whose permissions are in lower case, of letters, digits, underscores and colons, none
-- of them `cache`, and listed once, whose roles are in upper case, of letters, digits and
-- underscores, and listed once, and whose roles have listed permissions only.
pub record IsRegular (c : Contract) (ps : List Perm) : Type 0 where
  pub lower : all (is_lower true) (names ps) ≡ true
  pub worded : all is_worded (names ps) ≡ true
  pub no_cache : contains (names ps) (bytes "cache") ≡ false
  pub once : distinct (names ps) ≡ true
  pub upper : all is_upper c.roles ≡ true
  pub role_words : all (all is_word) c.roles ≡ true
  pub roles_once : distinct c.roles ≡ true
  pub known :
      (r : Str)
      → contains c.roles r ≡ true
      → all (contains (names ps)) (or_nil (lookup r c.role_perms)) ≡ true

abbrev pub slices : List Perm → Flattened
slices ps = record {
  all_perms = names ps;
  self_perms = names_with (bytes "self") ps;
  platform_perms = names_with (bytes "platform") ps;
  project_perms = names_with (bytes "project") ps;
  dual_perms = names_with (bytes "platform/project") ps;
}

pub flatten-slices : (c : Contract) → flatten c ≡ slices (declared c c.services)
flatten-slices c =
    let (all, self, platform, project, dual) = flatten_lem c in
    λ i. record {
      all_perms = all i;
      self_perms = self i;
      platform_perms = platform i;
      project_perms = project i;
      dual_perms = dual i;
    }
