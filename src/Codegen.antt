-- ===== src/Codegen.antt =====
-- cmd/codegen/main.go: what `emit` writes, as a record of declarations; Text has the lines.
pub mod Names
pub mod Buckets
pub mod Output
pub mod Resolve
pub mod RoleNames
pub mod Identifiers
pub mod Distinct
pub mod Scoped
pub mod Meaning
pub mod Lists
pub mod RoundTrip
pub mod Text
pub mod Main
pub mod Exits
use helios_permission_golang.Prelude.{
  ℕ, ◌+◌, ◌-◌, ltb, leb, nat_eq, Str, Bool, true, false, ◌&&◌, if◌then◌else◌, Option, none, some,
  List, [], ◌∷◌, ◌++◌, Table, lookup, bytes, ◌==◌,
}
use helios_permission_golang.Errors.{message, Result, ok, err}

pub record Perm : Type 0 where
  pub name : Str
  pub scope : Str

pub record Contract : Type 0 where
  pub version : Str
  pub services : List Str
  pub roles : List Str
  pub permissions : Table (List Perm)
  pub role_perms : Table (List Str)

-- The five slices of names.
pub record Flattened : Type 0 where
  pub all_perms : List Str
  pub self_perms : List Str
  pub platform_perms : List Str
  pub project_perms : List Str
  pub dual_perms : List Str

abbrev pub nothing_flattened : Flattened
nothing_flattened = record {
  all_perms = [];
  self_perms = [];
  platform_perms = [];
  project_perms = [];
  dual_perms = [];
}

-- `if c { xs = append(xs, x) }`
abbrev pub append_if : Bool → List Str → Str → List Str
append_if c xs x = if c then xs ++ x ∷ [] else xs

-- The body of the inner loop; the cases of the switch exclude one another.
unfoldable pub flatten_one : Perm → Flattened → Flattened
flatten_one p b = record {
  all_perms = b.all_perms ++ p.name ∷ [];
  self_perms = append_if (p.scope == bytes "self") b.self_perms p.name;
  platform_perms = append_if (p.scope == bytes "platform") b.platform_perms p.name;
  project_perms = append_if (p.scope == bytes "project") b.project_perms p.name;
  dual_perms = append_if (p.scope == bytes "platform/project") b.dual_perms p.name;
}

unfoldable pub flatten_perms : List Perm → Flattened → Flattened
flatten_perms [] b = b
flatten_perms (p ∷ ps) b = flatten_perms ps (flatten_one p b)

-- A missing key of a Go map reads as nil.
abbrev pub or_nil : {A : Type 0} → Option (List A) → List A
or_nil none = []
or_nil (some xs) = xs

unfoldable pub flatten_services : Contract → List Str → Flattened → Flattened
flatten_services c [] b = b
flatten_services c (svc ∷ rest) b =
    flatten_services c rest (flatten_perms (or_nil (lookup svc c.permissions)) b)

unfoldable pub flatten : Contract → Flattened
flatten c = flatten_services c c.services nothing_flattened

-- `a <= b` of two texts, byte by byte.
unfoldable pub text_le : Str → Str → Bool
text_le [] t = true
text_le (x ∷ s) [] = false
text_le (x ∷ s) (y ∷ t) =
    let rest = text_le s t in if ltb x y then true else if nat_eq x y then rest else false

-- `sort.Strings`
unfoldable pub insert_sorted : Str → List Str → List Str
insert_sorted x [] = x ∷ []
insert_sorted x (y ∷ ys) =
    let rest = insert_sorted x ys in if text_le x y then x ∷ y ∷ ys else y ∷ rest

unfoldable pub sort_strings : List Str → List Str
sort_strings [] = []
sort_strings (x ∷ xs) = insert_sorted x (sort_strings xs)

-- `strings.ToUpper` of one byte; a byte that is no character becomes U+FFFD.
abbrev pub to_upper : ℕ → Str
to_upper x =
    if leb b'a' x && leb x b'z'
    then (x - 32) ∷ []
    else if ltb x 128
    then x ∷ []
    else 239 ∷ 191 ∷ 189 ∷ []

unfoldable pub pascalize_segment : Str → Str
pascalize_segment [] = []
pascalize_segment (x ∷ s) = to_upper x ++ s

-- `strings.Split(p, ":")`: the first part, and the others.
unfoldable pub split : Str → Str × List Str
split [] = ([], [])
split (x ∷ p) =
    let (part, parts) = split p in if nat_eq x b':' then ([], part ∷ parts) else (x ∷ part, parts)

-- The parts in Pascal case, joined.
unfoldable pub join_pascalized : List Str → Str
join_pascalized [] = []
join_pascalized (part ∷ parts) = pascalize_segment part ++ join_pascalized parts

unfoldable pub perm_const_name : Str → Str
perm_const_name p =
    let (part, parts) = split p in bytes "Permission" ++ join_pascalized (part ∷ parts)

-- `strings.ToLower` on ASCII, of which the contract's role names are made.
abbrev pub to_lower : ℕ → ℕ
to_lower x = if leb b'A' x && leb x b'Z' then x + 32 else x

abbrev pub map {ℓ κ} : {A : Type ℓ} {B : Type κ} → (A → B) → List A → List B
map f [] = []
map f (x ∷ xs) = f x ∷ map f xs

unfoldable pub pascalize_role : Str → Str
pascalize_role [] = []
pascalize_role (x ∷ s) = to_upper x ++ map to_lower s

-- The name of a role's constant.
abbrev pub role_const : Str → Str
role_const r = bytes "Role" ++ pascalize_role r

-- The declarations in the output: constants as name and value, tuples and maps by constant names.
pub record Emitted : Type 0 where
  pub role_consts : List (Str × Str)
  pub perm_consts : List (Str × Str)
  pub self_permissions : List Str
  pub platform_permissions : List Str
  pub project_permissions : List Str
  pub dual_permissions : List Str
  pub perm_scope : List (Str × Str)
  pub roles : List Str
  pub valid_roles : List Str
  pub role_permissions : List (Str × List Str)

-- A line of PERM_SCOPE.
abbrev pub scope_line : Str → Str → Str × Str
scope_line scope p = (perm_const_name p, scope)

-- An entry of ROLE_PERMISSIONS.
abbrev pub role_entry : Contract → Str → Str × List Str
role_entry c r = (role_const r, map perm_const_name (sort_strings (or_nil (lookup r c.role_perms))))

unfoldable pub emitted : Contract → Flattened → Emitted
emitted c b = record {
  role_consts = map (λ r. (role_const r, r)) c.roles;
  perm_consts = map (λ p. (perm_const_name p, p)) (sort_strings b.all_perms);
  self_permissions = map perm_const_name b.self_perms;
  platform_permissions = map perm_const_name b.platform_perms;
  project_permissions = map perm_const_name b.project_perms;
  dual_permissions = map perm_const_name b.dual_perms;
  perm_scope =
      map (scope_line (bytes "ScopeSelf")) b.self_perms
      ++ (map (scope_line (bytes "ScopePlatform")) b.platform_perms
          ++ (map (scope_line (bytes "ScopeProject")) b.project_perms
              ++ map (scope_line (bytes "ScopePlatformProject")) b.dual_perms));
  roles = map role_const c.roles;
  valid_roles = map role_const c.roles;
  role_permissions = map (role_entry c) c.roles;
}

-- After the check of the version.
abbrev pub emit_for : Contract → List Str → Result Emitted
emit_for c [] = err (message (bytes "contract: no roles"))
emit_for c (r ∷ rs) = ok (emitted c (flatten c))

unfoldable pub emit : Contract → Result Emitted
emit c =
    if c.version == []
    then err (message (bytes "contract: missing version"))
    else emit_for c c.roles
