-- ===== src/Codegen/Identifiers.antt =====
-- cmd/codegen/main.go: which names of constants Go takes.
use helios_permission_golang.Prelude.{
  ℕ, leb, nat_eq, Str, Bool, true, false, not, ◌&&◌, ◌||◌, List, [], ◌∷◌, ◌++◌, bytes, ◌==◌, ==_iff,
  contains, all, all-append, Bool-cases, inl, inr, ◌≡◌, refl, sym, ap, ◌∙◌, arith,
}
use helios_permission_golang.Codegen.{
  map, to_lower, to_upper, pascalize_role, role_const, perm_const_name,
}
use helios_permission_golang.Codegen.Names.{
  is_lower, flat, flat-upper, perm_const_name-flat, perm_const_name-injective,
}
use helios_permission_golang.Codegen.RoleNames.{is_upper}

abbrev pub is_letter : ℕ → Bool
is_letter x = leb b'a' x && leb x b'z' || leb b'A' x && leb x b'Z'

-- A letter, a digit or an underscore.
abbrev pub is_word : ℕ → Bool
is_word x = is_letter x || (leb b'0' x && leb x b'9' || nat_eq x b'_')

-- An identifier in ASCII.
abbrev pub is_identifier : Str → Bool
is_identifier [] = false
is_identifier (x ∷ s) = (is_letter x || nat_eq x b'_') && all is_word s

-- The names of the package that begin with Permission or Role, beside the constants: three of the
-- file itself, its function RoleHasPermission, and the interface of helios_permissions/cache.go.
abbrev pub taken : List Str
taken =
    bytes "Permission"
    ∷ bytes "Role"
    ∷ bytes "Roles"
    ∷ bytes "RoleHasPermission"
    ∷ bytes "PermissionCache"
    ∷ []

-- A constant can have the name.
abbrev pub is_free : Str → Bool
is_free name = is_identifier name && not (contains taken name)

-- The bytes of a permission that can stand in the name of its constant.
abbrev pub is_worded : Str → Bool
is_worded p = all (λ x. is_word x || nat_eq x b':') p

upper_word : (x : ℕ) → is_word x ≡ true → all is_word (to_upper x) ≡ true
unfolding all
upper_word x h = ground arith

flat_words : (start : Bool) (p : Str) → is_worded p ≡ true → all is_word (flat start p) ≡ true
unfolding all flat
flat_words start [] h = refl
flat_words true (x ∷ p) h = ground (
  arith,
  flat_words true p,
  flat_words false p,
  upper_word x,
  all-append is_word (to_upper x) (flat false p),
)
flat_words false (x ∷ p) h = ground (arith, flat_words true p, flat_words false p)

lower_word : (x : ℕ) → is_word x ≡ true → is_word (to_lower x) ≡ true
lower_word x h = ground arith

lower_words : (s : Str) → all is_word s ≡ true → all is_word (map to_lower s) ≡ true
unfolding all
lower_words [] h = refl
lower_words (x ∷ s) h = ground (arith, lower_words s, lower_word x)

perm_identifier : (p : Str) → is_worded p ≡ true → is_identifier (perm_const_name p) ≡ true
perm_identifier p h = rw (perm_const_name-flat p) (unfold bytes all in flat_words true p h)

role_identifier : (r : Str) → all is_word r ≡ true → is_identifier (role_const r) ≡ true
unfolding pascalize_role all bytes
role_identifier [] h = refl
role_identifier (x ∷ s) h =
    ground (arith, lower_words s, upper_word x, all-append is_word (to_upper x) (map to_lower s))

other_tail :
    (p : Str)
    → is_lower true p ≡ true
    → (p == bytes "cache") ≡ false
    → (bytes "Cache" == flat true p) ≡ false
other_tail p lower other = elim (Bool-cases (bytes "Cache" == flat true p)) [
  | inl same ↦
      let tail : bytes "Cache" ≡ flat true p = (==_iff (bytes "Cache") (flat true p)).0 same in
      let names : perm_const_name p ≡ perm_const_name (bytes "cache") =
        perm_const_name-flat p
        ∙ ap (λ s. bytes "Permission" ++ s) (sym tail)
        ∙ sym (
            perm_const_name-flat (bytes "cache")
            ∙ ap (λ s. bytes "Permission" ++ s) (unfold flat bytes in refl)) in
      let is_cache =
        perm_const_name-injective p (bytes "cache") lower (unfold is_lower bytes in refl) names in
      absurd (ground (arith, ==_iff p (bytes "cache")))
  | inr differs ↦ differs
]

untaken :
    (c : ℕ) (s : Str)
    → (bytes "Cache" == c ∷ s) ≡ false
    → contains taken (bytes "Permission" ++ c ∷ s) ≡ false
unfolding contains bytes ◌==◌
untaken c s e = ground arith

-- A permission whose constant gets a name that Go takes.
pub perm_is_free :
    (p : Str)
    → is_lower true p ≡ true
    → is_worded p ≡ true
    → (p == bytes "cache") ≡ false
    → is_free (perm_const_name p) ≡ true
perm_is_free p lower worded other =
    let (c, s, found, low, high) = flat-upper p lower in
    let tail : (bytes "Cache" == c ∷ s) ≡ false =
      ap (λ v. bytes "Cache" == v) (sym found) ∙ other_tail p lower other in
    let name : perm_const_name p ≡ bytes "Permission" ++ c ∷ s =
      perm_const_name-flat p ∙ ap (λ v. bytes "Permission" ++ v) found in
    let free : contains taken (perm_const_name p) ≡ false =
      ap (contains taken) name ∙ untaken c s tail in
    rw (perm_identifier p worded, free) refl

not_has_permission : (s : Str) → (bytes "asPermission" == map to_lower s) ≡ false
unfolding bytes ◌==◌
not_has_permission [] = refl
not_has_permission (a ∷ []) = ground arith
not_has_permission (a ∷ b ∷ []) = ground arith
not_has_permission (a ∷ b ∷ c ∷ s) = ground arith

untaken_role : (r : Str) → is_upper r ≡ true → contains taken (role_const r) ≡ false
unfolding contains bytes ◌==◌ pascalize_role
untaken_role [] h = absurd cc
untaken_role (x ∷ s) h = ground (arith, not_has_permission s)

-- A role whose constant gets a name that Go takes.
pub role_is_free :
    (r : Str) → is_upper r ≡ true → all is_word r ≡ true → is_free (role_const r) ≡ true
role_is_free r upper words = rw (role_identifier r words, untaken_role r upper) refl
