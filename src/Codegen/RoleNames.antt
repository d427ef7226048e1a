-- ===== src/Codegen/RoleNames.antt =====
-- cmd/codegen/main.go: `pascalizeRole`.
use helios_permission_golang.Prelude.{
  ℕ, ltb, Str, Bool, true, false, ◌&&◌, ◌||◌, [], ◌∷◌, bytes, ◌≡◌, refl, arith, append_cancel, all,
}
use helios_permission_golang.Codegen.{map, to_lower, pascalize_role, role_const}

-- ASCII without lower case letters.
abbrev is_upper_byte : ℕ → Bool
is_upper_byte x = ltb x 128 && (ltb x b'a' || ltb b'z' x)

abbrev pub is_upper : Str → Bool
is_upper [] = false
is_upper (x ∷ s) = is_upper_byte x && all is_upper_byte s

to_lower-injective :
    (x y : ℕ) → is_upper_byte x ≡ true → is_upper_byte y ≡ true → to_lower x ≡ to_lower y → x ≡ y
to_lower-injective x y p q e = ground arith

map-to_lower-injective :
    (s t : Str)
    → all is_upper_byte s ≡ true
    → all is_upper_byte t ≡ true
    → map to_lower s ≡ map to_lower t
    → s ≡ t
unfolding all
map-to_lower-injective [] [] p q e = refl
map-to_lower-injective [] (y ∷ t) p q e = cc
map-to_lower-injective (x ∷ s) [] p q e = cc
map-to_lower-injective (x ∷ s) (y ∷ t) p q e =
    ground (arith, to_lower-injective x y, map-to_lower-injective s t)

-- Two roles in ASCII without lower case letters, and not empty, have the same constant name only
-- if they are equal.
pub role_const-injective :
    (r q : Str) → is_upper r ≡ true → is_upper q ≡ true → role_const r ≡ role_const q → r ≡ q
unfolding pascalize_role
role_const-injective [] q p p' e = cc
role_const-injective (x ∷ s) [] p p' e = cc
role_const-injective (x ∷ s) (y ∷ t) p p' e =
    let rest = append_cancel (bytes "Role") _ _ e in ground (arith, map-to_lower-injective s t)
