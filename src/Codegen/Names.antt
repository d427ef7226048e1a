-- ===== src/Codegen/Names.antt =====
-- cmd/codegen/main.go: `permConstName`.
use helios_permission_golang.Prelude.{
  ℕ, ◌-◌, ltb, leb, nat_eq, Str, Bool, true, false, not, ◌&&◌, ◌||◌, if◌then◌else◌, [], ◌∷◌, ◌++◌,
  bytes, ◌≡◌, ◌≢◌, refl, sym, ap, ◌∙◌, arith, inl, inr, append_cancel, Bool-cases,
}
use helios_permission_golang.Codegen.{
  split, join_pascalized, to_upper, pascalize_segment, perm_const_name,
}
use mathlib.Core.List.{append_assoc}

-- Each part begins with a lower case letter and goes on without upper case letters; the flag says
-- that a part begins here.
unfoldable pub is_lower : Bool → Str → Bool
is_lower start [] = not start
is_lower start (x ∷ p) =
    let next = is_lower true p in
    let rest = is_lower false p in
    if start
    then leb b'a' x && leb x b'z' && rest
    else if nat_eq x b':'
    then next
    else (ltb x b'A' || ltb b'Z' x) && rest

-- The name without its prefix, in one pass over the text.
unfoldable pub flat : Bool → Str → Str
flat start [] = []
flat start (x ∷ p) =
    let next = flat true p in
    let rest = flat false p in
    if nat_eq x b':' then next else if start then to_upper x ++ rest else x ∷ rest

split-flat :
    (p : Str)
    → ((split p).0 ++ join_pascalized (split p).1 ≡ flat false p)
      × (pascalize_segment (split p).0 ++ join_pascalized (split p).1 ≡ flat true p)
unfolding split join_pascalized pascalize_segment flat
split-flat [] = (refl, refl)
split-flat (x ∷ p) =
    let (rest, next) = split-flat p in
    elim (Bool-cases (nat_eq x b':')) [
      | inl colon ↦ rw colon (next, next)
      | inr other ↦
          rw other
            (ap (λ s. x ∷ s) rest, append_assoc (to_upper x) _ _ ∙ ap (λ s. to_upper x ++ s) rest)
    ]

pub perm_const_name-flat : (p : Str) → perm_const_name p ≡ bytes "Permission" ++ flat true p
unfolding perm_const_name join_pascalized
perm_const_name-flat p = ap (λ s. bytes "Permission" ++ s) (split-flat p).1

-- A part begins with an upper case letter.
pub flat-upper :
    (q : Str)
    → is_lower true q ≡ true
    → (c : ℕ) × (s : Str) × (flat true q ≡ c ∷ s) × (leb b'A' c ≡ true) × (leb c b'Z' ≡ true)
unfolding flat is_lower
flat-upper [] l = cc
flat-upper (x ∷ q) l = (x - 32, flat false q, ground arith, ground arith, ground arith)

flat-filled :
    (start : Bool) (y : ℕ) (q : Str) → is_lower start (y ∷ q) ≡ true → flat start (y ∷ q) ≢ []
unfolding flat is_lower
flat-filled true y q l e = ground arith
flat-filled false y q l e = elim (Bool-cases (nat_eq y b':')) [
  | inl colon ↦ let (c, s, found, low, high) = flat-upper q (ground arith) in ground arith
  | inr other ↦ ground arith
]

flat-injective :
    (start : Bool) (p q : Str)
    → is_lower start p ≡ true
    → is_lower start q ≡ true
    → flat start p ≡ flat start q
    → p ≡ q
unfolding flat is_lower
flat-injective start [] [] l m e = refl
flat-injective start [] (y ∷ q) l m e = absurd (flat-filled start y q m (sym e))
flat-injective start (x ∷ p) [] l m e = absurd (flat-filled start x p l e)
flat-injective true (x ∷ p) (y ∷ q) l m e = ground (arith, flat-injective false p q)
flat-injective false (x ∷ p) (y ∷ q) l m e = elim (Bool-cases (nat_eq x b':')) [
  | inl colon ↦
      let (c, s, found, low, high) = flat-upper p (ground arith) in
      elim (Bool-cases (nat_eq y b':')) [
        | inl colon' ↦ ground (arith, flat-injective true p q)
        | inr other' ↦ absurd (ground arith)
      ]
  | inr other ↦ elim (Bool-cases (nat_eq y b':')) [
    | inl colon' ↦
        let (c, s, found, low, high) = flat-upper q (ground arith) in absurd (ground arith)
    | inr other' ↦ ground (arith, flat-injective false p q)
  ]
]

-- Two permissions whose parts between colons begin with a lower case letter and have no upper case
-- letter after it get the same constant name only if they are equal.
pub perm_const_name-injective :
    (p q : Str)
    → is_lower true p ≡ true
    → is_lower true q ≡ true
    → perm_const_name p ≡ perm_const_name q
    → p ≡ q
perm_const_name-injective p q l m e = flat-injective true p q l m (
    append_cancel (bytes "Permission") _ _
      (sym (perm_const_name-flat p) ∙ e ∙ perm_const_name-flat q))
