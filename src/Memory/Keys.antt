-- ===== src/Memory/Keys.antt =====
-- helios_permissions/in_memory_cache.go: `memKey` and `endsWith`.
use helios_permission_golang.Prelude.{
  ℕ, ◌-◌, Str, ◌&&◌, take, take-drop, true, [], ◌∷◌, ◌++◌, ◌≡◌, ◌↔◌, refl, sym, arith, bytes, ◌==◌,
  ==_iff, ==-self, len, drop, len-append, drop-append, Without, Bool-eq_of_iff,
}
use mathlib.Core.List.{append_assoc}
use mathlib.Core.Path.{subst}
use helios_permission_golang.Memory.{mem_key, ends_with}

abbrev pub colon : ℕ
colon = b':'

-- The text has no ":".
abbrev pub IsPlain : Str → Type 0
IsPlain = Without colon

not-Without : (s t : Str) → Without colon (s ++ colon ∷ t) → ⊥
not-Without [] t h = h.0 refl
not-Without (x ∷ s) t h = not-Without s t h.1

pub split_unique :
    (u v t w : Str) → IsPlain t → IsPlain w → u ++ colon ∷ t ≡ v ++ colon ∷ w → (u ≡ v) × (t ≡ w)
split_unique [] [] t w p q e = ground arith
split_unique [] (y ∷ v) t w p q e =
    let rest : t ≡ v ++ colon ∷ w = ground arith in absurd (not-Without v w (subst IsPlain rest p))
split_unique (x ∷ u) [] t w p q e =
    let rest : w ≡ u ++ colon ∷ t = ground arith in absurd (not-Without u t (subst IsPlain rest q))
split_unique (x ∷ u) (y ∷ v) t w p q e = ground (arith, split_unique u v t w p q)

-- Where tenant identifiers have no ":", two keys are equal only for the same user and tenant.
pub mem_key-injective :
    (u v t w : Str) → IsPlain t → IsPlain w → mem_key u t ≡ mem_key v w → (u ≡ v) × (t ≡ w)
unfolding mem_key bytes
mem_key-injective u v t w p q e = split_unique u v t w p q e

pub mem_key-eq :
    (u v t w : Str) → IsPlain t → IsPlain w → (mem_key u t == mem_key v w) ≡ (u == v && t == w)
mem_key-eq u v t w p q = grind (
  arith,
  ==_iff (mem_key u t) (mem_key v w),
  ==_iff u v,
  ==_iff t w,
  mem_key-injective u v t w p q,
)

-- Otherwise a ":" can move from the user to the tenant, and two pairs share one key.
pub mem_key-shared :
    (u v t : Str) → mem_key (u ++ (bytes ":" ++ v)) t ≡ mem_key u (v ++ (bytes ":" ++ t))
unfolding mem_key bytes
mem_key-shared u v t = append_assoc u (colon ∷ v) (colon ∷ t)

pub mem_key-append :
    (u v t : Str) → mem_key u (v ++ (bytes ":" ++ t)) ≡ mem_key u v ++ (bytes ":" ++ t)
unfolding mem_key
mem_key-append u v t = simp append_assoc

ends_with-suffix : (s suffix : Str) → ends_with s suffix ≡ true → (p : Str) × (s ≡ p ++ suffix)
unfolding ends_with
ends_with-suffix s suffix h =
    let n = len s - len suffix in
    let e : drop n s ≡ suffix = (==_iff _ _).0 (ground arith) in
    (take n s, sym (subst (λ r. take n s ++ r ≡ s) e (take-drop n s)))

ends_with-append : (p suffix : Str) → ends_with (p ++ suffix) suffix ≡ true
unfolding ends_with
ends_with-append p suffix =
    let n : len (p ++ suffix) - len suffix ≡ len p = omega (arith, len-append p suffix) in
    rw (n, drop-append p suffix) (ground (arith, len-append p suffix, ==-self suffix))

-- `ends_with` is the test for a suffix.
pub ends_with_iff : (s suffix : Str) → (ends_with s suffix ≡ true) ↔ ((p : Str) × (s ≡ p ++ suffix))
ends_with_iff s suffix =
    (ends_with-suffix s suffix, λ found. rw found.1 (ends_with-append found.0 suffix))

-- For plain tenants, a key has the suffix of a tenant exactly when it is a key of that tenant.
pub ends_with-mem_key :
    (u w t : Str) → IsPlain w → IsPlain t → ends_with (mem_key u w) (bytes ":" ++ t) ≡ (w == t)
unfolding mem_key bytes
ends_with-mem_key u w t p q =
    Bool-eq_of_iff _ _
      (λ h.
        let found = ends_with-suffix _ _ h in
        (==_iff w t).1 (split_unique u found.0 w t p q found.1).1)
      (λ h. rw ((==_iff w t).0 h) (ends_with-append u (colon ∷ t)))
