-- ===== src/Prelude/Strings.antt =====
-- A Go string is a sequence of bytes. The operators of the language: `==`, `+`, `len`, `s[i:]`.
use Prim.Native.Nat.{ℕ, zero, suc, ◌+◌}
use Prim.Native.Char.{code}
use Prim.Native.String.{String}
use mathlib.Core.Path.{◌≡◌, refl, ap}
use mathlib.Core.Logic.{◌≢◌, ◌↔◌}
use mathlib.Core.Bool.{Bool, true, false, ◌&&◌}
use mathlib.Core.List.{List, [], ◌∷◌, ◌++◌}
use native.Mathlib.Omega.{arith}
use package.helios_permission_golang.Prelude.Tests.{nat_eq}

abbrev pub Str : Type 0
Str = List ℕ

-- The bytes of a literal of the source; the literals are ASCII.
unfoldable pub bytes : String → Str
bytes String.[] = []
bytes (String.◌∷◌ c s) = code c ∷ bytes s

infix 50 ◌==◌
unfoldable pub ◌==◌ : Str → Str → Bool
[] == [] = true
(x ∷ xs) == (y ∷ ys) = let rest = xs == ys in nat_eq x y && rest
_ == _ = false

==-sound : (s t : Str) → (s == t) ≡ true → s ≡ t
unfolding ◌==◌
==-sound [] [] h = refl
==-sound [] (y ∷ ys) h = cc
==-sound (x ∷ xs) [] h = cc
==-sound (x ∷ xs) (y ∷ ys) h = ground (arith, ==-sound xs ys)

pub ==-self : (s : Str) → (s == s) ≡ true
unfolding ◌==◌
==-self [] = refl
==-self (x ∷ xs) = ground (arith, ==-self xs)

pub ==_iff : (s t : Str) → ((s == t) ≡ true) ↔ (s ≡ t)
==_iff s t = (==-sound s t, λ e. rw e (==-self t))

abbrev pub len : Str → ℕ
len [] = 0
len (x ∷ xs) = suc (len xs)

-- `s[n:]`
abbrev pub drop : ℕ → Str → Str
drop zero s = s
drop (suc n) [] = []
drop (suc n) (x ∷ s) = drop n s

pub len-append : (s t : Str) → len (s ++ t) ≡ len s + len t
len-append [] t = omega arith
len-append (x ∷ s) t = omega (arith, len-append s t)

pub drop-append : (s t : Str) → drop (len s) (s ++ t) ≡ t
drop-append [] t = refl
drop-append (x ∷ s) t = drop-append s t

-- The byte `c` does not occur in the text.
abbrev pub Without : ℕ → Str → Type 0
Without c [] = Unit
Without c (x ∷ s) = (x ≢ c) × Without c s

pub ==-comm : (s t : Str) → (s == t) ≡ (t == s)
unfolding ◌==◌
==-comm [] [] = refl
==-comm [] (y ∷ ys) = refl
==-comm (x ∷ xs) [] = refl
==-comm (x ∷ xs) (y ∷ ys) = ground (arith, ==-comm xs ys)

-- `s[:n]`
abbrev pub take : ℕ → Str → Str
take zero s = []
take (suc n) [] = []
take (suc n) (x ∷ s) = x ∷ take n s

pub take-drop : (n : ℕ) (s : Str) → take n s ++ drop n s ≡ s
take-drop zero s = refl
take-drop (suc n) [] = refl
take-drop (suc n) (x ∷ s) = ap (◌∷◌ x) (take-drop n s)

pub ==-prefix : (p s t : Str) → (p ++ s == p ++ t) ≡ (s == t)
unfolding ◌==◌
==-prefix [] s t = refl
==-prefix (x ∷ p) s t = ground (arith, ==-prefix p s t)

pub append_cancel : (p s t : Str) → p ++ s ≡ p ++ t → s ≡ t
append_cancel p s t e = grind (arith, ==-prefix p s t, ==_iff s t, ==_iff (p ++ s) (p ++ t))
