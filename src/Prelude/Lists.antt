-- ===== src/Prelude/Lists.antt =====
-- Lists of texts: the loops `for _, p := range ps { if p == x { return true } }`, and their laws.
use Prim.Native.Nat.{ℕ, suc}
use mathlib.Core.Path.{◌≡◌, refl}
use mathlib.Core.Bool.{Bool, true, false, ◌&&◌, ◌||◌}
use mathlib.Core.List.{List, [], ◌∷◌, ◌++◌}
use native.Mathlib.Omega.{arith}
use package.helios_permission_golang.Prelude.Tests.{if◌then◌else◌}
use package.helios_permission_golang.Prelude.Strings.{Str, ◌==◌, ==_iff}

-- `for _, p := range ps { if p == x { return true } }; return false`
unfoldable pub contains : List Str → Str → Bool
contains [] x = false
contains (p ∷ ps) x = let rest = contains ps x in if p == x then true else rest

module _ {ℓ} {A : Type ℓ} where
  unfoldable pub all : (A → Bool) → List A → Bool
  all q [] = true
  all q (x ∷ xs) = let rest = all q xs in q x && rest

  abbrev pub length : List A → ℕ
  length [] = 0
  length (x ∷ xs) = suc (length xs)

pub contains-append :
    (ps qs : List Str) (x : Str) → contains (ps ++ qs) x ≡ (contains ps x || contains qs x)
unfolding contains
contains-append [] qs x = refl
contains-append (p ∷ ps) qs x = ground (arith, contains-append ps qs x)

-- What a checked list contains passes the check.
pub all-contains :
    (q : Str → Bool) (ps : List Str) (x : Str) → all q ps ≡ true → contains ps x ≡ true → q x ≡ true
unfolding all contains
all-contains q [] x h m = cc
all-contains q (p ∷ ps) x h m = ground (arith, all-contains q ps x, ==_iff p x)

pub all-append {ℓ} :
    {A : Type ℓ} (q : A → Bool) (xs ys : List A) → all q (xs ++ ys) ≡ (all q xs && all q ys)
unfolding all
all-append q [] ys = refl
all-append q (x ∷ xs) ys = ground (arith, all-append q xs ys)

-- A list whose elements another one contains is smaller.
pub contains_mono :
    (ps qs : List Str) (x : Str)
    → all (contains qs) ps ≡ true
    → contains ps x ≡ true
    → contains qs x ≡ true
contains_mono ps qs x = all-contains (contains qs) ps x
