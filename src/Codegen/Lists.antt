-- ===== src/Codegen/Lists.antt =====
-- cmd/codegen/main.go: lists of names and of entries under names.
use helios_permission_golang.Prelude.{
  Str, Bool, true, List, [], ◌∷◌, ◌++◌, ==-self, contains, all, ◌≡◌, refl, ap, arith,
}
use helios_permission_golang.Codegen.{map}
use helios_permission_golang.Codegen.Meaning.{firsts}

pub all_if :
    (q : Str → Bool) (xs : List Str)
    → ((x : Str) → contains xs x ≡ true → q x ≡ true)
    → all q xs ≡ true
unfolding all contains
all_if q [] h = refl
all_if q (x ∷ xs) h =
    let here = h x (ground (arith, ==-self x)) in
    let later = all_if q xs (λ y e. h y (ground arith)) in ground arith

pub all_map :
    (q : Str → Bool) (f : Str → Str) (xs : List Str)
    → ((x : Str) → contains xs x ≡ true → q (f x) ≡ true)
    → all q (map f xs) ≡ true
unfolding all contains
all_map q f [] h = refl
all_map q f (x ∷ xs) h =
    let here = h x (ground (arith, ==-self x)) in
    let later = all_map q f xs (λ y e. h y (ground arith)) in ground arith

pub firsts-map :
    {A : Type 0} (f : Str → Str) (g : Str → A) (xs : List Str)
    → firsts (map (λ x. (f x, g x)) xs) ≡ map f xs
firsts-map f g [] = refl
firsts-map f g (x ∷ xs) = ap (λ l. f x ∷ l) (firsts-map f g xs)

pub firsts-append :
    {A : Type 0} (xs ys : List (Str × A)) → firsts (xs ++ ys) ≡ firsts xs ++ firsts ys
firsts-append [] ys = refl
firsts-append ((x, a) ∷ xs) ys = ap (λ l. x ∷ l) (firsts-append xs ys)

pub map-append : (f : Str → Str) (xs ys : List Str) → map f (xs ++ ys) ≡ map f xs ++ map f ys
map-append f [] ys = refl
map-append f (x ∷ xs) ys = ap (λ l. f x ∷ l) (map-append f xs ys)
