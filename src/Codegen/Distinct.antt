-- ===== src/Codegen/Distinct.antt =====
-- cmd/codegen/main.go: lists of names that Go accepts as constants of one block or keys of one map.
use helios_permission_golang.Prelude.{
  Str, Bool, true, false, not, ◌&&◌, List, [], ◌∷◌, ◌++◌, ==_iff, contains, contains-append, all,
  ◌≡◌, refl, ◌∙◌, arith,
}
use helios_permission_golang.Codegen.{map, insert_sorted, sort_strings}
use helios_permission_golang.Codegen.Buckets.{contains-insert_sorted, contains-sort_strings}

-- No name twice.
unfoldable pub distinct : List Str → Bool
distinct [] = true
distinct (x ∷ xs) = let rest = distinct xs in not (contains xs x) && rest

distinct-insert_sorted :
    (x : Str) (xs : List Str) → distinct (insert_sorted x xs) ≡ distinct (x ∷ xs)
unfolding distinct insert_sorted contains
distinct-insert_sorted x [] = refl
distinct-insert_sorted x (y ∷ ys) =
    ground
      (arith, distinct-insert_sorted x ys, contains-insert_sorted x ys y, ==_iff x y, ==_iff y x)

pub distinct-sort_strings : (xs : List Str) → distinct (sort_strings xs) ≡ distinct xs
unfolding distinct sort_strings
distinct-sort_strings [] = refl
distinct-sort_strings (x ∷ xs) =
    distinct-insert_sorted x (sort_strings xs)
    ∙ ground (arith, distinct-sort_strings xs, contains-sort_strings xs x)

module _ (f : Str → Str) (is_good : Str → Bool)
    (injective : (p q : Str) → is_good p ≡ true → is_good q ≡ true → f p ≡ f q → p ≡ q) where
  contains-map :
      (xs : List Str) (p : Str)
      → all is_good xs ≡ true
      → is_good p ≡ true
      → contains xs p ≡ false
      → contains (map f xs) (f p) ≡ false
  unfolding contains all
  contains-map [] p good goodp not_in = refl
  contains-map (x ∷ xs) p good goodp not_in =
      ground (arith, contains-map xs p, injective x p, ==_iff (f x) (f p), ==_iff x p)

  pub distinct-map :
      (xs : List Str) → all is_good xs ≡ true → distinct xs ≡ true → distinct (map f xs) ≡ true
  unfolding distinct all
  distinct-map [] good h = refl
  distinct-map (x ∷ xs) good h = ground (arith, contains-map xs x, distinct-map xs)

-- The place of a name does not matter.
pub distinct-insert :
    (xs : List Str) (x : Str) (ys : List Str)
    → distinct (x ∷ xs ++ ys) ≡ true
    → distinct (xs ++ x ∷ ys) ≡ true
unfolding distinct contains
distinct-insert [] x ys h = h
distinct-insert (z ∷ xs) x ys h = ground (
  arith,
  distinct-insert xs x ys,
  contains-append xs (x ∷ ys) z,
  contains-append xs ys z,
  contains-append xs ys x,
  ==_iff x z,
  ==_iff z x,
)
