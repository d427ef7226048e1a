-- ===== src/Codegen/Resolve.antt =====
-- cmd/codegen/main.go: what the constant names in the output stand for.
use helios_permission_golang.Prelude.{
  Str, Bool, true, false, Option, none, some, ◌>>=◌, List, [], ◌∷◌, ◌++◌, Table, lookup, ◌==◌,
  ==_iff, ==-self, contains, all, all-contains, ◌≡◌, refl, sym, ap, arith, Bool-cases, inl, inr,
}
use helios_permission_golang.Codegen.{map}

-- The values of constants; `none` where a name is not declared.
unfoldable pub resolve_all : Table Str → List Str → Option (List Str)
resolve_all consts [] = some []
resolve_all consts (name ∷ names) = do
  value ← lookup name consts
  values ← resolve_all consts names
  some (value ∷ values)

-- A map whose keys, and the elements of whose values, are constants.
unfoldable pub resolve_table :
    Table Str → Table Str → List (Str × List Str) → Option (List (Str × List Str))
resolve_table keys elements [] = some []
resolve_table keys elements ((key, names) ∷ entries) = do
  k ← lookup key keys
  values ← resolve_all elements names
  rest ← resolve_table keys elements entries
  some ((k, values) ∷ rest)

-- The constants of names under `f`.
abbrev pub consts : (Str → Str) → List Str → Table Str
consts f xs = map (λ p. (f p, p)) xs

module _ (f : Str → Str) (is_good : Str → Bool)
    (injective : (p q : Str) → is_good p ≡ true → is_good q ≡ true → f p ≡ f q → p ≡ q) where
  -- Names with equal constants are equal, so a constant is found under its name.
  pub lookup-consts :
      (xs : List Str) (p : Str)
      → all is_good xs ≡ true
      → contains xs p ≡ true
      → lookup (f p) (consts f xs) ≡ some p
  unfolding lookup contains all
  lookup-consts [] p good has = cc
  lookup-consts (x ∷ xs) p good has = elim (Bool-cases (f x == f p)) [
    | inl same ↦ rw same (
        ap some (
          injective x p (ground arith) (all-contains is_good (x ∷ xs) p good has)
            ((==_iff (f x) (f p)).0 same)))
    | inr other ↦ rw other (
        lookup-consts xs p (ground arith) (elim (Bool-cases (x == p)) [
          | inl it ↦ absurd (differ x p ((==_iff x p).0 it) other)
          | inr distinct ↦ ground arith
        ]))
  ]
    where
      differ : (x p : Str) → x ≡ p → (f x == f p) ≡ false → ⊥
      differ x p e other =
          let same : (f x == f p) ≡ true = (==_iff (f x) (f p)).1 (ap f e) in absurd cc

  pub resolve_all-map :
      (xs ps : List Str)
      → all is_good xs ≡ true
      → all (contains xs) ps ≡ true
      → resolve_all (consts f xs) (map f ps) ≡ some ps
  unfolding resolve_all all
  resolve_all-map xs [] good has = refl
  resolve_all-map xs (p ∷ ps) good has =
      let found = lookup-consts xs p good (ground arith) in
      let later = resolve_all-map xs ps good (ground arith) in rw (found, later) refl

-- A map from constants to constants.
unfoldable pub resolve_pairs : Table Str → Table Str → List (Str × Str) → Option (List (Str × Str))
resolve_pairs keys elements [] = some []
resolve_pairs keys elements ((key, name) ∷ entries) = do
  k ← lookup key keys
  value ← lookup name elements
  rest ← resolve_pairs keys elements entries
  some ((k, value) ∷ rest)

pub resolve_pairs-append :
    (keys elements : Table Str) (es es' vs vs' : List (Str × Str))
    → resolve_pairs keys elements es ≡ some vs
    → resolve_pairs keys elements es' ≡ some vs'
    → resolve_pairs keys elements (es ++ es') ≡ some (vs ++ vs')
unfolding resolve_pairs
resolve_pairs-append keys elements [] es' vs vs' h k =
    let it : ◌≡◌ {A = List (Str × Str)} [] vs = cc in rw⁻¹ it k
resolve_pairs-append keys elements ((key, name) ∷ es) es' vs vs' h k =
    first (lookup key keys) (lookup name elements) (resolve_pairs keys elements es)
      (λ rest e. resolve_pairs-append keys elements es es' rest vs' e k) refl h
  where
    first :
        (a b : Option Str) (o : Option (List (Str × Str)))
        → ((rest : List (Str × Str))
            → resolve_pairs keys elements es ≡ some rest
            → resolve_pairs keys elements (es ++ es') ≡ some (rest ++ vs'))
        → resolve_pairs keys elements es ≡ o
        → (do x ← a; y ← b; rest ← o; some ((x, y) ∷ rest)) ≡ some vs
        → (do x ← a; y ← b; rest ← resolve_pairs keys elements (es ++ es'); some ((x, y) ∷ rest))
          ≡ some (vs ++ vs')
    first none b o later e h = cc
    first (some x) none o later e h = cc
    first (some x) (some y) none later e h = cc
    first (some x) (some y) (some rest) later e h =
        let it : (x, y) ∷ rest ≡ vs = cc in rw (later rest e, sym it) refl

module _ (f : Str → Str) (keys elements : Table Str) where
  pub resolve_pairs-map :
      (ps : List Str) (name value : Str)
      → ((p : Str) → contains ps p ≡ true → lookup (f p) keys ≡ some p)
      → lookup name elements ≡ some value
      → resolve_pairs keys elements (map (λ p. (f p, name)) ps) ≡ some (map (λ p. (p, value)) ps)
  unfolding resolve_pairs contains
  resolve_pairs-map [] name value found is = refl
  resolve_pairs-map (p ∷ ps) name value found is =
      let here = found p (ground (arith, ==-self p)) in
      let later = resolve_pairs-map ps name value (λ q e. found q (ground arith)) is in
      rw (here, is, later) refl

  pub resolve_table-map :
      (g : Str → Str) (members : Str → List Str) (rs : List Str)
      → ((r : Str) → contains rs r ≡ true → lookup (g r) keys ≡ some r)
      → ((r : Str)
          → contains rs r ≡ true
          → resolve_all elements (map f (members r)) ≡ some (members r))
      → resolve_table keys elements (map (λ r. (g r, map f (members r))) rs)
        ≡ some (map (λ r. (r, members r)) rs)
  unfolding resolve_table contains
  resolve_table-map g members [] found has = refl
  resolve_table-map g members (r ∷ rs) found has =
      let here = found r (ground (arith, ==-self r)) in
      let own = has r (ground (arith, ==-self r)) in
      let later =
        resolve_table-map g members rs (λ q e. found q (ground arith))
          (λ q e. has q (ground arith)) in
      rw (here, own, later) refl
