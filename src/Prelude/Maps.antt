-- ===== src/Prelude/Maps.antt =====
-- Go's `map[string]V`, as an association list. The program never reads the order of entries.
use mathlib.Core.Path.{◌≡◌}
use mathlib.Core.Bool.{Bool}
use mathlib.Core.Option.{Option, none, some}
use mathlib.Core.List.{List, [], ◌∷◌}
use native.Mathlib.Omega.{arith}
use package.helios_permission_golang.Prelude.Tests.{if◌then◌else◌}
use package.helios_permission_golang.Prelude.Strings.{Str, ◌==◌, ==_iff}

abbrev pub Table {ℓ} : Type ℓ → Type ℓ
Table V = List (Str × V)

module _ {ℓ} {V : Type ℓ} where
  -- `v, ok := m[k]`
  unfoldable pub lookup : Str → Table V → Option V
  lookup k [] = none
  lookup k ((j, v) ∷ m) = let rest = lookup k m in if j == k then some v else rest

  -- `delete(m, k)`
  unfoldable pub delete : Str → Table V → Table V
  delete k [] = []
  delete k ((j, v) ∷ m) = let rest = delete k m in if j == k then rest else (j, v) ∷ rest

  -- `m[k] = v`
  unfoldable pub insert : Str → V → Table V → Table V
  insert k v m = (k, v) ∷ delete k m

  -- `for k := range m { if q(k) { delete(m, k) } }`
  unfoldable pub delete_where : (Str → Bool) → Table V → Table V
  delete_where q [] = []
  delete_where q ((j, v) ∷ m) = let rest = delete_where q m in if q j then rest else (j, v) ∷ rest

  pub lookup-delete :
      (k j : Str) (m : Table V) → lookup j (delete k m) ≡ (if k == j then none else lookup j m)
  unfolding lookup delete
  lookup-delete k j [] = ground arith
  lookup-delete k j ((i, v) ∷ m) =
      ground (arith, lookup-delete k j m, ==_iff i k, ==_iff i j, ==_iff k j)

  pub lookup-insert :
      (k j : Str) (v : V) (m : Table V)
      → lookup j (insert k v m) ≡ (if k == j then some v else lookup j m)
  unfolding lookup insert
  lookup-insert k j v m = ground (arith, lookup-delete k j m)

  pub lookup-delete_where :
      (q : Str → Bool) (j : Str) (m : Table V)
      → lookup j (delete_where q m) ≡ (if q j then none else lookup j m)
  unfolding lookup delete_where
  lookup-delete_where q j [] = ground arith
  lookup-delete_where q j ((i, v) ∷ m) = ground (arith, lookup-delete_where q j m, ==_iff i j)

  pub ruleset table_laws = (lookup-delete, lookup-insert, lookup-delete_where)
