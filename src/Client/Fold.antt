-- ===== src/Client/Fold.antt =====
-- helios_permissions/permission_client.go: `foldSelfPermissions`.
pub mod Laws
use helios_permission_golang.Prelude.{Str, none, some, List, [], ◌∷◌, ◌++◌, Table, lookup, insert}
use helios_permission_golang.Permission.{Permission}
use helios_permission_golang.Scope.{self_permissions}

-- The body of both loops: `seen` is the set, `merged` the slice.
unfoldable pub fold_loop :
    List Permission → Table {0} Unit → List Permission → Table {0} Unit × List Permission
fold_loop [] seen merged = (seen, merged)
fold_loop (p ∷ ps) seen merged = elim (lookup p seen) [
  | some _ ↦ fold_loop ps seen merged
  | none ↦ fold_loop ps (insert p tt seen) (merged ++ p ∷ [])
]

unfoldable pub fold_self_permissions : List Permission → List Permission
unfolding fold_loop
fold_self_permissions role_perms =
    let (seen, merged) = fold_loop self_permissions [] [] in (fold_loop role_perms seen merged).1
