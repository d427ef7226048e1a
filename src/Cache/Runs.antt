-- ===== src/Cache/Runs.antt =====
-- helios_permissions/cache.go: sequences of writes, for any cache and any relation of its state to
-- what it promises.
use helios_permission_golang.Prelude.{List, [], ◌∷◌, some, none, ◌≡◌, refl}
use helios_permission_golang.Cache.{PermissionCache}
use helios_permission_golang.Cache.Spec.{View, Op, promised, promised_all, apply, apply_all}

-- Before any write.
abbrev pub nothing : View
nothing v w = none

abbrev pub All : (Op → Type 0) → List Op → Type 0
All IsFine [] = Unit
All IsFine (op ∷ ops) = IsFine op × All IsFine ops

module _ (C : PermissionCache) (Shows : C.State → View → Type 0) (IsFine : Op → Type 0) where
  pub apply_all-Shows :
      ((op : Op) (s : C.State) (view : View)
        → IsFine op
        → Shows s view
        → (s' : C.State) × (apply C op s ≡ some s') × Shows s' (promised op view))
      → (ops : List Op) (s : C.State) (view : View) → All IsFine ops
      → Shows s view
      → (s' : C.State) × (apply_all C ops s ≡ some s') × Shows s' (promised_all ops view)
  unfolding apply_all promised_all
  apply_all-Shows step [] s view p shows = (s, refl, shows)
  apply_all-Shows step (op ∷ ops) s view p shows =
      let (next, returns, shown) = step op s view p.0 shows in
      let (s', ends, rest) = apply_all-Shows step ops next (promised op view) p.1 shown in
      (s', rw returns ends, rest)
