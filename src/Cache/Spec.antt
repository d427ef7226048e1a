-- ===== src/Cache/Spec.antt =====
-- helios_permissions/cache.go: what the comments of `PermissionCache` promise, as a table from
-- pairs of a user and a tenant to slices, with nil for a miss.
use helios_permission_golang.Prelude.{
  Str, ◌&&◌, if◌then◌else◌, Option, ◌>>=◌, none, some, List, [], ◌∷◌, ◌==◌,
}
use helios_permission_golang.Cache.{Slice, elements, PermissionCache}

abbrev pub View : Type 0
View = Str → Str → Slice

-- The calls that write.
pub data Op : Type 0 where
  set write_through : Str → Str → Slice → Op
  invalidate : Str → Str → Op
  invalidate_tenant : Str → Op

-- "only sets if the key is not present"
abbrev pub set_if_absent : Slice → Slice → Slice
set_if_absent none perms = some (elements perms)
set_if_absent (some ps) perms = some ps

unfoldable pub promised : Op → View → View
promised (set u t perms) view v w =
    if u == v && t == w then set_if_absent (view v w) perms else view v w
promised (write_through u t perms) view v w =
    if u == v && t == w then some (elements perms) else view v w
promised (invalidate u t) view v w = if u == v && t == w then none else view v w
promised (invalidate_tenant t) view v w = if w == t then none else view v w

unfoldable pub promised_all : List Op → View → View
promised_all [] view = view
promised_all (op ∷ ops) view = promised_all ops (promised op view)

module _ (C : PermissionCache) where
  open C use {State}

  -- The state after a call, if it returns.
  unfoldable pub apply : Op → State → Option State
  apply (set u t perms) s = some (C.set u t perms s).1
  apply (write_through u t perms) s = some (C.write_through u t perms s).1
  apply (invalidate u t) s = some (C.invalidate u t s).1
  apply (invalidate_tenant t) s = do (failure, s') ← C.invalidate_tenant t s; some s'

  unfoldable pub apply_all : List Op → State → Option State
  apply_all [] s = some s
  apply_all (op ∷ ops) s = do s' ← apply op s; apply_all ops s'
