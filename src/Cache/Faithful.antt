-- ===== src/Cache/Faithful.antt =====
-- helios_permissions/cache.go: the promise of the interface as a cache of its own, and what it is
-- for another cache to implement it.
use helios_permission_golang.Prelude.{Str, none, some, ◌≡◌}
use helios_permission_golang.Cache.{PermissionCache}
use helios_permission_golang.Cache.Spec.{
  View, Op, set, write_through, invalidate, invalidate_tenant, promised, apply,
}
use helios_permission_golang.Memory.Keys.{IsPlain}

-- The table itself, with the calls that the comments describe.
abbrev pub view_cache : PermissionCache
view_cache = record {
  State = View;
  get = λ u t view. ((view u t, none), view);
  set = λ u t perms view. (none, promised (set u t perms) view);
  write_through = λ u t perms view. (none, promised (write_through u t perms) view);
  invalidate = λ u t view. (none, promised (invalidate u t) view);
  invalidate_tenant = λ t view. some (none, promised (invalidate_tenant t) view);
}

-- A cache whose states show tables: for plain tenants a read returns what the table has, and a
-- call that is fine returns and does to the table what is promised.
pub record IsFaithful (C : PermissionCache) : Type 1 where
  pub IsFine : Op → Type 0
  pub Shows : C.State → View → Type 0
  pub get_view :
      (u t : Str) (x : C.State) (view : View)
      → IsPlain t
      → Shows x view
      → (C.get u t x).0.0 ≡ view u t
  pub get_shows :
      (u t : Str) (x : C.State) (view : View) → Shows x view → Shows (C.get u t x).1 view
  pub apply_shows :
      (op : Op) (x : C.State) (view : View)
      → IsFine op
      → Shows x view
      → (x' : C.State) × (apply C op x ≡ some x') × Shows x' (promised op view)
