-- ===== src/Memory.antt =====
-- helios_permissions/in_memory_cache.go: the process-local cache. The lock makes each method one
-- step; the slices are values here, so the defensive copies are equal to what they copy.
pub mod Keys
pub mod Laws
pub mod Refinement
use helios_permission_golang.Prelude.{
  Str, ◌-◌, ltb, if◌then◌else◌, Bool, false, Option, none, some, List, [], ◌∷◌, ◌++◌, Table, bytes,
  ◌==◌, len, drop, lookup, insert, delete, delete_where,
}
use helios_permission_golang.Permission.{Permission}
use helios_permission_golang.Errors.{Error}
use helios_permission_golang.Cache.{Slice, elements, PermissionCache}

pub record InMemoryPermissionCache : Type 0 where
  pub store : Table (List Permission)

unfoldable pub new_in_memory_permission_cache : InMemoryPermissionCache
new_in_memory_permission_cache = record { store = [] }

unfoldable pub mem_key : Str → Str → Str
mem_key user_id tenant_id = user_id ++ (bytes ":" ++ tenant_id)

unfoldable pub ends_with : Str → Str → Bool
ends_with s suffix =
    if ltb (len s) (len suffix) then false else drop (len s - len suffix) s == suffix

unfoldable pub get :
    Str → Str → InMemoryPermissionCache → (Slice × Option Error) × InMemoryPermissionCache
get user_id tenant_id c = elim (lookup (mem_key user_id tenant_id) c.store) [
  | none ↦ ((none, none), c)
  | some perms ↦ ((some perms, none), c)
]

unfoldable pub set :
    Str → Str → Slice → InMemoryPermissionCache → Option Error × InMemoryPermissionCache
set user_id tenant_id perms c =
    let k = mem_key user_id tenant_id in
    elim (lookup k c.store) [
      | some _ ↦ (none, c)
      | none ↦ (none, record { store = insert k (elements perms) c.store })
    ]

unfoldable pub write_through :
    Str → Str → Slice → InMemoryPermissionCache → Option Error × InMemoryPermissionCache
write_through user_id tenant_id perms c =
    (none, record { store = insert (mem_key user_id tenant_id) (elements perms) c.store })

unfoldable pub invalidate :
    Str → Str → InMemoryPermissionCache → Option Error × InMemoryPermissionCache
invalidate user_id tenant_id c =
    (none, record { store = delete (mem_key user_id tenant_id) c.store })

unfoldable pub invalidate_tenant :
    Str → InMemoryPermissionCache → Option Error × InMemoryPermissionCache
invalidate_tenant tenant_id c =
    (none, record { store = delete_where (λ k. ends_with k (bytes ":" ++ tenant_id)) c.store })

-- The cache behind the interface.
abbrev pub memory_cache : PermissionCache
memory_cache = record {
  State = InMemoryPermissionCache;
  get = get;
  set = set;
  write_through = write_through;
  invalidate = invalidate;
  invalidate_tenant = λ t c. some (invalidate_tenant t c);
}
