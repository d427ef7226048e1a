-- ===== src/Memory/Laws.antt =====
-- helios_permissions/in_memory_cache.go: what a later `Get` returns after each method, for every
-- pair of a user and a tenant.
use helios_permission_golang.Prelude.{
  Str, true, if◌then◌else◌, none, some, ◌++◌, ◌≡◌, refl, arith, bytes, ◌==◌, ==_iff, ==-self, ap,
  lookup-insert, lookup-delete, lookup-delete_where, lookup,
}
use helios_permission_golang.Cache.{Slice, elements}
use helios_permission_golang.Cache.Spec.{set_if_absent}
use helios_permission_golang.Cache.Contract.{IsCoherent}
use helios_permission_golang.Memory.Keys.{ends_with_iff}
use helios_permission_golang.Memory.{
  InMemoryPermissionCache, memory_cache, mem_key, ends_with, get, set, write_through, invalidate,
  invalidate_tenant,
}

-- The slice that `Get` returns.
unfoldable pub read : InMemoryPermissionCache → Str → Str → Slice
read c u t = lookup (mem_key u t) c.store

-- `Get` returns no error and changes nothing.
pub get-read : (u t : Str) (c : InMemoryPermissionCache) → get u t c ≡ ((read c u t, none), c)
unfolding get read
get-read u t c = ground arith

module _ (u t : Str) (c : InMemoryPermissionCache) (v w : Str) where
  pub read-set :
      (perms : Slice)
      → read (set u t perms c).1 v w
        ≡ (if mem_key u t == mem_key v w then set_if_absent (read c v w) perms else read c v w)
  unfolding set read
  read-set perms = ground (
    arith,
    lookup-insert (mem_key u t) (mem_key v w) (elements perms) c.store,
    ==_iff (mem_key u t) (mem_key v w),
  )

  pub read-write_through :
      (perms : Slice)
      → read (write_through u t perms c).1 v w
        ≡ (if mem_key u t == mem_key v w then some (elements perms) else read c v w)
  unfolding write_through read
  read-write_through perms = lookup-insert (mem_key u t) (mem_key v w) (elements perms) c.store

  pub read-invalidate :
      read (invalidate u t c).1 v w ≡ (if mem_key u t == mem_key v w then none else read c v w)
  unfolding invalidate read
  read-invalidate = lookup-delete (mem_key u t) (mem_key v w) c.store

  pub read-invalidate_tenant :
      read (invalidate_tenant t c).1 v w
      ≡ (if ends_with (mem_key v w) (bytes ":" ++ t) then none else read c v w)
  unfolding invalidate_tenant read
  read-invalidate_tenant =
      lookup-delete_where (λ k. ends_with k (bytes ":" ++ t)) (mem_key v w) c.store

pub own_key : (u t : Str) → ends_with (mem_key u t) (bytes ":" ++ t) ≡ true
unfolding mem_key
own_key u t = (ends_with_iff _ _).1 (u, refl)

-- The in-memory cache keeps the contract of the client, for every user and tenant.
abbrev pub memory_cache-IsCoherent : IsCoherent memory_cache
memory_cache-IsCoherent = record {
  Keeps = λ perms. Unit;
  Sweeps = λ t. Unit;
  IsSound = λ c u t. Unit;
  peek = read;
  get_peek = λ u t c. ap (λ r. r.0.0) (get-read u t c);
  peek_get = λ u t c. ap (λ r. read r.1 u t) (get-read u t c);
  sound_get = λ u t c p. tt;
  peek_set = λ u t perms c p q. rw (read-set, ==-self);
  peek_write_through = λ u t perms c p. rw (read-write_through, ==-self);
  sound_write_through = λ u t perms c p. tt;
  peek_invalidate = λ u t c. rw (read-invalidate, ==-self);
  sound_invalidate = λ u t c. tt;
  peek_invalidate_tenant =
      λ u t c p. (invalidate_tenant t c, refl, rw (read-invalidate_tenant, own_key u t));
}
