-- ===== src/Memory/Refinement.antt =====
-- helios_permissions/in_memory_cache.go against the interface's promise, and where the ":" in a
-- tenant breaks it.
use helios_permission_golang.Prelude.{
  Str, true, none, some, List, ◌++◌, ◌≡◌, refl, ap, ◌∙◌, bytes, ==-self, lookup,
}
use helios_permission_golang.Cache.{Slice, elements}
use helios_permission_golang.Cache.Spec.{
  View, Op, set, write_through, invalidate, invalidate_tenant, promised, promised_all, apply,
  apply_all,
}
use helios_permission_golang.Cache.Faithful.{IsFaithful}
use helios_permission_golang.Cache.Runs.{nothing, All, apply_all-Shows}
use helios_permission_golang.Memory
use helios_permission_golang.Memory.{
  InMemoryPermissionCache, new_in_memory_permission_cache, memory_cache, mem_key, ends_with,
}
use helios_permission_golang.Memory.Keys.{
  IsPlain, mem_key-eq, mem_key-shared, mem_key-append, ends_with-mem_key, ends_with_iff,
}
use helios_permission_golang.Memory.Laws.{
  read, get-read, read-set, read-write_through, read-invalidate, read-invalidate_tenant,
}

-- The tenant that a call names has no ":".
abbrev pub IsPlainOp : Op → Type 0
IsPlainOp (set u t perms) = IsPlain t
IsPlainOp (write_through u t perms) = IsPlain t
IsPlainOp (invalidate u t) = IsPlain t
IsPlainOp (invalidate_tenant t) = IsPlain t

-- The cache shows a view to every pair whose tenant is plain.
abbrev pub Shows : InMemoryPermissionCache → View → Type 0
Shows c view = (v w : Str) → IsPlain w → read c v w ≡ view v w

pub apply-Shows :
    (op : Op) (c : InMemoryPermissionCache) (view : View)
    → IsPlainOp op
    → Shows c view
    → (c' : InMemoryPermissionCache) × (apply memory_cache op c ≡ some c')
      × Shows c' (promised op view)
unfolding apply promised
apply-Shows (set u t perms) c view p h =
    (_, refl, λ v w q. rw (read-set, mem_key-eq u v t w p q, h v w q))
apply-Shows (write_through u t perms) c view p h =
    (_, refl, λ v w q. rw (read-write_through, mem_key-eq u v t w p q, h v w q))
apply-Shows (invalidate u t) c view p h =
    (_, refl, λ v w q. rw (read-invalidate, mem_key-eq u v t w p q, h v w q))
apply-Shows (invalidate_tenant t) c view p h =
    (_, refl, λ v w q. rw (read-invalidate_tenant, ends_with-mem_key v w t q p, h v w q))

pub new_cache-Shows : Shows new_in_memory_permission_cache nothing
unfolding read lookup new_in_memory_permission_cache
new_cache-Shows v w q = refl

-- The map of a new cache, and after each call, shows what the interface promises.
abbrev pub memory_faithful : IsFaithful memory_cache
memory_faithful = record {
  IsFine = IsPlainOp;
  Shows = Shows;
  get_view = λ u t c view p h. ap (λ r. r.0.0) (get-read u t c) ∙ h u t p;
  get_shows = λ u t c view h. rw get-read h;
  apply_shows = apply-Shows;
}

-- After any writes to a new cache, whose tenants have no ":" and which all return, what a read of a
-- pair whose tenant has no ":" returns is what the interface's comments promise.
pub memory_cache-promised :
    (ops : List Op) (v w : Str)
    → All IsPlainOp ops
    → IsPlain w
    → (c : InMemoryPermissionCache) × (apply_all memory_cache ops new_in_memory_permission_cache
        ≡ some c)
      × (read c v w ≡ promised_all ops nothing v w)
memory_cache-promised ops v w p q =
    let (c, returns, shows) =
      apply_all-Shows memory_cache Shows IsPlainOp apply-Shows ops new_in_memory_permission_cache
        nothing p new_cache-Shows in
    (c, returns, shows v w q)

-- Whatever the cache holds, invalidating the tenant `t` also drops each entry of a tenant that
-- ends in ":" and `t`; and a value written for the user "u:v" and the tenant `t` is read back for
-- the user `u` and the tenant "v:t".
pub colon_breaks_isolation :
    (c : InMemoryPermissionCache) (u v t : Str) (perms : Slice)
    → (read (Memory.invalidate_tenant t c).1 u (v ++ (bytes ":" ++ t)) ≡ none)
      × (read (Memory.write_through (u ++ (bytes ":" ++ v)) t perms c).1 u (v ++ (bytes ":" ++ t))
          ≡ some (elements perms))
colon_breaks_isolation c u v t perms =
    (rw (read-invalidate_tenant, suffix), rw (read-write_through, mem_key-shared u v t, ==-self))
  where
    suffix : ends_with (mem_key u (v ++ (bytes ":" ++ t))) (bytes ":" ++ t) ≡ true
    suffix = (ends_with_iff _ _).1 (mem_key u v, mem_key-append u v t)
