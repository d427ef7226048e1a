-- ===== src/Tests/Memory.antt =====
-- Cases of helios_permissions_test/in_memory_cache_test.go.
use helios_permission_golang.Prelude.{
  Str, none, some, List, [], ◌∷◌, ◌++◌, ◌≡◌, refl, arith, bytes, ◌==◌, lookup, insert, delete,
  delete_where,
}
use helios_permission_golang.Permission
use helios_permission_golang.Cache.Spec.{
  Op, set, write_through, invalidate_tenant, promised_all, apply, apply_all,
}
use helios_permission_golang.Memory
use helios_permission_golang.Memory.{
  InMemoryPermissionCache, new_in_memory_permission_cache, memory_cache, mem_key, ends_with,
}
use helios_permission_golang.Memory.Keys.{IsPlain, ends_with-mem_key}
use helios_permission_golang.Memory.Laws.{read}
use helios_permission_golang.Cache.Runs.{nothing}
use helios_permission_golang.Memory.Refinement.{memory_cache-promised, colon_breaks_isolation}

code : Unit {0}
unfolding apply apply_all Memory.get Memory.set Memory.write_through Memory.invalidate
    Memory.invalidate_tenant mem_key ends_with read bytes ◌==◌ lookup insert delete delete_where
    new_in_memory_permission_cache
code = tt

abbrev u1 : Str
u1 = bytes "u1"

abbrev t1 : Str
t1 = bytes "t1"

abbrev t2 : Str
t2 = bytes "t2"

abbrev view : List Str
view = Permission.athens_project_view ∷ []

abbrev billing : List Str
billing = Permission.zeta_billing_view ∷ []

abbrev writes : List Op
writes =
    set u1 t1 (some view)
    ∷ set u1 t1 (some billing)
    ∷ write_through u1 t2 none
    ∷ invalidate_tenant t1
    ∷ []

ran : List Op → InMemoryPermissionCache
ran ops = elim (apply_all memory_cache ops new_in_memory_permission_cache) [
  | some c ↦ c
  | none ↦ new_in_memory_permission_cache
]

after : InMemoryPermissionCache
unfolding code ran
after = ran writes

set_keeps_first :
    read (ran (set u1 t1 (some view) ∷ set u1 t1 (some billing) ∷ [])) u1 t1 ≡ some view
unfolding code ran
set_keeps_first = refl

tenant_is_dropped : (read after u1 t1 ≡ none) × (read after u1 t2 ≡ some [])
unfolding code after
tenant_is_dropped = (refl, refl)

t1-IsPlain : IsPlain t1
unfolding bytes
t1-IsPlain = omega arith

t2-IsPlain : IsPlain t2
unfolding bytes
t2-IsPlain = omega arith

ends_with-mem_key_example : ends_with (mem_key u1 t1) (bytes ":" ++ t2) ≡ (t1 == t2)
ends_with-mem_key_example = ends_with-mem_key u1 t1 t2 t1-IsPlain t2-IsPlain

memory_cache-promised_example :
    (c : InMemoryPermissionCache) × (apply_all memory_cache writes new_in_memory_permission_cache
      ≡ some c)
    × (read c u1 t2 ≡ promised_all writes nothing u1 t2)
memory_cache-promised_example =
    memory_cache-promised writes u1 t2 (t1-IsPlain, (t1-IsPlain, (t2-IsPlain, (t1-IsPlain, tt))))
      t2-IsPlain

colon_breaks_isolation_example :
    (read (Memory.invalidate_tenant t1 after).1 u1 (t2 ++ (bytes ":" ++ t1)) ≡ none)
    × (read
          (Memory.write_through (u1 ++ (bytes ":" ++ t2)) t1 (some view) after).1
          u1
          (t2 ++ (bytes ":" ++ t1))
        ≡ some view)
colon_breaks_isolation_example = colon_breaks_isolation after u1 t2 t1 (some view)
