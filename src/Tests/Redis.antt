-- ===== src/Tests/Redis.antt =====
-- helios_permissions/redis_cache.go on the server of the tests.
use helios_permission_golang.Prelude.{
  if◌then◌else◌, Str, none, some, List, [], ◌∷◌, pos, negsuc, Table, bytes, ◌==◌, lookup, insert,
  delete, delete_where, contains, ◌≡◌, ◌↔◌, refl, arith,
}
use helios_permission_golang.Errors.{ok}
use helios_permission_golang.Permission
use helios_permission_golang.Permission.{Permission}
use helios_permission_golang.Duration.{seconds_to_duration}
use helios_permission_golang.Cache.Spec.{
  Op, set, write_through, invalidate_tenant, promised_all, apply_all,
}
use helios_permission_golang.Cache.Runs.{nothing}
use helios_permission_golang.Memory.{ends_with, new_in_memory_permission_cache}
use helios_permission_golang.Memory
use helios_permission_golang.Memory.Laws.{read}
use helios_permission_golang.Memory.Keys.{IsPlain}
use helios_permission_golang.Redis
use helios_permission_golang.Redis.{
  redis_cache, done, RedisPermissionCache, RedisCacheOptions, default_key_prefix,
  new_redis_permission_cache, key, tenant_pattern, scan_loop,
}
use helios_permission_golang.Redis.Server.{IsLiteral, AreAscii}
use helios_permission_golang.Redis.Laws.{invalidate_tenant-sweeps}
use helios_permission_golang.Redis.Refinement.{redis_cache-promised}
use helios_permission_golang.Redis.Failures.{get_iff, nil_write_sticks}
use helios_permission_golang.Tests.Server
use helios_permission_golang.Tests.Server.{server, server-IsServer, server-IsCodec, server_pages}

abbrev cache : RedisPermissionCache
cache = record { rdb = server; ttl = pos 0; key_prefix = default_key_prefix }

abbrev u1 : Str
u1 = bytes "u1"

abbrev t1 : Str
t1 = bytes "t1"

abbrev t2 : Str
t2 = bytes "t2"

abbrev view : List Permission
view = Permission.athens_project_view ∷ []

abbrev writes : List Op
writes =
    set u1 t1 (some view)
    ∷ write_through u1 t2 (some [])
    ∷ set u1 t2 (some view)
    ∷ invalidate_tenant t1
    ∷ []

code : Unit {0}
unfolding Redis.get Redis.set Redis.write_through Redis.invalidate_tenant scan_loop key
    tenant_pattern lookup insert delete delete_where contains bytes ◌==◌ seconds_to_duration
    ends_with Server.matches Server.matching Server.encode Server.encode_all Server.decode_all
code = tt

-- Two pages: the keys of the tenant go, the others stay.
sweep_takes_two_pages :
    Redis.invalidate_tenant cache 2 t1 ((key cache u1 t1, []) ∷ (key cache u1 t2, []) ∷ [])
    ≡ some (none, (key cache u1 t2, []) ∷ [])
unfolding code
sweep_takes_two_pages = refl

one_page_is_too_few : Redis.invalidate_tenant cache 1 t1 [] ≡ none
unfolding code
one_page_is_too_few = refl

prefix-IsLiteral : IsLiteral default_key_prefix
unfolding bytes
prefix-IsLiteral = omega arith

t1-IsLiteral : IsLiteral t1
unfolding bytes
t1-IsLiteral = omega arith

t1-IsPlain : IsPlain t1
unfolding bytes
t1-IsPlain = omega arith

t2-IsPlain : IsPlain t2
unfolding bytes
t2-IsPlain = omega arith

view-AreAscii : AreAscii view
unfolding bytes
view-AreAscii = omega arith

starts_empty : (k : Str) → server-IsServer.stored [] k ≡ none
unfolding lookup
starts_empty k = let answer = server-IsServer.get_reply k [] in cc

redis_cache-promised_example :
    (s : Table Str) × (apply_all (redis_cache cache 2) writes [] ≡ some s)
    × ((Redis.get cache u1 t2 s).0 ≡ (promised_all writes nothing u1 t2, none))
redis_cache-promised_example =
    redis_cache-promised cache server-IsServer server-IsCodec refl prefix-IsLiteral 2 server_pages
      writes [] u1 t2
      (
        (t1-IsPlain, view-AreAscii),
        ((t2-IsPlain, tt), ((t2-IsPlain, view-AreAscii), ((t1-IsPlain, t1-IsLiteral), tt))),
      )
      (λ v w q. starts_empty (key cache v w)) t2-IsPlain

invalidate_tenant-sweeps_example :
    (s' : Table Str) × (Redis.invalidate_tenant cache 2 t1 [] ≡ some (none, s'))
    × ((j : Str)
        → server-IsServer.stored s' j ≡ (
            if server-IsServer.matches (tenant_pattern cache t1) j
            then none
            else server-IsServer.stored [] j))
invalidate_tenant-sweeps_example =
    invalidate_tenant-sweeps cache server-IsServer 2 t1 [] (server_pages [])

get_iff_example :
    ((Redis.get cache u1 t1 []).0.1 ≡ none)
    × ((ps : List Permission)
        → ((Redis.get cache u1 t1 []).0.0 ≡ some ps) ↔ (
            (raw : Str) × ((server.get (key cache u1 t1) []).0 ≡ done (some raw))
            × (server.unmarshal raw ≡ done (some ps))))
get_iff_example = get_iff cache u1 t1 []

nil_write_sticks_example :
    ((Redis.get cache u1 t1 (Redis.write_through cache u1 t1 none []).1).0 ≡ (none, none))
    × ((Redis.get cache u1 t1
          (Redis.set cache u1 t1 (some view) (Redis.write_through cache u1 t1 none []).1).1).0
        ≡ (none, none))
    × (read (Memory.write_through u1 t1 none new_in_memory_permission_cache).1 u1 t1 ≡ some [])
nil_write_sticks_example =
    nil_write_sticks cache server-IsServer server-IsCodec refl u1 t1 view []
      new_in_memory_permission_cache view-AreAscii

abbrev negative_ttl : RedisCacheOptions
negative_ttl = record { client = some server; ttl_seconds = negsuc 59; key_prefix = [] }

made : new_redis_permission_cache negative_ttl ≡ ok cache
unfolding new_redis_permission_cache Redis.with_client ◌==◌
made = refl
