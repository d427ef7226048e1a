-- ===== src/Tests/Client.antt =====
-- Cases of helios_permissions_test/permission_client_test.go, over the in-memory cache.
use helios_permission_golang.Prelude.{
  Str, Bool, true, false, ◌||◌, Option, none, some, List, [], ◌∷◌, ◌++◌, ◌≡◌, refl, bytes, ◌==◌,
  contains, lookup, insert, delete,
}
use helios_permission_golang.Errors.{Error, unreachable, non_2xx}
use helios_permission_golang.Permission
use helios_permission_golang.Permission.{Permission}
use helios_permission_golang.Scope.{self_permissions, perm_scope, is_self_scope}
use helios_permission_golang.Roles.{
  is_universal_perm, role_has_permission, role_permissions, viewer_permissions, roles,
  every_role_has, owner_permissions, admin_permissions, editor_permissions,
}
use helios_permission_golang.Memory
use helios_permission_golang.Memory.{
  InMemoryPermissionCache, new_in_memory_permission_cache, memory_cache, mem_key,
}
use helios_permission_golang.Memory.Laws.{memory_cache-IsCoherent}
use helios_permission_golang.Helios.{Reply, read_limited, resolve, fetch_user_permissions}
use helios_permission_golang.Client
use helios_permission_golang.Client.{
  PermissionClient, Outside, populate, fetch_and_cache, caller_has_permission, get_user_permissions,
  explain,
}
use helios_permission_golang.Client.Fold.{fold_loop, fold_self_permissions}
use helios_permission_golang.Client.Fold.Laws.{AreDistinct, fold_self_permissions_lem}
use helios_permission_golang.Client.Reads.{
  over, verdict, listed, explain-caller_has_permission, get_user_permissions-caller_has_permission,
}
use helios_permission_golang.Client.Serving.{idle}
use helios_permission_golang.Client.Failures.{Decides, caller_has_permission-Decides}
use helios_permission_golang.Client.Freshness.{second_read_is_cached, write_through_is_read}
use helios_permission_golang.Tests.World
use helios_permission_golang.Tests.World.{network, client, reply, active_member}

abbrev u1 : Str
u1 = bytes "u1"

abbrev t1 : Str
t1 = bytes "t1"

code : Unit {0}
unfolding bytes ◌==◌ lookup insert delete contains resolve read_limited World.unmarshal World.send
    fetch_user_permissions role_has_permission role_permissions viewer_permissions is_universal_perm
    every_role_has roles self_permissions perm_scope is_self_scope owner_permissions
    admin_permissions editor_permissions caller_has_permission get_user_permissions explain
    fetch_and_cache fold_self_permissions fold_loop Memory.get Memory.set mem_key
    new_in_memory_permission_cache
code = tt

abbrev sdk : PermissionClient
sdk = record { cache = memory_cache; helios = client; stale_on_error = true }

abbrev billing : Permission
billing = Permission.zeta_billing_view

-- An empty cache, and the replies that Helios will give.
abbrev outside : List Reply → Outside network memory_cache
outside replies = record { cache = new_in_memory_permission_cache; world = replies }

abbrev once : Outside network memory_cache
once = outside (reply 200 (bytes "{active}") ∷ [])

-- The cache after the first read.
abbrev stored : Outside network memory_cache
stored = record { cache = record { store = (bytes "u1:t1", billing ∷ []) ∷ [] }; world = [] }

miss_then_hit :
    (caller_has_permission network sdk u1 t1 billing (idle sdk once)
      ≡ some ((true, none), idle sdk stored))
    × (caller_has_permission network sdk u1 t1 billing (idle sdk stored)
        ≡ some ((true, none), idle sdk stored))
unfolding code
miss_then_hit = (refl, refl)

helios_down :
    caller_has_permission network sdk u1 t1 billing
      (idle sdk (outside (reply 503 (bytes "x") ∷ [])))
    ≡ some ((false, some (unreachable 503 non_2xx (some (bytes "body=x")))), idle sdk (outside []))
unfolding code
helios_down = refl

billing-not_universal : is_universal_perm billing ≡ false
unfolding code
billing-not_universal = refl

first_read :
    fetch_and_cache network sdk u1 t1 (idle sdk once)
    ≡ some ((some (billing ∷ []), none), idle sdk stored)
unfolding code
first_read = refl

-- Helios does not know the user.
abbrev stranger : Outside network memory_cache
stranger = outside (reply 404 [] ∷ [])

stranger_read :
    fetch_and_cache network sdk u1 t1 (idle sdk stranger)
    ≡ some (
      (some [], none),
      idle sdk (record { cache = record { store = (bytes "u1:t1", []) ∷ [] }; world = [] }),
    )
unfolding code
stranger_read = refl

abbrev view : Permission
view = Permission.athens_project_view

fold_self_permissions_lem_example :
    ((rest : List Permission) × (fold_self_permissions (billing ∷ []) ≡ self_permissions ++ rest))
    × AreDistinct (fold_self_permissions (billing ∷ []))
    × ((x : Permission)
        → contains (fold_self_permissions (billing ∷ [])) x
          ≡ (contains self_permissions x || contains (billing ∷ []) x))
    × (fold_self_permissions (fold_self_permissions (billing ∷ []))
        ≡ fold_self_permissions (billing ∷ []))
fold_self_permissions_lem_example = fold_self_permissions_lem (billing ∷ [])

explain-caller_has_permission_example :
    over verdict (explain network sdk u1 t1 billing (idle sdk once))
    ≡ caller_has_permission network sdk u1 t1 billing (idle sdk once)
explain-caller_has_permission_example =
    explain-caller_has_permission network sdk u1 t1 billing (idle sdk once)

get_user_permissions-caller_has_permission_example :
    over (listed billing) (get_user_permissions network sdk u1 t1 (idle sdk once))
    ≡ caller_has_permission network sdk u1 t1 billing (idle sdk once)
get_user_permissions-caller_has_permission_example =
    get_user_permissions-caller_has_permission network sdk u1 t1 billing (idle sdk once)
      billing-not_universal

caller_has_permission-Decides_example :
    (r : Bool × Option Error) × (o : Outside network memory_cache) × (caller_has_permission network
        sdk u1 t1 billing
        (idle sdk once)
      ≡ some (r, idle sdk o))
    × Decides sdk u1 t1 billing once r o
caller_has_permission-Decides_example = caller_has_permission-Decides sdk u1 t1 billing once

second_read_is_cached_example :
    (o : Outside network memory_cache) × (fetch_and_cache network sdk u1 t1 (idle sdk stored)
      ≡ some ((some (billing ∷ []), none), idle sdk o))
    × (◌≡◌ {A = List Reply} o.world [])
second_read_is_cached_example =
    second_read_is_cached sdk memory_cache-IsCoherent u1 t1 once stored (billing ∷ []) tt tt
      first_read

write_through_is_read_example :
    (o : Outside network memory_cache) × (fetch_and_cache network sdk u1 t1
        (Client.write_through network sdk u1 t1 (some (view ∷ [])) (idle sdk stored)).1
      ≡ some ((some (view ∷ []), none), idle sdk o))
    × (◌≡◌ {A = List Reply} o.world [])
write_through_is_read_example =
    write_through_is_read sdk memory_cache-IsCoherent u1 t1 stored (some (view ∷ [])) tt
