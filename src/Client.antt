-- ===== src/Client.antt =====
-- helios_permissions/permission_client.go: the facade that reads the cache first.
pub mod Answers
pub mod Fold
pub mod InFlight
pub mod Coalescing
pub mod Interleaving
pub mod Reads
pub mod Requests
pub mod Serving
pub mod Sources
pub mod Failures
pub mod Freshness
use helios_permission_golang.Prelude.{
  Str, Bool, true, false, not, if◌then◌else◌, Option, none, some, List, [], ◌∷◌, ◌++◌, bytes, ◌==◌,
  contains, ◌>>=◌,
}
use helios_permission_golang.Errors.{Error, message, Result, ok, err}
use helios_permission_golang.Permission.{Permission}
use helios_permission_golang.Roles.{Role, is_universal_perm}
use helios_permission_golang.Cache.{Slice, elements, PermissionCache}
use helios_permission_golang.Helios.{
  Env, HeliosClient, MembershipResolution, fetch_user_permissions,
}
use Answers.{Explanation, has, folded, explained, granted}
use Fold.{fold_self_permissions}
use InFlight.{Waiter, get_or_start}

pub record ClientOptions : Type 1 where
  pub cache : Option PermissionCache
  pub helios : Option HeliosClient
  pub stale_on_error : Option Bool

pub record PermissionClient : Type 1 where
  pub cache : PermissionCache
  pub helios : HeliosClient
  pub stale_on_error : Bool

unfoldable pub stale_or_default : Option Bool → Bool
stale_or_default none = true
stale_or_default (some b) = b

unfoldable pub with_cache :
    ClientOptions → Option PermissionCache → Option HeliosClient → Result PermissionClient
unfolding stale_or_default
with_cache opts none helios =
    err (message (bytes "helios_permissions: ClientOptions.Cache is required"))
with_cache opts (some cache) none =
    err (message (bytes "helios_permissions: ClientOptions.Helios is required"))
with_cache opts (some cache) (some helios) = ok (record {
  cache = cache;
  helios = helios;
  stale_on_error = stale_or_default opts.stale_on_error;
})

unfoldable pub new_client : ClientOptions → Result PermissionClient
unfolding with_cache
new_client opts = with_cache opts opts.cache opts.helios

-- What the calls change: the cache and the network.
pub record Outside (E : Env) (C : PermissionCache) : Type 0 where
  pub cache : C.State
  pub world : E.World

-- The state with the map of `inFlight`.
pub record State (E : Env) (C : PermissionCache) : Type 0 where
  pub outside : Outside E C
  pub waiter : Waiter

module _ (E : Env) (c : PermissionClient) where
  -- After a resolution: `res == nil || res.Status != "active"`, or the permissions.
  unfoldable pub populate :
      Str
      → Str
      → Option MembershipResolution
      → Outside E c.cache
      → (Slice × Option Error) × Outside E c.cache
  populate user_id tenant_id none s =
      let (_, cache) = c.cache.set user_id tenant_id (some []) s.cache in
      ((some [], none), record s { cache = cache })
  populate user_id tenant_id (some res) s =
      if not (res.status == bytes "active")
      then (let (_, cache) = c.cache.set user_id tenant_id (some []) s.cache in
          ((some [], none), record s { cache = cache }))
      else (let perms = some (elements res.permissions) in
          let (_, cache) = c.cache.set user_id tenant_id perms s.cache in
          ((perms, none), record s { cache = cache }))

  -- The error check after the fetch.
  unfoldable pub after_fetch :
      Str
      → Str
      → Option MembershipResolution × Option Error
      → Outside E c.cache
      → (Slice × Option Error) × Outside E c.cache
  unfolding populate
  after_fetch user_id tenant_id (res, some e) s = ((none, some e), s)
  after_fetch user_id tenant_id (res, none) s = populate user_id tenant_id res s

  unfoldable pub fetch_and_populate :
      Str → Str → Outside E c.cache → (Slice × Option Error) × Outside E c.cache
  unfolding after_fetch
  fetch_and_populate user_id tenant_id s =
      let (fetched, world) = fetch_user_permissions E c.helios user_id tenant_id s.world in
      after_fetch user_id tenant_id fetched (record s { world = world })

  -- The value of a call and the state after it; `none` for a call that does not return.
  abbrev pub Call : Type 0 → Type 0
  Call A = Option (A × State E c.cache)

  unfoldable pub on_miss : Str → Str → Slice → State E c.cache → Call (Slice × Option Error)
  unfolding fetch_and_populate get_or_start
  on_miss user_id tenant_id (some ps) s = some ((some ps, none), s)
  on_miss user_id tenant_id none s = do
    (result, waiter, outside) ←
        get_or_start (user_id ++ (bytes ":" ++ tenant_id)) (fetch_and_populate user_id tenant_id)
          s.waiter s.outside
    some (result, record { outside = outside; waiter = waiter })

  -- The error of `cache.Get` is logged and dropped.
  unfoldable pub fetch_and_cache : Str → Str → State E c.cache → Call (Slice × Option Error)
  unfolding on_miss
  fetch_and_cache user_id tenant_id s =
      let ((cached, _), cache) = c.cache.get user_id tenant_id s.outside.cache in
      on_miss user_id tenant_id cached (record s { outside = record s.outside { cache = cache } })

  unfoldable pub caller_has_permission :
      Str → Str → Permission → State E c.cache → Call (Bool × Option Error)
  unfolding has
  caller_has_permission user_id tenant_id perm s =
      if is_universal_perm perm
      then some ((true, none), s)
      else (do (result, s') ← fetch_and_cache user_id tenant_id s; some (has perm result, s'))

  unfoldable pub get_user_permissions : Str → Str → State E c.cache → Call (Slice × Option Error)
  unfolding folded
  get_user_permissions user_id tenant_id s = do
    (result, s') ← fetch_and_cache user_id tenant_id s
    some (folded result, s')

  unfoldable pub explain :
      Str → Str → Permission → State E c.cache → Call (Option Explanation × Option Error)
  unfolding explained
  explain user_id tenant_id perm s =
      if is_universal_perm perm
      then some ((some (granted (fold_self_permissions [])), none), s)
      else (do (result, s') ← fetch_and_cache user_id tenant_id s; some (explained perm result, s'))

  -- A method that only passes its call on to the cache.
  abbrev on_cache :
      (c.cache.State → Option Error × c.cache.State)
      → State E c.cache
      → Option Error × State E c.cache
  on_cache method s =
      let (failure, cache) = method s.outside.cache in
      (failure, record s { outside = record s.outside { cache = cache } })

  unfoldable pub invalidate : Str → Str → State E c.cache → Option Error × State E c.cache
  invalidate user_id tenant_id = on_cache (c.cache.invalidate user_id tenant_id)

  unfoldable pub invalidate_tenant : Str → State E c.cache → Call (Option Error)
  invalidate_tenant tenant_id s = do
    (failure, cache) ← c.cache.invalidate_tenant tenant_id s.outside.cache
    some (failure, record s { outside = record s.outside { cache = cache } })

  unfoldable pub write_through :
      Str → Str → Slice → State E c.cache → Option Error × State E c.cache
  write_through user_id tenant_id perms = on_cache (c.cache.write_through user_id tenant_id perms)
