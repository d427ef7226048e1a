-- ===== src/Redis.antt =====
-- helios_permissions/redis_cache.go: the cache that services share. The loggers' lines are left out.
pub mod Server
pub mod Keys
pub mod Scan
pub mod Laws
pub mod Refinement
pub mod Faithful
pub mod Coherence
pub mod Failures
use helios_permission_golang.Prelude.{
  ℕ, zero, suc, Str, Bool, if◌then◌else◌, Option, none, some, List, [], ◌∷◌, ◌++◌, ℤ, pos, negsuc,
  bytes, ◌==◌, nat_eq,
}
use helios_permission_golang.Errors.{Error, wrapped, redis_failed, Result, ok, panic}
use helios_permission_golang.Cache.{Slice, PermissionCache}
use helios_permission_golang.Duration.{seconds_to_duration}

-- What a call of go-redis or encoding/json returns: its error, or its value.
pub data Fallible (A : Type 0) : Type 0 where
  failed : Str → Fallible A
  done : A → Fallible A

-- `*redis.Client` with the server behind it, and encoding/json on `[]Permission`. A value of `get`
-- is absent for `redis.Nil`; `scan` takes a cursor, a pattern and a count.
pub record RedisClient : Type 1 where
  pub Server : Type 0
  pub get : Str → Server → Fallible (Option Str) × Server
  pub set_nx : Str → Str → ℤ → Server → Fallible Bool × Server
  pub set : Str → Str → ℤ → Server → Option Str × Server
  pub del : List Str → Server → Fallible ℕ × Server
  pub scan : ℕ → Str → ℕ → Server → Fallible (List Str × ℕ) × Server
  pub marshal : Slice → Fallible Str
  pub unmarshal : Str → Fallible Slice

pub record RedisPermissionCache : Type 1 where
  pub rdb : RedisClient
  pub ttl : ℤ
  pub key_prefix : Str

pub record RedisCacheOptions : Type 1 where
  pub client : Option RedisClient
  pub ttl_seconds : ℤ
  pub key_prefix : Str

-- `KeyPrefix`
abbrev pub default_key_prefix : Str
default_key_prefix = bytes "helios:perms:"

abbrev pub scan_batch_size : ℕ
scan_batch_size = 100

abbrev pub coerced_ttl : ℤ → ℤ
coerced_ttl (pos n) = pos n
coerced_ttl (negsuc n) = pos 0

abbrev pub prefix_or_default : Str → Str
prefix_or_default prefix = if prefix == [] then default_key_prefix else prefix

unfoldable pub with_client : RedisCacheOptions → Option RedisClient → Result RedisPermissionCache
with_client opts none = panic (bytes "helios_permissions: RedisCacheOptions.Client is required")
with_client opts (some client) = ok (record {
  rdb = client;
  ttl = coerced_ttl opts.ttl_seconds;
  key_prefix = prefix_or_default opts.key_prefix;
})

unfoldable pub new_redis_permission_cache : RedisCacheOptions → Result RedisPermissionCache
unfolding with_client
new_redis_permission_cache opts = with_client opts opts.client

-- The `err` of a call whose value is not used.
abbrev pub failure_of : {A : Type 0} → Fallible A → Option Error
failure_of (failed err) = some (redis_failed err)
failure_of (done x) = none

abbrev pub failure_text : Option Str → Option Error
failure_text none = none
failure_text (some err) = some (redis_failed err)

module _ (c : RedisPermissionCache) where
  abbrev pub Served : Type 0
  Served = c.rdb.Server

  unfoldable pub key : Str → Str → Str
  key user_id tenant_id = c.key_prefix ++ (user_id ++ (bytes ":" ++ tenant_id))

  unfoldable pub tenant_pattern : Str → Str
  tenant_pattern tenant_id = c.key_prefix ++ (bytes "*:" ++ tenant_id)

  abbrev pub parsed : Fallible Slice → Slice × Option Error
  parsed (failed err) = (none, none)
  parsed (done perms) = (perms, none)

  abbrev pub from_reply : Fallible (Option Str) → Slice × Option Error
  from_reply (failed err) = (none, none)
  from_reply (done none) = (none, none)
  from_reply (done (some raw)) = parsed (c.rdb.unmarshal raw)

  unfoldable pub get : Str → Str → Served → (Slice × Option Error) × Served
  get user_id tenant_id s =
      let (reply, s') = c.rdb.get (key user_id tenant_id) s in (from_reply reply, s')

  -- After `json.Marshal` in `Set`.
  abbrev pub set_payload : Str → Fallible Str → Served → Option Error × Served
  set_payload k (failed err) s = (some (wrapped (bytes "RedisPermissionCache.Set: marshal") err), s)
  set_payload k (done payload) s =
      let (reply, s') = c.rdb.set_nx k payload (seconds_to_duration c.ttl) s in
      (failure_of reply, s')

  unfoldable pub set : Str → Str → Slice → Served → Option Error × Served
  set user_id tenant_id perms s = set_payload (key user_id tenant_id) (c.rdb.marshal perms) s

  -- After `json.Marshal` in `WriteThrough`.
  abbrev pub write_payload : Str → Fallible Str → Served → Option Error × Served
  write_payload k (failed err) s =
      (some (wrapped (bytes "RedisPermissionCache.WriteThrough: marshal") err), s)
  write_payload k (done payload) s =
      let (reply, s') = c.rdb.set k payload (seconds_to_duration c.ttl) s in
      (failure_text reply, s')

  unfoldable pub write_through : Str → Str → Slice → Served → Option Error × Served
  write_through user_id tenant_id perms s =
      write_payload (key user_id tenant_id) (c.rdb.marshal perms) s

  unfoldable pub invalidate : Str → Str → Served → Option Error × Served
  invalidate user_id tenant_id s =
      let (reply, s') = c.rdb.del (key user_id tenant_id ∷ []) s in (failure_of reply, s')

  -- `if len(keys) > 0`
  abbrev pub delete_keys : List Str → Served → Fallible ℕ × Served
  delete_keys [] s = (done 0, s)
  delete_keys (k ∷ ks) s = c.rdb.del (k ∷ ks) s

  abbrev pub Outcome : Type 0
  Outcome = Option (Option Error × Served)

  abbrev pub after_del : (ℕ → Served → Outcome) → ℕ → Fallible ℕ → Served → Outcome
  after_del continue next (failed err) s = some (some (redis_failed err), s)
  after_del continue next (done n) s = if nat_eq next 0 then some (none, s) else continue next s

  abbrev pub after_page : (ℕ → Served → Outcome) → Fallible (List Str × ℕ) → Served → Outcome
  after_page continue (failed err) s = some (some (redis_failed err), s)
  after_page continue (done (keys, next)) s =
      let (deleted, s') = delete_keys keys s in after_del continue next deleted s'

  -- The loop over the pages of SCAN, on fuel; `none` when the fuel runs out.
  unfoldable pub scan_loop : ℕ → Str → ℕ → Served → Outcome
  scan_loop zero pattern cursor s = none
  scan_loop (suc fuel) pattern cursor s =
      let (page, s') = c.rdb.scan cursor pattern scan_batch_size s in
      after_page (λ next s''. scan_loop fuel pattern next s'') page s'

  unfoldable pub invalidate_tenant : ℕ → Str → Served → Outcome
  invalidate_tenant fuel tenant_id s = scan_loop fuel (tenant_pattern tenant_id) 0 s

  -- The cache behind the interface. A sweep that takes more than `pages` pages stands for one that
  -- does not return.
  abbrev pub redis_cache : ℕ → PermissionCache
  redis_cache pages = record {
    State = Served;
    get = get;
    set = set;
    write_through = write_through;
    invalidate = invalidate;
    invalidate_tenant = invalidate_tenant pages;
  }
