-- ===== src/Redis/Failures.antt =====
-- helios_permissions/redis_cache.go: what the methods return over any server, and what a nil slice
-- does.
use helios_permission_golang.Prelude.{
  Str, Option, none, some, List, [], ◌∷◌, ℤ, ℕ, negsuc, bytes, ◌≡◌, ◌≢◌, ◌↔◌, refl, ap, ◌∙◌, pos,
  ◌==◌, ==-self,
}
use helios_permission_golang.Errors.{ok}
use helios_permission_golang.Permission.{Permission}
use helios_permission_golang.Memory
use helios_permission_golang.Memory.Laws.{read, read-write_through}
use helios_permission_golang.Redis.{
  Fallible, failed, done, RedisClient, RedisPermissionCache, RedisCacheOptions, Served, key,
  from_reply, parsed, get, set, write_through, new_redis_permission_cache, with_client, coerced_ttl,
  prefix_or_default,
}
use mathlib.Core.Path.{subst}
use helios_permission_golang.Redis.Server.{IsServer, IsCodec, AreAscii}
use helios_permission_golang.Redis.Laws.{held, get-held, persistent, stored_set}

coerced_ttl-pos : (n : ℤ) → (k : ℕ) × (coerced_ttl n ≡ pos k)
coerced_ttl-pos (pos n) = (n, refl)
coerced_ttl-pos (negsuc n) = (0, refl)

prefix_or_default-filled : (prefix : Str) → prefix_or_default prefix ≢ []
prefix_or_default-filled [] e = unfold bytes ◌==◌ in cc
prefix_or_default-filled (x ∷ prefix) e = unfold ◌==◌ in cc

with_client-valid :
    (opts : RedisCacheOptions) (client : Option RedisClient) (c : RedisPermissionCache)
    → with_client opts client ≡ ok c
    → (client ≡ some c.rdb) × (c.key_prefix ≢ []) × ((n : ℕ) × (c.ttl ≡ pos n))
unfolding with_client
with_client-valid opts none c e = cc
with_client-valid opts (some client) c e =
    let made : RedisPermissionCache = record {
      rdb = client;
      ttl = coerced_ttl opts.ttl_seconds;
      key_prefix = prefix_or_default opts.key_prefix;
    } in
    let same : made ≡ c = cc in
    subst
      (λ (c : RedisPermissionCache).
        (some client ≡ some c.rdb) × (c.key_prefix ≢ []) × ((n : ℕ) × (c.ttl ≡ pos n)))
      same (refl, prefix_or_default-filled opts.key_prefix, coerced_ttl-pos opts.ttl_seconds)

-- A cache that NewRedisPermissionCache returns uses the client of the options, which is not nil,
-- and has a prefix that is not empty and a TTL that is not negative.
pub new_redis_permission_cache-valid :
    (opts : RedisCacheOptions) (c : RedisPermissionCache)
    → new_redis_permission_cache opts ≡ ok c
    → (opts.client ≡ some c.rdb) × (c.key_prefix ≢ []) × ((n : ℕ) × (c.ttl ≡ pos n))
unfolding new_redis_permission_cache
new_redis_permission_cache-valid opts c e = with_client-valid opts opts.client c e

module _ (c : RedisPermissionCache) where
  from_reply-cases :
      (reply : Fallible (Option Str)) (ps : List Permission)
      → (from_reply c reply).0 ≡ some ps
      → (raw : Str) × (reply ≡ done (some raw)) × (c.rdb.unmarshal raw ≡ done (some ps))
  from_reply-cases (failed err) ps e = cc
  from_reply-cases (done none) ps e = cc
  from_reply-cases (done (some raw)) ps e = (raw, refl, decoded_list (c.rdb.unmarshal raw) e)
    where
      decoded_list :
          (r : Fallible (Option (List Permission))) → (parsed c r).0 ≡ some ps → r ≡ done (some ps)
      decoded_list (failed err) e = cc
      decoded_list (done perms) e = ap done e

  no_error : (reply : Fallible (Option Str)) → (from_reply c reply).1 ≡ none
  no_error (failed err) = refl
  no_error (done none) = refl
  no_error (done (some raw)) = go (c.rdb.unmarshal raw)
    where
      go : (r : Fallible (Option (List Permission))) → (parsed c r).1 ≡ none
      go (failed err) = refl
      go (done perms) = refl

  -- Whatever the server and the decoder do, `Get` returns no error, and it returns a list exactly
  -- when the server answers with a text that decodes to that list; all else is a miss.
  pub get_iff :
      (u t : Str) (s : Served c)
      → ((get c u t s).0.1 ≡ none)
        × ((ps : List Permission)
            → ((get c u t s).0.0 ≡ some ps) ↔ (
                (raw : Str) × ((c.rdb.get (key c u t) s).0 ≡ done (some raw))
                × (c.rdb.unmarshal raw ≡ done (some ps))))
  unfolding get
  get_iff u t s = (
    no_error (c.rdb.get (key c u t) s).0,
    λ ps. (
      from_reply-cases (c.rdb.get (key c u t) s).0 ps,
      λ (raw, answer, decodes). rw answer (rw decodes refl),
    ),
  )

  module _ (h : IsServer c.rdb) (d : IsCodec c.rdb) (persists : c.ttl ≡ pos 0) where
    held_nil :
        (u t : Str) (s : Served c)
        → held c h (write_through c u t none s).1 u t ≡ some d.nil_round_trip.0
    unfolding write_through
    held_nil u t s =
        rw (d.nil_round_trip.1, persistent c h d persists)
          (h.stored_set (key c u t) d.nil_round_trip.0 (key c u t) s
            ∙ rw (==-self (key c u t)) refl)

    -- SET NX finds the key taken.
    held_nil_set :
        (u t : Str) (ps : List Permission) (s : Served c)
        → AreAscii ps
        → held c h (set c u t (some ps) (write_through c u t none s).1).1 u t
          ≡ some d.nil_round_trip.0
    held_nil_set u t ps s ascii =
        stored_set c h d persists u t (key c u t) ps ascii (write_through c u t none s).1
        ∙ rw (==-self (key c u t), held_nil u t s) refl

    -- Over a server that answers and without expiry: after WriteThrough of a nil slice the pair is
    -- missed, and it is missed again after Set of any list, since the key is taken. In the
    -- in-memory cache the same write is read as the empty list.
    pub nil_write_sticks :
        (u t : Str) (ps : List Permission) (s : Served c) (m : Memory.InMemoryPermissionCache)
        → AreAscii ps
        → ((get c u t (write_through c u t none s).1).0 ≡ (none, none))
          × ((get c u t (set c u t (some ps) (write_through c u t none s).1).1).0 ≡ (none, none))
          × (read (Memory.write_through u t none m).1 u t ≡ some [])
    nil_write_sticks u t ps s m ascii =
        let written = (write_through c u t none s).1 in
        let missed =
          ap (λ o. from_reply c (done o)) (held_nil u t s) ∙ rw d.nil_round_trip.2 refl in
        (
          get-held c h u t written ∙ missed,
          get-held c h u t (set c u t (some ps) written).1
              ∙ ap (λ o. from_reply c (done o)) (held_nil_set u t ps s ascii)
              ∙ rw d.nil_round_trip.2 refl,
          rw (read-write_through, ==-self),
        )
