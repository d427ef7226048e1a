-- ===== src/Redis/Coherence.antt =====
-- helios_permissions/redis_cache.go: the contract that the client relies on, over a server that
-- answers and without expiry.
use helios_permission_golang.Prelude.{
  ℕ, ◌<◌, Str, Option, none, some, ◌≡◌, sym, ap, ◌∙◌, refl, pos, ==-self,
}
use helios_permission_golang.Errors.{Error}
use helios_permission_golang.Cache.{Slice, elements}
use helios_permission_golang.Cache.Spec.{set_if_absent}
use helios_permission_golang.Cache.Contract.{IsCoherent}
use helios_permission_golang.Memory.Keys.{IsPlain}
use helios_permission_golang.Redis
use helios_permission_golang.Redis.{
  done, RedisPermissionCache, Served, redis_cache, invalidate_tenant, key, from_reply,
}
use helios_permission_golang.Redis.Server.{IsServer, IsCodec, IsLiteral}
use helios_permission_golang.Redis.Keys.{matches-key}
use helios_permission_golang.Redis.Laws.{
  held, get-held, stored_get, stored_set, stored_write_through, stored_invalidate,
  invalidate_tenant-sweeps,
}
use helios_permission_golang.Redis.Refinement.{IsKept, Fits, Fits-read, encoded-Fits, kept-Fits}

module _ (c : RedisPermissionCache) (h : IsServer c.rdb) (d : IsCodec c.rdb) where
  -- What the cache holds for the pair can be read.
  abbrev pub IsReadable : Served c → Str → Str → Type 0
  IsReadable s u t = (slice : Slice) × Fits c h d (held c h s u t) slice

  abbrev shown : Option Str → Slice
  shown o = (from_reply c (done o)).0

  Fits-shown : (o : Option Str) (slice : Slice) → Fits c h d o slice → shown o ≡ slice
  Fits-shown o slice fits = ap (λ r. r.0) (Fits-read c h d o slice fits)

  module _ (persists : c.ttl ≡ pos 0) where
    set-shown :
        (u t : Str) (perms : Slice) (s : Served c)
        → IsKept perms
        → IsReadable s u t
        → shown (held c h (Redis.set c u t perms s).1 u t)
          ≡ set_if_absent (shown (held c h s u t)) perms
    set-shown u t none s kept readable = absurd kept
    set-shown u t (some ps) s ascii (slice, fits) =
        rw (stored_set c h d persists u t (key c u t) ps ascii s, ==-self)
          (Fits-shown _ _ (kept-Fits c h d persists _ slice ps ascii fits)
            ∙ ap (λ x. set_if_absent x (some ps)) (sym (Fits-shown _ slice fits)))

    write_through-readable :
        (u t : Str) (perms : Slice) (s : Served c)
        → IsKept perms
        → Fits c h d (held c h (Redis.write_through c u t perms s).1 u t) (some (elements perms))
    write_through-readable u t none s kept = absurd kept
    write_through-readable u t (some ps) s ascii =
        rw (stored_write_through c h d persists u t (key c u t) ps ascii s, ==-self)
          (encoded-Fits c h d persists ps ascii)

    held_invalidate : (u t : Str) (s : Served c) → held c h (Redis.invalidate c u t s).1 u t ≡ none
    held_invalidate u t s = rw (stored_invalidate c h u t (key c u t) s, ==-self)

    held_invalidate_tenant :
        (pages : ℕ) (u t : Str) (s : Served c)
        → IsLiteral c.key_prefix
        → IsPlain t
        → IsLiteral t
        → ((s : Served c) → h.remaining s 0 < pages)
        → (r : Option Error × Served c) × (invalidate_tenant c pages t s ≡ some r)
          × (shown (held c h r.1 u t) ≡ none)
    held_invalidate_tenant pages u t s l p m bounded =
        let (s', ends, swept) = invalidate_tenant-sweeps c h pages t s (bounded s) in
        (
          (none, s'),
          ends,
          ap shown {y = none} (rw (swept (key c u t), matches-key c h u t t p p l m, ==-self) refl),
        )

    -- Over a server that answers, whose scans take fewer than `pages` pages, without expiry and
    -- with a prefix that a pattern reads literally, the Redis cache keeps the contract of the
    -- client: for slices that are not nil and in ASCII, for plain tenants that a pattern reads
    -- literally, and for states in which what the key of the pair holds decodes to a list.
    pub redis_cache-IsCoherent :
        (pages : ℕ)
        → IsLiteral c.key_prefix
        → ((s : Served c) → h.remaining s 0 < pages)
        → IsCoherent (redis_cache c pages)
    redis_cache-IsCoherent pages l bounded = record {
      Keeps = IsKept;
      Sweeps = λ t. IsPlain t × IsLiteral t;
      IsSound = IsReadable;
      peek = λ s u t. shown (held c h s u t);
      get_peek = λ u t s. ap (λ r. r.0) (get-held c h u t s);
      peek_get = λ u t s. ap shown (stored_get c h u t (key c u t) s);
      sound_get = λ u t s readable. rw (stored_get c h u t (key c u t) s) readable;
      peek_set = set-shown;
      peek_write_through =
          λ u t perms s kept. Fits-shown _ _ (write_through-readable u t perms s kept);
      sound_write_through =
          λ u t perms s kept. (some (elements perms), write_through-readable u t perms s kept);
      peek_invalidate = λ u t s. ap shown (held_invalidate u t s);
      sound_invalidate = λ u t s. (none, held_invalidate u t s);
      peek_invalidate_tenant = λ u t s (p, m). held_invalidate_tenant pages u t s l p m bounded;
    }
