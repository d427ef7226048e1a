-- ===== src/Redis/Faithful.antt =====
-- helios_permissions/redis_cache.go: the cache as one that keeps the promise of the interface, over a
-- server that answers and without expiry.
use helios_permission_golang.Prelude.{ℕ, ◌<◌, ◌≡◌, ap, ◌∙◌, pos}
use helios_permission_golang.Cache.Faithful.{IsFaithful}
use helios_permission_golang.Redis.{RedisPermissionCache, Served, redis_cache, key}
use helios_permission_golang.Redis.Server.{IsServer, IsCodec, IsLiteral}
use helios_permission_golang.Redis.Laws.{get-held, stored_get}
use helios_permission_golang.Redis.Refinement.{IsFine, Shows, Fits-read, apply-Shows}

module _ (c : RedisPermissionCache) (h : IsServer c.rdb) (d : IsCodec c.rdb)
    (persists : c.ttl ≡ pos 0) (l : IsLiteral c.key_prefix) (pages : ℕ)
    (bounded : (s : Served c) → h.remaining s 0 < pages) where
  abbrev pub redis_faithful : IsFaithful (redis_cache c pages)
  redis_faithful = record {
    IsFine = IsFine c h d;
    Shows = Shows c h d;
    get_view = λ u t s view p shows.
        ap (λ r. r.0) (get-held c h u t s ∙ Fits-read c h d _ _ (shows u t p));
    get_shows = λ u t s view shows v w q. rw (stored_get c h u t (key c v w) s) (shows v w q);
    apply_shows = apply-Shows c h d persists l pages bounded;
  }
