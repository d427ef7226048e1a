-- ===== src/Redis/Laws.antt =====
-- helios_permissions/redis_cache.go: the cache behind the interface, over a server that answers and
-- without expiry, and what a key holds after each method.
use helios_permission_golang.Prelude.{
  ℕ, ◌<◌, inl, inr, Bool-cases, Str, if◌then◌else◌, Option, none, some, List, [], ◌≡◌, refl, ap,
  ◌∙◌, arith, pos, ◌==◌, contains,
}
use helios_permission_golang.Permission.{Permission}
use helios_permission_golang.Duration.{seconds_to_duration}
use helios_permission_golang.Redis.{
  done, RedisPermissionCache, Served, key, tenant_pattern, from_reply, get, set, write_through,
  invalidate, invalidate_tenant,
}
use helios_permission_golang.Redis.Server.{IsServer, kept, IsCodec, AreAscii}
use helios_permission_golang.Redis.Scan.{Swept, scan_loop-Swept}

module _ (c : RedisPermissionCache) (h : IsServer c.rdb) where
  open h use {stored, remaining}

  -- An iteration from the start has every key to return.
  full_sweep :
      (t : Str) (s s' : Served c)
      → Swept c h (tenant_pattern c t) 0 s s'
      → (j : Str) → stored s' j ≡ (if h.matches (tenant_pattern c t) j then none else stored s j)
  full_sweep t s s' swept j = elim (Bool-cases (h.matches (tenant_pattern c t) j)) [
    | inl match ↦ rw match ((swept j).2 match (h.due_at_start s j))
    | inr other ↦ rw other ((swept j).0 other)
  ]

  -- Over a server that answers, with fuel for more pages than the iteration's bound, the loop of
  -- InvalidateTenant ends without error; it leaves no key that the tenant's pattern matches, and
  -- leaves every other key as it was.
  pub invalidate_tenant-sweeps :
      (pages : ℕ) (t : Str) (s : Served c)
      → remaining s 0 < pages
      → (s' : Served c) × (invalidate_tenant c pages t s ≡ some (none, s'))
        × ((j : Str)
            → stored s' j ≡ (if h.matches (tenant_pattern c t) j then none else stored s j))
  unfolding invalidate_tenant
  invalidate_tenant-sweeps pages t s enough =
      let (s', ends, swept) = scan_loop-Swept c h (tenant_pattern c t) pages 0 s enough in
      (s', ends, full_sweep t s s' swept)

  -- The value at the key of a pair.
  abbrev pub held : Served c → Str → Str → Option Str
  held s u t = stored s (key c u t)

  pub stored_get : (u t j : Str) (s : Served c) → stored (get c u t s).1 j ≡ stored s j
  unfolding get
  stored_get u t j s = h.stored_get (key c u t) j s

  -- The slice that `Get` returns.
  pub get-held : (u t : Str) (s : Served c) → (get c u t s).0 ≡ from_reply c (done (held s u t))
  unfolding get
  get-held u t s = ap (from_reply c) (h.get_reply (key c u t) s)

  pub stored_invalidate :
      (u t j : Str) (s : Served c)
      → stored (invalidate c u t s).1 j ≡ (if key c u t == j then none else stored s j)
  unfolding invalidate
  stored_invalidate u t j s = h.stored_del (key c u t) [] j s ∙ unfold contains in ground arith

  module _ (d : IsCodec c.rdb) (persists : c.ttl ≡ pos 0) where
    pub persistent : seconds_to_duration c.ttl ≡ pos 0
    persistent = ap seconds_to_duration persists ∙ unfold seconds_to_duration in refl

    -- The text that a list of permissions is stored as.
    abbrev pub encoded : (ps : List Permission) → AreAscii ps → Str
    encoded ps ascii = (d.round_trip ps ascii).0

    pub stored_set :
        (u t j : Str) (ps : List Permission) (ascii : AreAscii ps) (s : Served c)
        → stored (set c u t (some ps) s).1 j
          ≡ (if key c u t == j then some (kept (stored s j) (encoded ps ascii)) else stored s j)
    unfolding set
    stored_set u t j ps ascii s =
        rw ((d.round_trip ps ascii).1, persistent)
          (h.stored_set_nx (key c u t) (encoded ps ascii) j s)

    pub stored_write_through :
        (u t j : Str) (ps : List Permission) (ascii : AreAscii ps) (s : Served c)
        → stored (write_through c u t (some ps) s).1 j
          ≡ (if key c u t == j then some (encoded ps ascii) else stored s j)
    unfolding write_through
    stored_write_through u t j ps ascii s =
        rw ((d.round_trip ps ascii).1, persistent) (h.stored_set (key c u t) (encoded ps ascii) j s)
