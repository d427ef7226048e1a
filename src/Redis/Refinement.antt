-- ===== src/Redis/Refinement.antt =====
-- helios_permissions/redis_cache.go against the interface's promise, over a server that answers and
-- without expiry.
use helios_permission_golang.Prelude.{
  ℕ, ◌<◌, Bool, Str, ◌&&◌, true, false, if◌then◌else◌, Option, none, some, List, ◌≡◌, refl, ◌∙◌,
  pos, ◌==◌,
}
use helios_permission_golang.Permission.{Permission}
use helios_permission_golang.Cache.{Slice}
use helios_permission_golang.Cache.Spec.{
  View, Op, set, write_through, invalidate, invalidate_tenant, set_if_absent, promised,
  promised_all, apply, apply_all,
}
use helios_permission_golang.Cache.Runs.{nothing, All, apply_all-Shows}
use helios_permission_golang.Memory.Keys.{IsPlain}
use helios_permission_golang.Redis
use helios_permission_golang.Redis.{
  Fallible, done, RedisPermissionCache, Served, redis_cache, key, from_reply,
}
use helios_permission_golang.Redis.Server.{IsServer, IsCodec, IsLiteral, AreAscii, kept}
use helios_permission_golang.Redis.Keys.{key-eq, matches-key}
use helios_permission_golang.Redis.Laws.{
  held, get-held, stored_set, stored_write_through, stored_invalidate, invalidate_tenant-sweeps,
  encoded,
}

-- The slices that come back as they were written: not nil, and in ASCII.
abbrev pub IsKept : Slice → Type 0
IsKept none = ⊥
IsKept (some ps) = AreAscii ps

module _ (c : RedisPermissionCache) (h : IsServer c.rdb) (d : IsCodec c.rdb) where
  open h use {stored}

  -- A key holds what a slice of the view says: nothing for nil, or a text that decodes to it.
  abbrev pub Fits : Option Str → Slice → Type 0
  Fits o none = o ≡ none
  Fits o (some ps) = (raw : Str) × (o ≡ some raw) × (c.rdb.unmarshal raw ≡ done (some ps))

  pub Fits-read :
      (o : Option Str) (slice : Slice) → Fits o slice → from_reply c (done o) ≡ (slice, none)
  Fits-read o none e = rw e refl
  Fits-read o (some ps) (raw, e, decodes) = rw e (rw decodes refl)

  -- The tenants of a call are plain and a pattern reads them literally; its slice is kept.
  abbrev pub IsFine : Op → Type 0
  IsFine (set u t perms) = IsPlain t × IsKept perms
  IsFine (write_through u t perms) = IsPlain t × IsKept perms
  IsFine (invalidate u t) = IsPlain t
  IsFine (invalidate_tenant t) = IsPlain t × IsLiteral t

  abbrev pub Shows : Served c → View → Type 0
  Shows s view = (v w : Str) → IsPlain w → Fits (held c h s v w) (view v w)

  if-Fits :
      (b : Bool) (o o' : Option Str) (slice slice' : Slice)
      → Fits o slice
      → Fits o' slice'
      → Fits (if b then o else o') (if b then slice else slice')
  if-Fits true o o' slice slice' fits fits' = fits
  if-Fits false o o' slice slice' fits fits' = fits'

  module _ (persists : c.ttl ≡ pos 0) where
    pub encoded-Fits :
        (ps : List Permission) (ascii : AreAscii ps)
        → Fits (some (encoded c h d persists ps ascii)) (some ps)
    encoded-Fits ps ascii = (encoded c h d persists ps ascii, refl, (d.round_trip ps ascii).2)

    pub kept-Fits :
        (o : Option Str) (slice : Slice) (ps : List Permission) (ascii : AreAscii ps)
        → Fits o slice
        → Fits (some (kept o (encoded c h d persists ps ascii))) (set_if_absent slice (some ps))
    kept-Fits o none ps ascii e = rw e (encoded-Fits ps ascii)
    kept-Fits o (some qs) ps ascii (raw, e, decodes) = rw e (raw, refl, decodes)

    module _ (s : Served c) (view : View) (shows : Shows s view) (u v t w : Str)
        (q : IsPlain w) where
      set-Fits :
          (ps : List Permission) (ascii : AreAscii ps)
          → IsPlain t
          → Fits
              (held c h (Redis.set c u t (some ps) s).1 v w)
              (promised (set u t (some ps)) view v w)
      unfolding promised
      set-Fits ps ascii p =
          rw (stored_set c h d persists u t (key c v w) ps ascii s, key-eq c u v t w p q)
            (if-Fits _ _ _ _ _ (kept-Fits _ _ ps ascii (shows v w q)) (shows v w q))

      write_through-Fits :
          (ps : List Permission) (ascii : AreAscii ps)
          → IsPlain t
          → Fits
              (held c h (Redis.write_through c u t (some ps) s).1 v w)
              (promised (write_through u t (some ps)) view v w)
      unfolding promised
      write_through-Fits ps ascii p =
          rw (stored_write_through c h d persists u t (key c v w) ps ascii s, key-eq c u v t w p q)
            (if-Fits (u == v && t == w) (some (encoded c h d persists ps ascii)) _ (some ps) _
              (encoded-Fits ps ascii) (shows v w q))

      invalidate-Fits :
          IsPlain t
          → Fits (held c h (Redis.invalidate c u t s).1 v w) (promised (invalidate u t) view v w)
      unfolding promised
      invalidate-Fits p =
          rw (stored_invalidate c h u t (key c v w) s, key-eq c u v t w p q)
            (if-Fits _ none _ none _ refl (shows v w q))

      invalidate_tenant-Fits :
          IsLiteral c.key_prefix
          → IsPlain t
          → IsLiteral t
          → (pages : ℕ) (enough : h.remaining s 0 < pages)
          → Fits
              (held c h (invalidate_tenant-sweeps c h pages t s enough).0 v w)
              (promised (invalidate_tenant t) view v w)
      unfolding promised
      invalidate_tenant-Fits l p m pages enough =
          rw
            (
              (invalidate_tenant-sweeps c h pages t s enough).2 (key c v w),
              matches-key c h v w t q p l m,
            )
            (if-Fits (w == t) none _ none _ refl (shows v w q))

    module _ (l : IsLiteral c.key_prefix) (pages : ℕ)
        (bounded : (s : Served c) → h.remaining s 0 < pages) where
      pub apply-Shows :
          (op : Op) (s : Served c) (view : View)
          → IsFine op
          → Shows s view
          → (s' : Served c) × (apply (redis_cache c pages) op s ≡ some s')
            × Shows s' (promised op view)
      unfolding apply
      apply-Shows (set u t none) s view (p, kept) shows = absurd kept
      apply-Shows (set u t (some ps)) s view (p, ascii) shows =
          (_, refl, λ v w q. set-Fits s view shows u v t w q ps ascii p)
      apply-Shows (write_through u t none) s view (p, kept) shows = absurd kept
      apply-Shows (write_through u t (some ps)) s view (p, ascii) shows =
          (_, refl, λ v w q. write_through-Fits s view shows u v t w q ps ascii p)
      apply-Shows (invalidate u t) s view p shows =
          (_, refl, λ v w q. invalidate-Fits s view shows u v t w q p)
      apply-Shows (invalidate_tenant t) s view (p, m) shows =
          let (s', ends, swept) = invalidate_tenant-sweeps c h pages t s (bounded s) in
          (
            s',
            rw ends refl,
            λ v w q. invalidate_tenant-Fits s view shows v v t w q l p m pages (bounded s),
          )

      -- Over a server that answers, whose scans take fewer than `pages` pages, and that holds no
      -- value for plain tenants: any writes of kept slices for plain tenants, which the
      -- invalidations of tenants read literally, return, and then `Get` for a plain tenant returns
      -- what the interface's comments promise, and no error.
      pub redis_cache-promised :
          (ops : List Op) (s : Served c) (v w : Str)
          → All IsFine ops
          → Shows s nothing
          → IsPlain w
          → (s' : Served c) × (apply_all (redis_cache c pages) ops s ≡ some s')
            × ((Redis.get c v w s').0 ≡ (promised_all ops nothing v w, none))
      redis_cache-promised ops s v w fine start q =
          let (s', returns, shows) =
            apply_all-Shows (redis_cache c pages) Shows IsFine apply-Shows ops s nothing fine
              start in
          (s', returns, get-held c h v w s' ∙ Fits-read _ _ (shows v w q))
