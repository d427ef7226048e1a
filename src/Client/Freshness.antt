-- ===== src/Client/Freshness.antt =====
-- helios_permissions/permission_client.go: what a read returns after an earlier read, write or
-- invalidation of the same pair, over a coherent cache.
use helios_permission_golang.Prelude.{Str, Option, none, some, List, ◌≡◌, refl, sym, ap, ◌∙◌, arith}
use helios_permission_golang.Errors.{Error}
use helios_permission_golang.Permission.{Permission}
use helios_permission_golang.Cache.{Slice, elements}
use helios_permission_golang.Cache.Spec.{set_if_absent}
use helios_permission_golang.Cache.Contract.{IsCoherent}
use helios_permission_golang.Helios.{Env, MembershipResolution}
use helios_permission_golang.Client
use helios_permission_golang.Client.{
  PermissionClient, Outside, populate, fetch_and_cache, caller_has_permission,
}
use helios_permission_golang.Client.Serving.{idle, after_get, served, fetch_and_cache-served}
use helios_permission_golang.Client.Sources.{
  answer, Serves, hit, unavailable, fresh, populate-answer, read-Serves,
}
use mathlib.Core.Path.{subst}

same_call :
    {E : Env} (c : PermissionClient) (a b : Slice × Option Error) (o o' : Outside E c.cache)
    → ◌≡◌ {A = Client.Call E c (Slice × Option Error)} (some (a, idle c o)) (some (b, idle c o'))
    → (a ≡ b) × (o ≡ o')
same_call c a b o o' e = ground arith

module _ {E : Env} (c : PermissionClient) (k : IsCoherent c.cache) (u t : Str) where
  open k use {peek}

  Serves-peek :
      {o : Outside E c.cache} {r : (Slice × Option Error) × Outside E c.cache}
      → Serves c u t o r
      → (ps : List Permission) → k.Keeps (some ps)
      → k.IsSound o.cache u t
      → r.0 ≡ (some ps, none)
      → peek r.1.cache u t ≡ some ps
  Serves-peek {o} (hit qs e) ps keeps sound same =
      k.peek_get u t o.cache
      ∙ sym (k.get_peek u t o.cache)
      ∙ e
      ∙ ap (λ (p : Slice × Option Error). p.0) same
  Serves-peek (unavailable status reason text miss e fits) ps keeps sound same = cc
  Serves-peek {o} (fresh m miss e) ps keeps sound same =
      let missing = k.peek_get u t o.cache ∙ sym (k.get_peek u t o.cache) ∙ miss in
      k.peek_set u t (some (answer m)) (c.cache.get u t o.cache).1
        (subst k.Keeps (sym (ap (λ (p : Slice × Option Error). p.0) same)) keeps)
        (k.sound_get u t o.cache sound)
      ∙ ap (λ p. set_if_absent p (some (answer m))) missing
      ∙ ap (λ (p : Slice × Option Error). p.0) same

  -- A read of a pair that the cache holds.
  peek-read :
      (o : Outside E c.cache) (ps : List Permission)
      → peek o.cache u t ≡ some ps
      → fetch_and_cache E c u t (idle c o)
        ≡ some ((some ps, none), idle c (record o { cache = (c.cache.get u t o.cache).1 }))
  unfolding served after_get
  peek-read o ps e = fetch_and_cache-served c u t o ∙ rw (k.get_peek u t o.cache ∙ e)

  -- A read that succeeded with a list that the cache can keep, while what the cache held could be
  -- read, is repeated from the cache: the second has the same result, and does not ask Helios.
  pub second_read_is_cached :
      (o o' : Outside E c.cache) (ps : List Permission)
      → k.Keeps (some ps)
      → k.IsSound o.cache u t
      → fetch_and_cache E c u t (idle c o) ≡ some ((some ps, none), idle c o')
      → (o'' : Outside E c.cache) × (fetch_and_cache E c u t (idle c o')
          ≡ some ((some ps, none), idle c o''))
        × (o''.world ≡ o'.world)
  second_read_is_cached o o' ps keeps sound e =
      let (r, returned, source) = read-Serves c u t o in
      let (value, state) = same_call c r.0 (some ps, none) r.1 o' (sym returned ∙ e) in
      (
        record o' { cache = (c.cache.get u t o'.cache).1 },
        peek-read o' ps (
            subst (λ x. peek x.cache u t ≡ some ps) state
              (Serves-peek source ps keeps sound value)),
        refl,
      )

  -- A read after a write of the same pair, of a slice that the cache can keep, returns what was
  -- written, and does not ask Helios.
  pub write_through_is_read :
      (o : Outside E c.cache) (perms : Slice)
      → k.Keeps perms
      → (o' : Outside E c.cache) × (fetch_and_cache E c u t
            (Client.write_through E c u t perms (idle c o)).1
          ≡ some ((some (elements perms), none), idle c o'))
        × (o'.world ≡ o.world)
  unfolding Client.write_through
  write_through_is_read o perms keeps =
      let written = (c.cache.write_through u t perms o.cache).1 in
      (
        record o { cache = (c.cache.get u t written).1 },
        peek-read (record o { cache = written }) (elements perms)
            (k.peek_write_through u t perms o.cache keeps),
        refl,
      )

  peek-populate :
      (o : Outside E c.cache) (m : MembershipResolution)
      → k.Keeps (some (answer m))
      → k.IsSound o.cache u t
      → peek (populate E c u t (some m) o).1.cache u t
        ≡ set_if_absent (peek o.cache u t) (some (answer m))
  peek-populate o m keeps sound =
      rw populate-answer (k.peek_set u t (some (answer m)) o.cache keeps sound)

  -- For lists that the cache can keep: a fetch that ends after the pair was invalidated stores what
  -- it fetched before; after the pair was written, it leaves what was written.
  pub late_populate :
      (o : Outside E c.cache) (m : MembershipResolution) (perms : Slice)
      → k.Keeps (some (answer m))
      → k.Keeps perms
      → (peek
            (populate E c u t
              (some m)
              (record o { cache = (c.cache.invalidate u t o.cache).1 })).1.cache
            u
            t
          ≡ some (answer m))
        × (peek
              (populate E c u t
                (some m)
                (record o { cache = (c.cache.write_through u t perms o.cache).1 })).1.cache
              u
              t
            ≡ some (elements perms))
  late_populate o m perms keeps written =
      let store = λ (p : Slice). set_if_absent p (some (answer m)) in
      (
        peek-populate (record o { cache = (c.cache.invalidate u t o.cache).1 }) m keeps
              (k.sound_invalidate u t o.cache)
            ∙ ap store (k.peek_invalidate u t o.cache),
        peek-populate (record o { cache = (c.cache.write_through u t perms o.cache).1 }) m keeps
              (k.sound_write_through u t perms o.cache written)
            ∙ ap store (k.peek_write_through u t perms o.cache written),
      )
