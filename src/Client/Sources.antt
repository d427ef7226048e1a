-- ===== src/Client/Sources.antt =====
-- helios_permissions/permission_client.go: where the answer of a read comes from, and what the next
-- read returns.
use helios_permission_golang.Prelude.{
  ℕ, Str, if◌then◌else◌, Option, none, some, inl, inr, List, [], ◌≡◌, refl, bytes, ◌==◌, Bool-cases,
}
use helios_permission_golang.Errors.{Error, Reason, unreachable}
use helios_permission_golang.Permission.{Permission}
use helios_permission_golang.Cache.{Slice, elements}
use helios_permission_golang.Helios.{Env, MembershipResolution, fetch_user_permissions}
use helios_permission_golang.Helios.Outcomes.{
  Fits, IsOutcome, found, refused, fetch_user_permissions-IsOutcome,
}
use helios_permission_golang.Client.{
  PermissionClient, Outside, populate, after_fetch, fetch_and_populate, fetch_and_cache,
}
use helios_permission_golang.Client.Serving.{idle, after_get, served, fetch_and_cache-served}

-- What a membership grants: nothing unless it is active.
unfoldable pub answer : MembershipResolution → List Permission
answer m = if m.status == bytes "active" then elements m.permissions else []

-- What the client makes of a fetch.
unfoldable pub answered : Option MembershipResolution × Option Error → Slice × Option Error
answered (res, some e) = (none, some e)
answered (some m, none) = (some (answer m), none)
answered (none, none) = (some [], none)

module _ {E : Env} (c : PermissionClient) where
  -- The three ways to serve a read: from the cache, with Helios not asked; by failing as Helios
  -- failed, with nothing stored; and by what Helios answered, after an attempt to store it.
  pub data Serves (u t : Str) (o : Outside E c.cache)
      : (Slice × Option Error) × Outside E c.cache → Type 0 where
    hit :
        (ps : List Permission)
        → (c.cache.get u t o.cache).0.0 ≡ some ps
        → Serves u t o ((some ps, none), record o { cache = (c.cache.get u t o.cache).1 })
    unavailable :
        (status : ℕ) (reason : Reason) (text : Str)
        → (c.cache.get u t o.cache).0.0 ≡ none
        → (fetch_user_permissions E c.helios u t o.world).0
          ≡ (none, some (unreachable status reason (some text)))
        → Fits status reason
        → Serves u t o (
          (none, some (unreachable status reason (some text))),
          record {
            cache = (c.cache.get u t o.cache).1;
            world = (fetch_user_permissions E c.helios u t o.world).1;
          },
        )
    fresh :
        (m : MembershipResolution)
        → (c.cache.get u t o.cache).0.0 ≡ none
        → (fetch_user_permissions E c.helios u t o.world).0 ≡ (some m, none)
        → Serves u t o (
          (some (answer m), none),
          record {
            cache = (c.cache.set u t (some (answer m)) (c.cache.get u t o.cache).1).1;
            world = (fetch_user_permissions E c.helios u t o.world).1;
          },
        )

  pub populate-answer :
      (u t : Str) (m : MembershipResolution) (o : Outside E c.cache)
      → populate E c u t (some m) o ≡ (
        (some (answer m), none),
        record o { cache = (c.cache.set u t (some (answer m)) o.cache).1 },
      )
  unfolding populate answer
  populate-answer u t m o = elim (Bool-cases (m.status == bytes "active")) [
    | inl active ↦ rw active
    | inr other ↦ rw other
  ]

  pub after_fetch-answered :
      (u t : Str) (r : Option MembershipResolution × Option Error) (o : Outside E c.cache)
      → ((after_fetch E c u t r o).0 ≡ answered r) × ((after_fetch E c u t r o).1.world ≡ o.world)
  unfolding after_fetch answered populate
  after_fetch-answered u t (res, some e) o = (refl, refl)
  after_fetch-answered u t (some m, none) o = rw (populate-answer u t m o) (refl, refl)
  after_fetch-answered u t (none, none) o = (refl, refl)

  module _ (u t : Str) (o : Outside E c.cache) where
    abbrev asked : Outside E c.cache
    asked = record o { cache = (c.cache.get u t o.cache).1 }

    fetched-Serves :
        (r : Option MembershipResolution × Option Error)
        → IsOutcome r
        → (c.cache.get u t o.cache).0.0 ≡ none
        → (fetch_user_permissions E c.helios u t o.world).0 ≡ r
        → Serves u t o (fetch_and_populate E c u t asked)
    unfolding fetch_and_populate
    fetched-Serves _ (found m) miss e = rw e (rw (populate-answer u t m) (fresh m miss e))
    fetched-Serves _ (refused status reason text fits) miss e =
        rw e (unavailable status reason text miss e fits)

    after_get-Serves :
        (cached : Slice)
        → (c.cache.get u t o.cache).0.0 ≡ cached
        → Serves u t o (after_get c u t cached asked)
    unfolding after_get
    after_get-Serves (some ps) e = hit ps e
    after_get-Serves none e =
        fetched-Serves _ (fetch_user_permissions-IsOutcome E c.helios u t o.world) e refl

    -- Every read that finds no fetch in flight returns, and is served in one of the three ways.
    pub read-Serves :
        (r : (Slice × Option Error) × Outside E c.cache) × (fetch_and_cache E c u t (idle c o)
          ≡ some (r.0, idle c r.1))
        × Serves u t o r
    unfolding served
    read-Serves = (
      served c u t o,
      fetch_and_cache-served c u t o,
      after_get-Serves (c.cache.get u t o.cache).0.0 refl,
    )
