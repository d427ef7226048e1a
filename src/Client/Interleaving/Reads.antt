-- ===== src/Client/Interleaving/Reads.antt =====
-- helios_permissions/permission_client.go: a read of the client that meets no other call, as an
-- interleaving.
use helios_permission_golang.Prelude.{Str, Option, none, some, List, ◌≡◌, refl}
use helios_permission_golang.Errors.{Error, unreachable}
use helios_permission_golang.Cache.{Slice}
use helios_permission_golang.Helios.{Env}
use helios_permission_golang.Client.{PermissionClient, Outside, fetch_and_cache}
use helios_permission_golang.Client.Serving.{idle}
use helios_permission_golang.Client.Sources.{
  answer, answered, Serves, hit, unavailable, fresh, read-Serves,
}
use helios_permission_golang.Client.Interleaving.{
  over, Shared, new_shared, Event, hits, Steps, rest, step,
}
use helios_permission_golang.Client.Interleaving.First.{fails_over, answers_over, finished_call}

module _ {E : Env} (c : PermissionClient) (u t : Str) (o : Outside E c.cache) where
  -- An interleaving in which call 0 returns the result and the cache ends as in the second state.
  abbrev pub IsInterleaved : (Slice × Option Error) × Outside E c.cache → Type 0
  IsInterleaved r =
      (es : List Event) × (s : Shared) × Steps c.cache o.cache new_shared es r.1.cache s
      × (s.calls 0 ≡ over u t r.0)

  served-IsInterleaved :
      (r : (Slice × Option Error) × Outside E c.cache) → Serves c u t o r → IsInterleaved r
  unfolding answered
  served-IsInterleaved _ (hit ps e) = (_, _, step rest (hits 0 u t ps refl e), refl)
  served-IsInterleaved _ (unavailable status reason text miss e fits) = (
    _,
    _,
    fails_over c.cache u t o.cache miss (unreachable status reason (some text)),
    finished_call c.cache u t o.cache miss _ _,
  )
  served-IsInterleaved _ (fresh m miss e) = (
    _,
    _,
    answers_over c.cache u t o.cache miss (some m, none) (answer m) refl,
    finished_call c.cache u t o.cache miss _ _,
  )

  -- A read that finds no fetch in flight, over any cache and network, returns, and in some
  -- interleaving a call for the same pair returns the same and leaves the cache in the same state.
  pub read-IsInterleaved :
      (r : (Slice × Option Error) × Outside E c.cache) × (fetch_and_cache E c u t (idle c o)
        ≡ some (r.0, idle c r.1))
      × IsInterleaved r
  read-IsInterleaved =
      let (r, returns, serves) = read-Serves c u t o in (r, returns, served-IsInterleaved r serves)
