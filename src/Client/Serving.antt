-- ===== src/Client/Serving.antt =====
-- helios_permissions/permission_client.go: calls that find no fetch in flight never wait, and where
-- their answer comes from.
use helios_permission_golang.Prelude.{
  Str, Option, none, some, [], ◌≡◌, refl, ==-self, lookup, insert, delete,
}
use helios_permission_golang.Errors.{Error}
use helios_permission_golang.Cache.{Slice}
use helios_permission_golang.Helios.{Env}
use helios_permission_golang.Helios.Outcomes.{}
use helios_permission_golang.Client.{
  PermissionClient, Outside, State, fetch_and_populate, on_miss, fetch_and_cache,
}
use helios_permission_golang.Client.InFlight.{get_or_start}

-- With no entry for the key, the fetch runs once and leaves no entry.
get_or_start-idle :
    {S : Type 0} (key : Str) (fetch : S → (Slice × Option Error) × S) (s : S)
    → get_or_start key fetch [] s ≡ some ((fetch s).0, [], (fetch s).1)
unfolding get_or_start lookup insert delete
get_or_start-idle key fetch s = rw (==-self, delete)

module _ {E : Env} (c : PermissionClient) where
  abbrev pub idle : Outside E c.cache → State E c.cache
  idle o = record { outside = o; waiter = [] }

  -- The cache is asked first, and Helios only for nil.
  unfoldable pub after_get :
      Str → Str → Slice → Outside E c.cache → (Slice × Option Error) × Outside E c.cache
  after_get u t (some ps) o = ((some ps, none), o)
  after_get u t none o = fetch_and_populate E c u t o

  unfoldable pub served : Str → Str → Outside E c.cache → (Slice × Option Error) × Outside E c.cache
  unfolding after_get
  served u t o =
      let ((cached, _), cache) = c.cache.get u t o.cache in
      after_get u t cached (record o { cache = cache })

  on_miss-after_get :
      (u t : Str) (cached : Slice) (o : Outside E c.cache)
      → on_miss E c u t cached (idle o)
        ≡ some ((after_get u t cached o).0, idle (after_get u t cached o).1)
  unfolding on_miss after_get
  on_miss-after_get u t (some ps) o = refl
  on_miss-after_get u t none o = rw get_or_start-idle

  -- A read that finds no fetch in flight returns, and leaves none in flight.
  pub fetch_and_cache-served :
      (u t : Str) (o : Outside E c.cache)
      → fetch_and_cache E c u t (idle o) ≡ some ((served u t o).0, idle (served u t o).1)
  unfolding fetch_and_cache served
  fetch_and_cache-served u t o =
      let ((cached, _), cache) = c.cache.get u t o.cache in
      on_miss-after_get u t cached (record o { cache = cache })
