-- ===== src/Client/Interleaving/Quiet.antt =====
-- helios_permissions/permission_client.go: what a pair has in the cache while nothing is written or
-- invalidated for it, whatever fetches end.
use helios_permission_golang.Prelude.{Str, Bool, false, ◌&&◌, ◌||◌, List, [], ◌∷◌, ◌==◌}
use helios_permission_golang.Permission.{Permission}
use helios_permission_golang.Cache.Spec.{set, write_through, invalidate, invalidate_tenant}
use helios_permission_golang.Client.Interleaving.{Event, looked, fetched, did}

-- The event writes or drops what the pair has.
abbrev touches : Str → Str → Event → Bool
touches u t (looked v w) = false
touches u t (fetched v w ps) = false
touches u t (did (set v w perms)) = false
touches u t (did (write_through v w perms)) = v == u && w == t
touches u t (did (invalidate v w)) = v == u && w == t
touches u t (did (invalidate_tenant w)) = t == w

abbrev pub touched : Str → Str → List Event → Bool
touched u t [] = false
touched u t (e ∷ es) = touches u t e || touched u t es
