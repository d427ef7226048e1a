-- ===== src/Client/Requests/Meets.antt =====
-- helios_permissions/permission_client.go: the client over a cache that keeps the promise of the
-- interface does what its methods promise.
use helios_permission_golang.Prelude.{Bool, Option, none, some, inl, inr}
use helios_permission_golang.Errors.{Error}
use helios_permission_golang.Permission.{Permission}
use helios_permission_golang.Cache.{Slice}
use helios_permission_golang.Cache.Spec.{View}
use helios_permission_golang.Cache.Faithful.{view_cache}
use helios_permission_golang.Helios.{Env, HeliosClient}
use helios_permission_golang.Client
use helios_permission_golang.Client.{PermissionClient, Outside}
use helios_permission_golang.Client.Requests
use helios_permission_golang.Client.Requests.Agree.{client_over}
use helios_permission_golang.Client.Requests.Spec.{Known}

-- What `fetchAndCache` returns.
abbrev returned : Known → Slice × Option Error
returned (inl e) = (none, some e)
returned (inr ps) = (some ps, none)

module _ (E : Env) (helios : HeliosClient) (stale : Bool) where
  abbrev table : PermissionClient
  table = client_over view_cache helios stale

  abbrev at : View → E.World → Outside E view_cache
  at view w = record { cache = view; world = w }
