-- ===== src/Tests/Requests.antt =====
-- helios_permissions/permission_client.go: a sequence of calls of the client over the in-memory cache.
use helios_permission_golang.Prelude.{Str, none, List, [], ◌∷◌, bytes}
use helios_permission_golang.Permission
use helios_permission_golang.Permission.{Permission}
use helios_permission_golang.Helios.{Reply}
use helios_permission_golang.Client.Requests
use helios_permission_golang.Client.Requests.{MethodCall}
use helios_permission_golang.Tests.World.{reply}

abbrev u1 : Str
u1 = bytes "u1"

abbrev t1 : Str
t1 = bytes "t1"

-- A check that asks Helios, one from the cache, and one after each of the writes.
abbrev requests : List MethodCall
requests =
    Requests.checks u1 t1 Permission.zeta_billing_view
    ∷ Requests.lists u1 t1
    ∷ Requests.invalidates u1 t1
    ∷ Requests.explains u1 t1 Permission.zeta_billing_view
    ∷ Requests.writes u1 t1 none
    ∷ Requests.lists u1 t1
    ∷ Requests.sweeps t1
    ∷ Requests.checks u1 t1 Permission.zeta_billing_view
    ∷ []

abbrev replies : List Reply
replies = reply 200 (bytes "{active}") ∷ reply 503 (bytes "x") ∷ []
