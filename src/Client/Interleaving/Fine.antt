-- ===== src/Client/Interleaving/Fine.antt =====
-- helios_permissions/permission_client.go: the interleavings that the theorems speak of.
use helios_permission_golang.Prelude.{List, [], ◌∷◌, ◌++◌}
use helios_permission_golang.Cache.Spec.{Op}
use helios_permission_golang.Memory.Keys.{IsPlain}
use helios_permission_golang.Client.Interleaving.{Event, looked, fetched, did}

-- A call is for a tenant without ":", and a write is fine for the cache.
abbrev pub IsFineEvent : (Op → Type 0) → Event → Type 0
IsFineEvent IsFine (looked u t) = IsPlain t
IsFineEvent IsFine (fetched u t ps) = Unit
IsFineEvent IsFine (did op) = IsFine op

abbrev pub AreFine : (Op → Type 0) → List Event → Type 0
AreFine IsFine [] = Unit
AreFine IsFine (e ∷ es) = IsFineEvent IsFine e × AreFine IsFine es

pub AreFine-append :
    (IsFine : Op → Type 0) (es' es : List Event)
    → AreFine IsFine (es' ++ es)
    → AreFine IsFine es' × AreFine IsFine es
AreFine-append IsFine [] es h = (tt, h)
AreFine-append IsFine (e ∷ es') es h =
    let (late, early) = AreFine-append IsFine es' es h.1 in ((h.0, late), early)
