-- ===== src/Cache/Contract.antt =====
-- helios_permissions/cache.go: what the client relies on: a read returns what the last write of the
-- same pair left, for the slices that the cache can keep, the tenants that it can sweep, and the
-- states in which what it holds for the pair can be read.
use helios_permission_golang.Prelude.{Str, Option, none, some, ◌≡◌}
use helios_permission_golang.Errors.{Error}
use helios_permission_golang.Cache.{Slice, elements, PermissionCache}
use helios_permission_golang.Cache.Spec.{set_if_absent}

pub record IsCoherent (C : PermissionCache) : Type 1 where
  pub Keeps : Slice → Type 0
  pub Sweeps : Str → Type 0
  pub IsSound : C.State → Str → Str → Type 0
  pub peek : C.State → Str → Str → Slice
  pub get_peek : (u t : Str) (s : C.State) → (C.get u t s).0.0 ≡ peek s u t
  pub peek_get : (u t : Str) (s : C.State) → peek (C.get u t s).1 u t ≡ peek s u t
  pub sound_get : (u t : Str) (s : C.State) → IsSound s u t → IsSound (C.get u t s).1 u t
  pub peek_set :
      (u t : Str) (perms : Slice) (s : C.State)
      → Keeps perms
      → IsSound s u t
      → peek (C.set u t perms s).1 u t ≡ set_if_absent (peek s u t) perms
  pub peek_write_through :
      (u t : Str) (perms : Slice) (s : C.State)
      → Keeps perms
      → peek (C.write_through u t perms s).1 u t ≡ some (elements perms)
  pub sound_write_through :
      (u t : Str) (perms : Slice) (s : C.State)
      → Keeps perms
      → IsSound (C.write_through u t perms s).1 u t
  pub peek_invalidate : (u t : Str) (s : C.State) → peek (C.invalidate u t s).1 u t ≡ none
  pub sound_invalidate : (u t : Str) (s : C.State) → IsSound (C.invalidate u t s).1 u t
  pub peek_invalidate_tenant :
      (u t : Str) (s : C.State)
      → Sweeps t
      → (r : Option Error × C.State) × (C.invalidate_tenant t s ≡ some r) × (peek r.1 u t ≡ none)
