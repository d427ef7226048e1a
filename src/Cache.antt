-- ===== src/Cache.antt =====
-- helios_permissions/cache.go: the interface that the client uses and two caches implement. Each
-- method takes the state of the cache and returns the new one beside its results. The one that may
-- loop is an option: `none` is a call that does not return.
pub mod Spec
pub mod Runs
pub mod Faithful
pub mod Contract
use helios_permission_golang.Prelude.{Str, Option, none, some, List, []}
use helios_permission_golang.Permission.{Permission}
use helios_permission_golang.Errors.{Error}

-- `[]Permission`; `none` is nil, which differs from the empty slice.
abbrev pub Slice : Type 0
Slice = Option (List Permission)

-- What `range` and `append` read: nil has no element.
abbrev pub elements : Slice → List Permission
elements none = []
elements (some ps) = ps

pub record PermissionCache : Type 1 where
  pub State : Type 0
  pub get : Str → Str → State → (Slice × Option Error) × State
  pub set : Str → Str → Slice → State → Option Error × State
  pub write_through : Str → Str → Slice → State → Option Error × State
  pub invalidate : Str → Str → State → Option Error × State
  pub invalidate_tenant : Str → State → Option (Option Error × State)
