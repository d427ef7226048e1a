-- ===== src/Permission.antt =====
-- helios_permissions/role_permissions.go: the type `Permission` and its constants, which are named
-- without the prefix `Permission`.
mod Athens
mod Helios
mod Mercury
mod Muse
mod Zeta
pub use Athens.*
pub use Helios.*
pub use Mercury.*
pub use Muse.*
pub use Zeta.*
use helios_permission_golang.Prelude.{Str}

-- `type Permission string`
abbrev pub Permission : Type 0
Permission = Str
