-- ===== src/Client/Answers.antt =====
-- helios_permissions/permission_client.go: the three answers, from what `fetchAndCache` returned.
use helios_permission_golang.Prelude.{
  Bool, true, false, if◌then◌else◌, Option, none, some, List, [], Str, bytes, contains,
}
use helios_permission_golang.Errors.{Error}
use helios_permission_golang.Permission.{Permission}
use helios_permission_golang.Roles.{Role}
use helios_permission_golang.Cache.{Slice, elements}
use helios_permission_golang.Client.Fold.{fold_self_permissions}

pub record Explanation : Type 0 where
  pub allowed : Bool
  pub reason : Str
  pub role : Role
  pub permissions : Slice

-- After the error check, the loop over `perms`.
unfoldable pub has : Permission → Slice × Option Error → Bool × Option Error
has perm (perms, some e) = (false, some e)
has perm (perms, none) = (contains (elements perms) perm, none)

unfoldable pub folded : Slice × Option Error → Slice × Option Error
folded (perms, some e) = (none, some e)
folded (perms, none) = (some (fold_self_permissions (elements perms)), none)

-- `Role` is left at its zero value.
abbrev pub granted : List Permission → Explanation
granted full_perms = record {
  allowed = true;
  reason = bytes "granted_by_role";
  role = [];
  permissions = some full_perms;
}

abbrev pub not_granted : List Permission → Explanation
not_granted full_perms = record {
  allowed = false;
  reason = bytes "not_in_role_perm_set";
  role = [];
  permissions = some full_perms;
}

unfoldable pub explained : Permission → Slice × Option Error → Option Explanation × Option Error
explained perm (perms, some e) = (none, some e)
explained perm (perms, none) =
    let full_perms = fold_self_permissions (elements perms) in
    if contains (elements perms) perm
    then (some (granted full_perms), none)
    else (some (not_granted full_perms), none)
