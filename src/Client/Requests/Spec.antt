-- ===== src/Client/Requests/Spec.antt =====
-- helios_permissions/permission_client.go: what the methods of the client promise, on the table that
-- the cache stands for, in terms of foldSelfPermissions, IsUniversalPerm and FetchUserPermissions.
use helios_permission_golang.Prelude.{
  Str, Bool, true, false, if◌then◌else◌, Option, none, some, ◌⊎◌, inl, inr, List, [], ◌∷◌, bytes,
  contains,
}
use helios_permission_golang.Errors.{Error}
use helios_permission_golang.Permission.{Permission}
use helios_permission_golang.Roles.{is_universal_perm}
use helios_permission_golang.Cache.{Slice}
use helios_permission_golang.Cache.Spec.{
  View, set, write_through, invalidate, invalidate_tenant, promised,
}
use helios_permission_golang.Helios.{
  Env, HeliosClient, MembershipResolution, fetch_user_permissions,
}
use helios_permission_golang.Client.Answers.{Explanation}
use helios_permission_golang.Client.Fold.{fold_self_permissions}
use helios_permission_golang.Client.Sources.{answer}
use helios_permission_golang.Client.Requests
use helios_permission_golang.Client.Requests.{MethodCall, MethodReply}

-- An error, or the permissions of the pair.
abbrev pub Known : Type 0
Known = Error ⊎ List Permission

abbrev pub check_reply : Permission → Known → Bool × Option Error
check_reply perm (inl e) = (false, some e)
check_reply perm (inr ps) = (contains ps perm, none)

abbrev pub list_reply : Known → Slice × Option Error
list_reply (inl e) = (none, some e)
list_reply (inr ps) = (some (fold_self_permissions ps), none)

abbrev pub explanation : Bool → List Permission → Explanation
explanation allowed ps = record {
  allowed = allowed;
  reason = if allowed then bytes "granted_by_role" else bytes "not_in_role_perm_set";
  role = [];
  permissions = some (fold_self_permissions ps);
}

abbrev pub explain_reply : Permission → Known → Option Explanation × Option Error
explain_reply perm (inl e) = (none, some e)
explain_reply perm (inr ps) = (some (explanation (contains ps perm) ps), none)

-- What Helios answered for a pair, and the table after it: an answer is kept unless the pair is
-- there by then.
abbrev pub learnt : Str → Str → Option MembershipResolution × Option Error → View → Known × View
learnt u t (res, some e) view = (inl e, view)
learnt u t (some m, none) view = (inr (answer m), promised (set u t (some (answer m))) view)
learnt u t (none, none) view = (inr [], promised (set u t (some [])) view)

module _ (E : Env) (helios : HeliosClient) where
  -- The permissions of a pair: those of the table, or else those that Helios answers.
  abbrev pub looked_up : Str → Str → Slice → View → E.World → Known × View × E.World
  looked_up u t (some ps) view w = (inr ps, view, w)
  looked_up u t none view w =
      let (reply, w') = fetch_user_permissions E helios u t w in
      let (known, view') = learnt u t reply view in (known, view', w')

  abbrev pub read_as : (Known → MethodReply) → Known × View × E.World → MethodReply × View × E.World
  read_as reply (known, view, w) = (reply known, view, w)

  abbrev pub meet : MethodCall → View → E.World → MethodReply × View × E.World
  meet (Requests.checks u t perm) view w =
      if is_universal_perm perm
      then (Requests.checked (true, none), view, w)
      else read_as (λ k. Requests.checked (check_reply perm k)) (looked_up u t (view u t) view w)
  meet (Requests.lists u t) view w =
      read_as (λ k. Requests.listed (list_reply k)) (looked_up u t (view u t) view w)
  meet (Requests.explains u t perm) view w =
      if is_universal_perm perm
      then (Requests.explained (some (explanation true []), none), view, w)
      else read_as (λ k. Requests.explained (explain_reply perm k))
          (looked_up u t (view u t) view w)
  meet (Requests.invalidates u t) view w = (Requests.done, promised (invalidate u t) view, w)
  meet (Requests.sweeps t) view w = (Requests.done, promised (invalidate_tenant t) view, w)
  meet (Requests.writes u t perms) view w =
      (Requests.done, promised (write_through u t perms) view, w)

  abbrev pub meet_all : List MethodCall → View → E.World → List MethodReply × View × E.World
  meet_all [] view w = ([], view, w)
  meet_all (q ∷ qs) view w =
      let (r, view', w') = meet q view w in
      let (rs, view'', w'') = meet_all qs view' w' in (r ∷ rs, view'', w'')
