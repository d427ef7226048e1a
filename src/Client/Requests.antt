-- ===== src/Client/Requests.antt =====
-- helios_permissions/permission_client.go: sequences of calls of the methods of the client, one
-- after the other.
pub mod Agree
pub mod Refinement
pub mod Spec
pub mod Meets
use helios_permission_golang.Prelude.{Str, Bool, Option, none, some, List, [], ◌∷◌, ◌>>=◌}
use helios_permission_golang.Errors.{Error}
use helios_permission_golang.Permission.{Permission}
use helios_permission_golang.Cache.{Slice}
use helios_permission_golang.Helios.{Env}
use helios_permission_golang.Client
use helios_permission_golang.Client.{
  PermissionClient, State, caller_has_permission, get_user_permissions, explain,
}
use helios_permission_golang.Client.Answers.{Explanation}

-- The methods of the interface `Client`.
pub data MethodCall : Type 0 where
  checks : Str → Str → Permission → MethodCall
  lists : Str → Str → MethodCall
  explains : Str → Str → Permission → MethodCall
  invalidates : Str → Str → MethodCall
  sweeps : Str → MethodCall
  writes : Str → Str → Slice → MethodCall

-- What a read returns. The errors of the writes are those of the cache.
pub data MethodReply : Type 0 where
  checked : Bool × Option Error → MethodReply
  listed : Slice × Option Error → MethodReply
  explained : Option Explanation × Option Error → MethodReply
  done : MethodReply

module _ (E : Env) (c : PermissionClient) where
  unfoldable pub serve : MethodCall → State E c.cache → Option (MethodReply × State E c.cache)
  serve (checks u t perm) s = do
    (r, s') ← caller_has_permission E c u t perm s
    some (checked r, s')
  serve (lists u t) s = do (r, s') ← get_user_permissions E c u t s; some (listed r, s')
  serve (explains u t perm) s = do (r, s') ← explain E c u t perm s; some (explained r, s')
  serve (invalidates u t) s = some (done, (Client.invalidate E c u t s).1)
  serve (sweeps t) s = do (failure, s') ← Client.invalidate_tenant E c t s; some (done, s')
  serve (writes u t perms) s = some (done, (Client.write_through E c u t perms s).1)

  unfoldable pub serve_all :
      List MethodCall → State E c.cache → Option (List MethodReply × State E c.cache)
  unfolding serve
  serve_all [] s = some ([], s)
  serve_all (q ∷ qs) s = do (r, s') ← serve q s; (rs, s'') ← serve_all qs s'; some (r ∷ rs, s'')
