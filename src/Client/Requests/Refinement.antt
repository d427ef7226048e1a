-- ===== src/Client/Requests/Refinement.antt =====
-- helios_permissions/permission_client.go: sequences of calls of the client over a cache that keeps
-- the promise of the interface, against the client over the promised table.
use helios_permission_golang.Prelude.{Bool, List, [], ◌∷◌, refl}
use helios_permission_golang.Cache.{PermissionCache}
use helios_permission_golang.Cache.Spec.{View, write_through, invalidate, invalidate_tenant, apply}
use helios_permission_golang.Cache.Faithful.{IsFaithful, view_cache}
use helios_permission_golang.Helios.{Env, HeliosClient}
use helios_permission_golang.Helios.Outcomes.{}
use helios_permission_golang.Client
use helios_permission_golang.Client.{
  PermissionClient, Outside, State, fetch_and_populate, fetch_and_cache, caller_has_permission,
  get_user_permissions, explain,
}
use helios_permission_golang.Client.Serving.{idle}
use helios_permission_golang.Client.Requests
use helios_permission_golang.Client.Requests.{MethodCall, MethodReply, serve, serve_all}
use helios_permission_golang.Client.Interleaving.Refines.{write_through-Shows, invalidate-Shows}
use helios_permission_golang.Client.Requests.Agree.{
  client_over, Agree, IsFineRead, finish-Agree, same-Agree, check-Agree, explain-Agree, list-Agree,
  write-Agree, swept,
}

module _ (E : Env) (C : PermissionCache) (h : IsFaithful C) (helios : HeliosClient)
    (stale : Bool) where
  open h use {IsFine, Shows}

  -- A request whose reads and writes are fine for the cache.
  abbrev pub IsFineRequest : MethodCall → Type 0
  IsFineRequest (Requests.checks u t perm) = IsFineRead E C h helios stale u t
  IsFineRequest (Requests.lists u t) = IsFineRead E C h helios stale u t
  IsFineRequest (Requests.explains u t perm) = IsFineRead E C h helios stale u t
  IsFineRequest (Requests.invalidates u t) = IsFine (invalidate u t)
  IsFineRequest (Requests.sweeps t) = IsFine (invalidate_tenant t)
  IsFineRequest (Requests.writes u t perms) = IsFine (write_through u t perms)

  serve-Agree :
      (x : C.State) (view : View) (w : E.World)
      → Shows x view
      → (q : MethodCall) → IsFineRequest q
      → Agree E C h helios stale
          (serve E
            (client_over C helios stale)
            q
            (idle (client_over C helios stale) (record { cache = x; world = w })))
          (serve E
            (client_over view_cache helios stale)
            q
            (idle (client_over view_cache helios stale) (record { cache = view; world = w })))
  unfolding serve Client.invalidate Client.invalidate_tenant Client.write_through
  serve-Agree x view w shows (Requests.checks u t perm) fine =
      finish-Agree E C h helios stale Requests.checked
        (check-Agree E C h helios stale x view w shows u t perm fine)
  serve-Agree x view w shows (Requests.lists u t) fine =
      finish-Agree E C h helios stale Requests.listed
        (list-Agree E C h helios stale x view w shows u t fine)
  serve-Agree x view w shows (Requests.explains u t perm) fine =
      finish-Agree E C h helios stale Requests.explained
        (explain-Agree E C h helios stale x view w shows u t perm fine)
  serve-Agree x view w shows (Requests.invalidates u t) fine =
      write-Agree E C h helios stale x view w shows (C.invalidate u t x).1 (invalidate u t)
        (invalidate-Shows C h u t x view fine shows)
  serve-Agree x view w shows (Requests.sweeps t) fine =
      let (x', e, shown) = h.apply_shows (invalidate_tenant t) x view fine shows in
      let (failure, returns) =
        swept E C h helios stale x view w shows (C.invalidate_tenant t x) x' (unfold apply in e) in
      rw returns (write-Agree E C h helios stale x view w shows x' (invalidate_tenant t) shown)
  serve-Agree x view w shows (Requests.writes u t perms) fine =
      write-Agree E C h helios stale x view w shows (C.write_through u t perms x).1
        (write_through u t perms) (write_through-Shows C h u t perms x view fine shows)

  abbrev pub AreFineRequests : List MethodCall → Type 0
  AreFineRequests [] = Unit
  AreFineRequests (q ∷ qs) = IsFineRequest q × AreFineRequests qs

  -- Over a cache that keeps the promise of the interface, from a state that shows a table, and for
  -- any sequence of calls of the methods of the client, whose tenants in reads have no ":" and whose
  -- writes, also of what Helios can answer, are fine for the cache: all calls return, with the
  -- replies of the client over the promised table, after the same exchanges with Helios, and the
  -- cache shows the table that this leaves.
  pub serve_all-Agree :
      (qs : List MethodCall) (x : C.State) (view : View) (w : E.World)
      → Shows x view
      → AreFineRequests qs
      → Agree E C h helios stale
          (serve_all E
            (client_over C helios stale)
            qs
            (idle (client_over C helios stale) (record { cache = x; world = w })))
          (serve_all E
            (client_over view_cache helios stale)
            qs
            (idle (client_over view_cache helios stale) (record { cache = view; world = w })))
  unfolding serve_all
  serve_all-Agree [] x view w shows fine = same-Agree E C h helios stale x view w shows []
  serve_all-Agree (q ∷ qs) x view w shows fine =
      let first = serve-Agree x view w shows q fine.0 in
      let others = serve_all-Agree qs first.cache first.table first.world first.shows fine.1 in
      record {
        value = first.value ∷ others.value;
        cache = others.cache;
        table = others.table;
        world = others.world;
        returns = rw (first.returns, others.returns) refl;
        table_returns = rw (first.table_returns, others.table_returns) refl;
        shows = others.shows;
      }
