-- ===== src/Client/Requests/Agree.antt =====
-- helios_permissions/permission_client.go: single calls of the client over a cache that keeps the
-- promise of the interface, against the client over the promised table.
use helios_permission_golang.Prelude.{
  Str, Bool, true, Option, none, some, inl, inr, ◌>>=◌, ◌≡◌, refl, sym, ◌∙◌, Bool-cases,
}
use helios_permission_golang.Errors.{Error}
use helios_permission_golang.Permission.{Permission}
use helios_permission_golang.Roles.{is_universal_perm}
use helios_permission_golang.Cache.{Slice, PermissionCache}
use helios_permission_golang.Cache.Spec.{View, Op, set, promised}
use helios_permission_golang.Cache.Faithful.{IsFaithful, view_cache}
use helios_permission_golang.Memory.Keys.{IsPlain}
use helios_permission_golang.Helios.{
  Env, HeliosClient, MembershipResolution, fetch_user_permissions,
}
use helios_permission_golang.Helios.Outcomes.{
  IsOutcome, found, refused, fetch_user_permissions-IsOutcome,
}
use helios_permission_golang.Client.{
  PermissionClient, Outside, State, fetch_and_populate, fetch_and_cache, caller_has_permission,
  get_user_permissions, explain,
}
use helios_permission_golang.Client.Answers.{has, folded, explained}
use helios_permission_golang.Client.Serving.{idle, after_get, served, fetch_and_cache-served}
use helios_permission_golang.Client.Sources.{answer, populate-answer}
use helios_permission_golang.Client.Requests
use helios_permission_golang.Client.Requests.{MethodCall, MethodReply, serve, serve_all}
use helios_permission_golang.Client.Interleaving.Refines.{set-Shows}

abbrev pub client_over : PermissionCache → HeliosClient → Bool → PermissionClient
client_over C helios stale = record { cache = C; helios = helios; stale_on_error = stale }

module _ (E : Env) (C : PermissionCache) (h : IsFaithful C) (helios : HeliosClient)
    (stale : Bool) where
  open h use {IsFine, Shows}

  abbrev pub at : C.State → E.World → Outside E C
  at x w = record { cache = x; world = w }

  abbrev pub table_at : View → E.World → Outside E view_cache
  table_at view w = record { cache = view; world = w }

  -- The two clients return the same, leave the network in the same state, and the cache shows the
  -- table that the other leaves.
  pub record Agree {A : Type 0} (m : Option (A × State E C)) (m' : Option (A × State E view_cache))
      : Type 0 where
    pub value : A
    pub cache : C.State
    pub table : View
    pub world : E.World
    pub returns : m ≡ some (value, idle (client_over C helios stale) (at cache world))
    pub table_returns :
        m' ≡ some (value, idle (client_over view_cache helios stale) (table_at table world))
    pub shows : Shows cache table

  pub finish-Agree :
      {A B : Type 0} {m : Option (A × State E C)} {m' : Option (A × State E view_cache)} (f : A → B)
      → Agree m m'
      → Agree (m >>= λ r. some (f r.0, r.1)) (m' >>= λ r. some (f r.0, r.1))
  finish-Agree f a = record {
    value = f a.value;
    cache = a.cache;
    table = a.table;
    world = a.world;
    returns = rw a.returns refl;
    table_returns = rw a.table_returns refl;
    shows = a.shows;
  }

  -- A read is for a plain tenant, and what Helios can answer for the pair is fine to store.
  abbrev pub IsFineRead : Str → Str → Type 0
  IsFineRead u t =
      IsPlain t
      × ((w : E.World) (m : MembershipResolution)
          → (fetch_user_permissions E helios u t w).0 ≡ (some m, none)
          → IsFine (set u t (some (answer m))))

  -- What two reads return, and the states after them.
  record Alike (r : (Slice × Option Error) × Outside E C)
      (r' : (Slice × Option Error) × Outside E view_cache) : Type 0 where
    same : r.0 ≡ r'.0
    same_world : r.1.world ≡ r'.1.world
    shown : Shows r.1.cache r'.1.cache

  module _ (u t : Str) (fine : IsFineRead u t) (x : C.State) (view : View) (w : E.World)
      (shows : Shows x view) where
    fetched-Alike :
        (r : Option MembershipResolution × Option Error)
        → IsOutcome r
        → (fetch_user_permissions E helios u t w).0 ≡ r
        → Alike
            (fetch_and_populate E (client_over C helios stale) u t (at x w))
            (fetch_and_populate E (client_over view_cache helios stale) u t (table_at view w))
    unfolding fetch_and_populate
    fetched-Alike _ (found m) e = rw e (
        rw
          (
            populate-answer (client_over C helios stale) u t m,
            populate-answer (client_over view_cache helios stale) u t m,
          )
          (record {
            same = refl;
            same_world = refl;
            shown = set-Shows C h u t (some (answer m)) x view (fine.1 w m e) shows;
          }))
    fetched-Alike _ (refused status reason text fits) e =
        rw e (record { same = refl; same_world = refl; shown = shows })

    after_get-Alike :
        (cached : Slice)
        → Alike
            (after_get (client_over C helios stale) u t cached (at x w))
            (after_get (client_over view_cache helios stale) u t cached (table_at view w))
    unfolding after_get
    after_get-Alike (some ps) = record { same = refl; same_world = refl; shown = shows }
    after_get-Alike none = fetched-Alike _ (fetch_user_permissions-IsOutcome E helios u t w) refl

  served-Alike :
      (u t : Str)
      → IsFineRead u t
      → (x : C.State) (view : View) (w : E.World) → Shows x view
      → Alike
          (served (client_over C helios stale) u t (at x w))
          (served (client_over view_cache helios stale) u t (table_at view w))
  unfolding served
  served-Alike u t fine x view w shows =
      rw (h.get_view u t x view fine.0 shows)
        (after_get-Alike u t fine (C.get u t x).1 view w (h.get_shows u t x view shows) (view u t))

  module _ (x : C.State) (view : View) (w : E.World) (shows : Shows x view) where
    abbrev pub start : State E C
    start = idle (client_over C helios stale) (at x w)

    abbrev pub table_start : State E view_cache
    table_start = idle (client_over view_cache helios stale) (table_at view w)

    read-Agree :
        (u t : Str)
        → IsFineRead u t
        → Agree
            (fetch_and_cache E (client_over C helios stale) u t start)
            (fetch_and_cache E (client_over view_cache helios stale) u t table_start)
    read-Agree u t fine =
        let alike = served-Alike u t fine x view w shows in
        let r = served (client_over C helios stale) u t (at x w) in
        let r' = served (client_over view_cache helios stale) u t (table_at view w) in
        record {
          value = r.0;
          cache = r.1.cache;
          table = r'.1.cache;
          world = r.1.world;
          returns = fetch_and_cache-served (client_over C helios stale) u t (at x w);
          table_returns =
              fetch_and_cache-served (client_over view_cache helios stale) u t (table_at view w)
              ∙ (λ i. some (
                sym alike.same i,
                idle (client_over view_cache helios stale)
                    (table_at r'.1.cache (sym alike.same_world i)),
              ));
          shows = alike.shown;
        }

    -- A call that touches nothing.
    pub same-Agree : {A : Type 0} (a : A) → Agree (some (a, start)) (some (a, table_start))
    same-Agree a = record {
      value = a;
      cache = x;
      table = view;
      world = w;
      returns = refl;
      table_returns = refl;
      shows = shows;
    }

    pub check-Agree :
        (u t : Str) (perm : Permission)
        → IsFineRead u t
        → Agree
            (caller_has_permission E (client_over C helios stale) u t perm start)
            (caller_has_permission E (client_over view_cache helios stale) u t perm table_start)
    unfolding caller_has_permission
    check-Agree u t perm fine = elim (Bool-cases (is_universal_perm perm)) [
      | inl universal ↦ rw universal (same-Agree (true, none))
      | inr other ↦ rw other (finish-Agree (has perm) (read-Agree u t fine))
    ]

    pub explain-Agree :
        (u t : Str) (perm : Permission)
        → IsFineRead u t
        → Agree
            (explain E (client_over C helios stale) u t perm start)
            (explain E (client_over view_cache helios stale) u t perm table_start)
    unfolding explain
    explain-Agree u t perm fine = elim (Bool-cases (is_universal_perm perm)) [
      | inl universal ↦ rw universal (same-Agree _)
      | inr other ↦ rw other (finish-Agree (explained perm) (read-Agree u t fine))
    ]

    pub list-Agree :
        (u t : Str)
        → IsFineRead u t
        → Agree
            (get_user_permissions E (client_over C helios stale) u t start)
            (get_user_permissions E (client_over view_cache helios stale) u t table_start)
    unfolding get_user_permissions
    list-Agree u t fine = finish-Agree folded (read-Agree u t fine)

    -- A write that returns and does to the table what is promised.
    pub write-Agree :
        (x' : C.State) (op : Op)
        → Shows x' (promised op view)
        → Agree (some (Requests.done, idle (client_over C helios stale) (at x' w))) (
            some (
              Requests.done,
              idle (client_over view_cache helios stale) (table_at (promised op view) w),
            ))
    write-Agree x' op shown = record {
      value = Requests.done;
      cache = x';
      table = promised op view;
      world = w;
      returns = refl;
      table_returns = refl;
      shows = shown;
    }

    pub swept :
        (m : Option (Option Error × C.State)) (x' : C.State)
        → (do (failure, y) ← m; some y) ≡ some x'
        → (failure : Option Error) × (m ≡ some (failure, x'))
    swept none x' e = absurd cc
    swept (some (failure, y)) x' e = (failure, let it : y ≡ x' = cc in rw it refl)
