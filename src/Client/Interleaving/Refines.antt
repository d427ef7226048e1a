-- ===== src/Client/Interleaving/Refines.antt =====
-- helios_permissions/permission_client.go: every interleaving over a cache that keeps the promise of
-- the interface is one over the promised table.
use helios_permission_golang.Prelude.{Str, Option, some, List, ◌≡◌, refl, sym, ◌∙◌}
use mathlib.Core.Path.{subst}
use helios_permission_golang.Errors.{Error}
use helios_permission_golang.Cache.{Slice, PermissionCache}
use helios_permission_golang.Cache.Spec.{
  View, set, write_through, invalidate, invalidate_tenant, promised, apply,
}
use helios_permission_golang.Cache.Faithful.{IsFaithful, view_cache}
use helios_permission_golang.Client.Interleaving.Fine.{AreFine, AreFine-append}
use helios_permission_golang.Client.Interleaving.{
  Shared, Event, Step, hits, misses, joins, fails, answers, stores, closes, removes, wakes, writes,
  invalidates, sweeps, Steps, rest, step,
}

module _ (C : PermissionCache) (h : IsFaithful C) where
  open h use {IsFine, Shows}

  after_some :
      (x x' : C.State) (view : View)
      → ◌≡◌ {A = Option C.State} (some x) (some x')
      → Shows x' view
      → Shows x view
  after_some x x' view e shows = let same : x' ≡ x = cc in subst (λ y. Shows y view) same shows

  pub set-Shows :
      (u t : Str) (perms : Slice) (x : C.State) (view : View)
      → IsFine (set u t perms)
      → Shows x view
      → Shows (C.set u t perms x).1 (promised (set u t perms) view)
  unfolding apply
  set-Shows u t perms x view fine shows =
      let (x', e, shown) = h.apply_shows (set u t perms) x view fine shows in
      after_some _ x' _ e shown

  pub write_through-Shows :
      (u t : Str) (perms : Slice) (x : C.State) (view : View)
      → IsFine (write_through u t perms)
      → Shows x view
      → Shows (C.write_through u t perms x).1 (promised (write_through u t perms) view)
  unfolding apply
  write_through-Shows u t perms x view fine shows =
      let (x', e, shown) = h.apply_shows (write_through u t perms) x view fine shows in
      after_some _ x' _ e shown

  pub invalidate-Shows :
      (u t : Str) (x : C.State) (view : View)
      → IsFine (invalidate u t)
      → Shows x view
      → Shows (C.invalidate u t x).1 (promised (invalidate u t) view)
  unfolding apply
  invalidate-Shows u t x view fine shows =
      let (x', e, shown) = h.apply_shows (invalidate u t) x view fine shows in
      after_some _ x' _ e shown

  pub invalidate_tenant-Shows :
      (t : Str) (x x' : C.State) (failure : Option Error) (view : View)
      → IsFine (invalidate_tenant t)
      → C.invalidate_tenant t x ≡ some (failure, x')
      → Shows x view
      → Shows x' (promised (invalidate_tenant t) view)
  unfolding apply
  invalidate_tenant-Shows t x x' failure view fine returns shows =
      let (y, e, shown) = h.apply_shows (invalidate_tenant t) x view fine shows in
      after_some x' y _ (sym (rw returns refl) ∙ e) shown

  simulate :
      {x : C.State} {s : Shared} {es : List Event} {x' : C.State} {s' : Shared} (view : View)
      → Step C x s es x' s'
      → AreFine IsFine es
      → Shows x view
      → (view' : View) × Step view_cache view s es view' s' × Shows x' view'
  simulate {x} view (hits c u t ps out e) fine shows = (
    view,
    hits c u t ps out (sym (h.get_view u t x view fine.0 shows) ∙ e),
    h.get_shows u t x view shows,
  )
  simulate {x} view (misses c u t out e) fine shows = (
    view,
    misses c u t out (sym (h.get_view u t x view fine.0 shows) ∙ e),
    h.get_shows u t x view shows,
  )
  simulate view (joins c u t at) fine shows = (view, joins c u t at, shows)
  simulate view (fails n e at none_yet) fine shows = (view, fails n e at none_yet, shows)
  simulate view (answers n r ps at none_yet e) fine shows =
      (view, answers n r ps at none_yet e, shows)
  simulate {x} {s = s} view (stores n ps at held) fine shows = (
    promised (set (s.asker n).0 (s.asker n).1 (some ps)) view,
    stores n ps at held,
    set-Shows (s.asker n).0 (s.asker n).1 (some ps) x view fine.0 shows,
  )
  simulate view (closes n r at) fine shows = (view, closes n r at, shows)
  simulate view (removes n r at) fine shows = (view, removes n r at, shows)
  simulate view (wakes c u t n r at waits over) fine shows =
      (view, wakes c u t n r at waits over, shows)
  simulate {x} view (writes u t perms) fine shows = (
    promised (write_through u t perms) view,
    writes u t perms,
    write_through-Shows u t perms x view fine.0 shows,
  )
  simulate {x} view (invalidates u t) fine shows =
      (promised (invalidate u t) view, invalidates u t, invalidate-Shows u t x view fine.0 shows)
  simulate {x} {x' = x'} view (sweeps t failure _ returns) fine shows = (
    promised (invalidate_tenant t) view,
    sweeps t _ _ refl,
    invalidate_tenant-Shows t x x' failure view fine.0 returns shows,
  )

  -- Whatever interleaving runs over a faithful cache from a state that shows a table, if its calls
  -- are for tenants without ":" and its writes are fine for the cache: the same calls, fetches and
  -- events run over the table, and the cache shows the table that this leaves.
  pub interleaving_refines :
      {x : C.State} {s : Shared} {es : List Event} {x' : C.State} {s' : Shared} (view : View)
      → Steps C x s es x' s'
      → AreFine IsFine es
      → Shows x view
      → (view' : View) × Steps view_cache view s es view' s' × Shows x' view'
  interleaving_refines view rest fine shows = (view, rest, shows)
  interleaving_refines view (step {es = es} {es' = es'} before last) fine shows =
      let (late, early) = AreFine-append IsFine es' es fine in
      let (between, run, shown) = interleaving_refines view before early shows in
      let (view', next, shown') = simulate between last late shown in (view', step run next, shown')
