-- ===== src/Client/Interleaving/Invalidation.antt =====
-- helios_permissions/permission_client.go: when a pair that is not in the cache, as after an
-- invalidation, can get back only permissions that are given for it later.
use helios_permission_golang.Prelude.{
  ℕ, Str, none, some, List, [], ◌∷◌, ◌++◌, ◌==◌, ◌&&◌, ◌≡◌, sym, ◌∙◌, ap,
}
use helios_permission_golang.Permission.{Permission}
use helios_permission_golang.Cache.{Slice, PermissionCache}
use helios_permission_golang.Cache.Spec.{
  View, Op, set, write_through, invalidate, invalidate_tenant, promised,
}
use helios_permission_golang.Cache.Runs.{nothing}
use helios_permission_golang.Cache.Faithful.{IsFaithful, view_cache}
use helios_permission_golang.Memory.Keys.{IsPlain}
use helios_permission_golang.Client.Coalescing.{
  running, stored, closed, removed, update, move, remove, wake,
}
use helios_permission_golang.Client.Interleaving.{
  over, missed, Shared, new_shared, flight_key, Event, looked, did, Step, hits, misses, joins,
  fails, answers, stores, closes, removes, wakes, writes, invalidates, sweeps, Steps, rest, step,
}
use helios_permission_golang.Client.Interleaving.Fine.{AreFine, AreFine-append}
use helios_permission_golang.Client.Interleaving.Given.{Given, earlier}
use helios_permission_golang.Client.Interleaving.Refines.{interleaving_refines}
use helios_permission_golang.Client.Interleaving.Sound.{Sound}
use helios_permission_golang.Client.Interleaving.Sources.{
  dropped, Step-Sound, Steps-Sound, new_shared-Sound,
}
use helios_permission_golang.Client.Interleaving.Fresh.{
  IsFresh, still_running, moves-IsFresh, joins-IsFresh, answers-IsFresh, set_kept, write_kept,
}

invalidated_kept :
    (v w : Str) (view : View) (u t : Str) (ps : List Permission)
    → promised (invalidate v w) view u t ≡ some ps
    → view u t ≡ some ps
unfolding promised
invalidated_kept v w view u t ps e = dropped (v == u && w == t) (view u t) ps e

swept_kept :
    (w : Str) (view : View) (u t : Str) (ps : List Permission)
    → promised (invalidate_tenant w) view u t ≡ some ps
    → view u t ≡ some ps
unfolding promised
swept_kept w view u t ps e = dropped (t == w) (view u t) ps e

pub Step-IsFresh :
    (IsFine : Op → Type 0) (u t : Str) {all es : List Event} {view : View} {s : Shared}
    {es' : List Event} {view' : View} {s' : Shared}
    → Step view_cache view s es' view' s'
    → Sound all view s
    → IsFresh u t es view s
    → IsFresh u t (es' ++ es) view' s'
Step-IsFresh IsFine u t {es = es} {view = view} {s = s} (hits c v w ps out e) sound h =
    moves-IsFresh u t es view s h (looked v w ∷ []) view s.flights
      (update c (over v w (some ps, none)) s.calls) (λ qs f. earlier (h.kept qs f)) (λ m run. run)
Step-IsFresh IsFine u t {es = es} {view = view} {s = s} (misses c v w out e) sound h =
    moves-IsFresh u t es view s h (looked v w ∷ []) view s.flights (update c (missed v w) s.calls)
      (λ qs f. earlier (h.kept qs f)) (λ m run. run)
Step-IsFresh IsFine u t {all = all} {es = es} {view = view} {s = s} (joins c v w at) sound h =
    joins-IsFresh u t es view s h c v w all sound (sound.unjoined c v w at).0
Step-IsFresh IsFine u t {es = es} {view = view} {s = s} (fails n e at none_yet) sound h =
    moves-IsFresh u t es view s h [] view (move n (stored (none, some e)) s.flights) s.calls h.kept
      (λ m run. still_running s.flights n m (stored (none, some e)) (λ f. cc) run)
Step-IsFresh IsFine u t {es = es} {view = view} {s = s} (answers n r ps at none_yet e) sound h =
    answers-IsFresh u t es view s h n ps
Step-IsFresh IsFine u t {es = es} {view = view} {s = s} (stores n ps at held) sound h =
    moves-IsFresh u t es view s h (did (set (s.asker n).0 (s.asker n).1 (some ps)) ∷ []) _
      (move n (stored (some ps, none)) s.flights) s.calls
      (λ qs f. earlier (set_kept u t es view s h n ps at held qs f))
      (λ m run. still_running s.flights n m (stored (some ps, none)) (λ f. cc) run)
Step-IsFresh IsFine u t {es = es} {view = view} {s = s} (closes n r at) sound h =
    moves-IsFresh u t es view s h [] view (move n (closed r) s.flights) s.calls h.kept
      (λ m run. still_running s.flights n m (closed r) (λ f. cc) run)
Step-IsFresh IsFine u t {es = es} {view = view} {s = s} (removes n r at) sound h =
    moves-IsFresh u t es view s h [] view (remove n r s.flights) s.calls h.kept
      (λ m run. still_running s.flights n m (removed r) (λ f. cc) (unfold remove in run))
Step-IsFresh IsFine u t {es = es} {view = view} {s = s} (wakes c v w n r at waits is_over) sound h =
    moves-IsFresh u t es view s h [] view (wake c (flight_key v w) n r s.flights)
      (update c (over v w r) s.calls) h.kept (λ m run. (unfold wake in run))
Step-IsFresh IsFine u t {es = es} {view = view} {s = s} (writes v w perms) sound h =
    moves-IsFresh u t es view s h (did (write_through v w perms) ∷ []) _ s.flights s.calls
      (write_kept u t es view s h v w perms) (λ m run. run)
Step-IsFresh IsFine u t {es = es} {view = view} {s = s} (invalidates v w) sound h =
    moves-IsFresh u t es view s h (did (invalidate v w) ∷ []) _ s.flights s.calls
      (λ ps e. earlier (h.kept ps (invalidated_kept v w view u t ps e))) (λ m run. run)
Step-IsFresh IsFine u t {es = es} {view = view} {s = s} (sweeps w failure view' returns) sound h =
    let it : promised (invalidate_tenant w) view ≡ view' = cc in
    moves-IsFresh u t es view s h (did (invalidate_tenant w) ∷ []) view' s.flights s.calls
      (λ ps e. earlier (h.kept ps (swept_kept w view u t ps (ap (λ (y : View). y u t) it ∙ e))))
      (λ m run. run)

Steps-IsFresh :
    (IsFine : Op → Type 0) (u t : Str) {all : List Event} {view : View} {s : Shared}
    {es : List Event} {view' : View} {s' : Shared}
    → Steps view_cache view s es view' s'
    → AreFine IsFine es
    → Sound all view s
    → IsFresh u t [] view s
    → (all' : List Event) × Sound all' view' s' × IsFresh u t es view' s'
Steps-IsFresh IsFine u t {all = all} rest fine sound h = (all, sound, h)
Steps-IsFresh IsFine u t (step {es = es} {es' = es'} before last) fine sound h =
    let (late, early) = AreFine-append IsFine es' es fine in
    let (all', sound', h') = Steps-IsFresh IsFine u t before early sound h in
    (_, Step-Sound IsFine last late sound', Step-IsFresh IsFine u t last sound' h')

-- Over any cache that keeps the promise of the interface, empty at first, and after any
-- interleaving of calls for tenants without ":" and writes that are fine for the cache: if the cache
-- then has nothing for a user and a tenant without ":", as after an invalidation, and no fetch for
-- that pair stands between the reply of Helios and `cache.Set`, then however the calls, fetches,
-- writes and invalidations go on, permissions that the cache has for the pair are ones that Helios
-- answered for it, or that were written for it, since.
pub invalidation_holds :
    (C : PermissionCache) (h : IsFaithful C) {x0 : C.State} {es0 : List Event} {x : C.State}
    {s : Shared} {es : List Event} {x' : C.State} {s' : Shared} (u t : Str) (ps : List Permission)
    → IsPlain t
    → h.Shows x0 nothing
    → Steps C x0 new_shared es0 x s
    → AreFine h.IsFine es0
    → (C.get u t x).0.0 ≡ none
    → ((n : ℕ) → s.asker n ≡ (u, t) → (s.flights.entries n).phase ≡ running → s.reply n ≡ none)
    → Steps C x s es x' s'
    → AreFine h.IsFine es
    → (C.get u t x').0.0 ≡ some ps
    → Given (u, t) ps es
invalidation_holds C h {x = x} {s = s} {es = es} {x' = x'} u t ps plain empty run0 fine0 gone idle
      run fine has =
    let (view, run0', shown) = interleaving_refines C h nothing run0 fine0 empty in
    let (view', run', shown') = interleaving_refines C h view run fine shown in
    let sound = Steps-Sound h.IsFine run0' fine0 new_shared-Sound in
    let absent : view u t ≡ none = sym (h.get_view u t x view plain shown) ∙ gone in
    let (all, sound', fresh) = Steps-IsFresh h.IsFine u t run' fine sound (record {
      kept = λ qs e. absurd (none_is_some (sym absent ∙ e));
      pending = λ n qs asked runs held. absurd (none_is_some (sym (idle n asked runs) ∙ held));
    }) in
    fresh.kept ps (sym (h.get_view u t x' view' plain shown') ∙ has)
  where
    none_is_some : {qs : List Permission} → ◌≡◌ {A = Slice} none (some qs) → ⊥
    none_is_some e = cc
