-- ===== src/Client/Interleaving/LateCalls.antt =====
-- helios_permissions/permission_client.go: what the calls return that are made after a pair has left
-- the cache, as after an invalidation.
use helios_permission_golang.Prelude.{
  ℕ, Str, true, Bool, false, none, some, List, [], ◌∷◌, ◌++◌, bytes, ◌≡◌, refl, sym, ◌∙◌, ap, arith,
}
use helios_permission_golang.Permission.{Permission}
use helios_permission_golang.Cache.{Slice, PermissionCache}
use helios_permission_golang.Cache.Spec.{
  View, Op, set, write_through, invalidate, invalidate_tenant,
}
use helios_permission_golang.Cache.Runs.{nothing}
use helios_permission_golang.Cache.Faithful.{IsFaithful, view_cache}
use helios_permission_golang.Memory.Keys.{IsPlain, split_unique}
use helios_permission_golang.Client.Coalescing.{
  Fetched, Phase, running, stored, closed, update, wake, outcome, waiting, returned,
}
use helios_permission_golang.Client.Coalescing.Invariant.{is_live}
use helios_permission_golang.Client.Interleaving.{
  Call, outside, over, missed, joined, Shared, new_shared, flight_key, Event, looked, fetched, did,
  Step, hits, misses, joins, fails, answers, stores, closes, removes, wakes, writes, invalidates,
  sweeps, Steps, rest, step,
}
use helios_permission_golang.Client.Interleaving.Fine.{AreFine, AreFine-append}
use helios_permission_golang.Client.Interleaving.Given.{Given, earlier, result, result-outcome}
use helios_permission_golang.Client.Interleaving.Refines.{interleaving_refines}
use helios_permission_golang.Client.Interleaving.Sound.{Sound}
use helios_permission_golang.Client.Interleaving.Sources.{Step-Sound, Steps-Sound, new_shared-Sound}
use helios_permission_golang.Client.Interleaving.Fresh.{IsFresh}
use helios_permission_golang.Client.Interleaving.Invalidation.{Step-IsFresh}
use helios_permission_golang.Client.Interleaving.Served.{
  is_removed, IsServed, later-IsServed, calls-IsServed, moves-IsServed, remove-IsServed,
  joins-IsServed,
}

-- A call waits for an entry whose fetch is for its pair.
asker_of :
    (es : List Event) (view : View) (s : Shared) (c : ℕ) (u t : Str) (n : ℕ)
    → Sound es view s
    → IsPlain t
    → s.flights.callers c ≡ waiting (flight_key u t) n
    → s.asker n ≡ (u, t)
unfolding bytes
asker_of es view s c u t n h plain waits =
    let (used, key) = h.consistent.waits c (flight_key u t) n waits in
    let (asked, asker_plain) = h.owned.keyed n used in
    let (same_user, same_tenant) =
      split_unique u (s.asker n).0 t (s.asker n).1 plain asker_plain (sym key ∙ asked) in
    λ i. (sym same_user i, sym same_tenant i)

module _ (u t : Str) (calls0 : ℕ → Call) (old : ℕ → Bool) where
  woken :
      {all es : List Event} {view : View} {s : Shared} (c : ℕ) (v w : Str) (n : ℕ) (r : Fetched)
      → Sound all view s
      → IsServed u t calls0 old es s
      → s.calls c ≡ joined v w
      → s.flights.callers c ≡ waiting (flight_key v w) n
      → outcome (s.flights.entries n).phase ≡ some r
      → (ps : List Permission) → calls0 c ≡ outside
      → over v w r ≡ over u t (some ps, none)
      → Given (u, t) ps es
  woken {all} {es} {view} {s} c v w n r sound h at waits is_over ps start e =
      let p : v ≡ u = cc in
      let q : w ≡ t = cc in
      let it : r ≡ (some ps, none) = cc in
      let here : s.calls c ≡ joined u t = rw⁻¹ (p, q) at in
      let wait : s.flights.callers c ≡ waiting (flight_key u t) n = rw⁻¹ (p, q) waits in
      h.produced n ps (h.waits c n start here wait)
        (asker_of all view s c u t n sound (sound.named c u t here) wait)
        ((result-outcome _ r is_over).0 ∙ ap some it)

  Step-IsServed :
      {all es : List Event} {view : View} {s : Shared} {es' : List Event} {view' : View}
      {s' : Shared}
      → Step view_cache view s es' view' s'
      → Sound all view s
      → IsFresh u t es view s
      → IsServed u t calls0 old es s
      → IsServed u t calls0 old (es' ++ es) s'
  Step-IsServed {es = es} {view = view} {s = s} (hits c v w ps out e) sound fresh h =
      calls-IsServed u t calls0 old es s h (looked v w ∷ []) c (over v w (some ps, none)) (λ f. cc)
        (λ qs start f. hit v w ps qs f e) s.flights.callers (λ d other. refl)
    where
      hit :
          (v w : Str) (ps qs : List Permission)
          → over v w (some ps, none) ≡ over u t (some qs, none)
          → view v w ≡ some ps
          → Given (u, t) qs (looked v w ∷ es)
      hit v w ps qs f e =
          let p : v ≡ u = cc in
          let q : w ≡ t = cc in let it : ps ≡ qs = cc in earlier (fresh.kept qs (rw⁻¹ (p, q, it) e))
  Step-IsServed {es = es} {s = s} (misses c v w out e) sound fresh h =
      calls-IsServed u t calls0 old es s h (looked v w ∷ []) c (missed v w) (λ f. cc)
        (λ qs start f. absurd cc) s.flights.callers (λ d other. refl)
  Step-IsServed {all} {es} {view} {s} (joins c v w at) sound fresh h =
      joins-IsServed u t calls0 old es s h c v w all view sound (sound.unjoined c v w at).0
  Step-IsServed {es = es} {s = s} (fails n e at none_yet) sound fresh h =
      moves-IsServed u t calls0 old es s h [] n (stored (none, some e)) (rw at refl)
        (λ ps new asked f. absurd cc)
  Step-IsServed {es = es} {s = s} (answers n r ps at none_yet e) sound fresh h =
      later-IsServed u t calls0 old es s h (fetched (s.asker n).0 (s.asker n).1 ps)
        (update n (some ps) s.reply)
  Step-IsServed {es = es} {s = s} (stores n ps at held) sound fresh h =
      moves-IsServed u t calls0 old es s h (did (set (s.asker n).0 (s.asker n).1 (some ps)) ∷ []) n
        (stored (some ps, none)) (rw at refl)
        (λ qs new asked f.
          let it : ps ≡ qs = cc in rw⁻¹ it (earlier (fresh.pending n ps asked at held)))
  Step-IsServed {es = es} {s = s} (closes n r at) sound fresh h =
      moves-IsServed u t calls0 old es s h [] n (closed r) (rw at refl)
        (λ ps new asked f. h.produced n ps new asked (rw at f))
  Step-IsServed {es = es} {s = s} (removes n r at) sound fresh h =
      remove-IsServed u t calls0 old es s h n r at
  Step-IsServed {es = es} {s = s} (wakes c v w n r at waits is_over) sound fresh h =
      unfold wake in
      calls-IsServed u t calls0 old es s h [] c (over v w r) (λ f. cc)
        (woken c v w n r sound h at waits is_over)
        (update c (returned (flight_key v w) n r) s.flights.callers) (λ d other. rw other refl)
  Step-IsServed {es = es} {s = s} (writes v w perms) sound fresh h =
      later-IsServed u t calls0 old es s h (did (write_through v w perms)) s.reply
  Step-IsServed {es = es} {s = s} (invalidates v w) sound fresh h =
      later-IsServed u t calls0 old es s h (did (invalidate v w)) s.reply
  Step-IsServed {es = es} {s = s} (sweeps w failure view' returns) sound fresh h =
      later-IsServed u t calls0 old es s h (did (invalidate_tenant w)) s.reply

  Steps-IsServed :
      (IsFine : Op → Type 0) {all : List Event} {view : View} {s : Shared} {es : List Event}
      {view' : View} {s' : Shared}
      → Steps view_cache view s es view' s'
      → AreFine IsFine es
      → Sound all view s
      → IsFresh u t [] view s
      → IsServed u t calls0 old [] s
      → (all' : List Event) × Sound all' view' s'
        × IsFresh u t es view' s'
        × IsServed u t calls0 old es s'
  Steps-IsServed IsFine {all} rest fine sound fresh h = (all, sound, fresh, h)
  Steps-IsServed IsFine (step {es = es} {es' = es'} before last) fine sound fresh h =
      let (late, early) = AreFine-append IsFine es' es fine in
      let (all', sound', fresh', h') = Steps-IsServed IsFine before early sound fresh h in
      (
        _,
        Step-Sound IsFine last late sound',
        Step-IsFresh IsFine u t last sound' fresh',
        Step-IsServed last sound' fresh' h',
      )

live_if_fetched :
    (p : Phase) (r : Fetched) → is_removed p ≡ false → result p ≡ some r → is_live p ≡ true
live_if_fetched p r there e = ground arith

none_is_some : {ps : List Permission} → ◌≡◌ {A = Slice} none (some ps) → ⊥
none_is_some e = cc

running_fetched : {p : Phase} {r : Fetched} → p ≡ running → result p ≡ some r → ⊥
running_fetched {p} {r} runs e = ground arith

-- Over any cache that keeps the promise of the interface, empty at first, and after any
-- interleaving of calls for tenants without ":" and writes that are fine for the cache: if the cache
-- then has nothing for a user and a tenant without ":", as after an invalidation, and Helios has not
-- yet answered any fetch for that pair that is in the map of `inFlight`, then however the calls,
-- fetches, writes and invalidations go on, permissions that a call returns for the pair which had
-- not been made by then are ones that Helios answered for it, or that were written for it, since.
pub late_calls_are_given :
    (C : PermissionCache) (h : IsFaithful C) {x0 : C.State} {es0 : List Event} {x : C.State}
    {s : Shared} {es : List Event} {x' : C.State} {s' : Shared} (u t : Str) (c : ℕ)
    (ps : List Permission)
    → IsPlain t
    → h.Shows x0 nothing
    → Steps C x0 new_shared es0 x s
    → AreFine h.IsFine es0
    → (C.get u t x).0.0 ≡ none
    → ((n : ℕ)
        → s.asker n ≡ (u, t)
        → is_live (s.flights.entries n).phase ≡ true
        → ((s.flights.entries n).phase ≡ running) × (s.reply n ≡ none))
    → s.calls c ≡ outside
    → Steps C x s es x' s'
    → AreFine h.IsFine es
    → s'.calls c ≡ over u t (some ps, none)
    → Given (u, t) ps es
late_calls_are_given C h {x = x} {s = s} u t c ps plain empty run0 fine0 gone idle out run fine e =
    let (view, run0', shown) = interleaving_refines C h nothing run0 fine0 empty in
    let (view', run', shown') = interleaving_refines C h view run fine shown in
    let sound = Steps-Sound h.IsFine run0' fine0 new_shared-Sound in
    let absent : view u t ≡ none = sym (h.get_view u t x view plain shown) ∙ gone in
    let fresh : IsFresh u t [] view s = record {
      kept = λ qs e. absurd (none_is_some (sym absent ∙ e));
      pending = λ n qs asked runs held.
          absurd (none_is_some (sym (idle n asked (rw runs refl)).1 ∙ held));
    } in
    let served : IsServed u t s.calls (λ n. is_removed (s.flights.entries n).phase) [] s = record {
      gone = λ n e. e;
      produced = λ n qs there asked e.
          absurd (running_fetched (idle n asked (live_if_fetched _ _ there e)).0 e);
      waits = λ d n start at wait. absurd (not_both (sym start ∙ at));
      returns = λ d qs start at. absurd (not_both' (sym start ∙ at));
    } in
    let (all, sound', fresh', after) =
      Steps-IsServed u t s.calls _ h.IsFine run' fine sound fresh served in
    after.returns c ps out e
  where
    not_both : outside ≡ joined u t → ⊥
    not_both e = cc

    not_both' : {r : Fetched} → outside ≡ over u t r → ⊥
    not_both' e = cc
