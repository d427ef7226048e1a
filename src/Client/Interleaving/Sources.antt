-- ===== src/Client/Interleaving/Sources.antt =====
-- helios_permissions/permission_client.go: whose permissions a call returns, in every interleaving
-- of calls, fetches, writes and invalidations.
use helios_permission_golang.Prelude.{
  ℕ, Str, Bool, none, some, inl, inr, List, [], ◌∷◌, ◌++◌, bytes, if◌then◌else◌, ◌==◌, ◌&&◌, ◌≡◌,
  refl, sym, ◌∙◌, arith, ap, ==_iff, Bool-cases,
}
use mathlib.Core.Path.{subst}
use helios_permission_golang.Permission.{Permission}
use helios_permission_golang.Cache.{Slice, elements, PermissionCache}
use helios_permission_golang.Cache.Spec.{
  View, Op, set, write_through, invalidate, invalidate_tenant, promised, set_if_absent,
}
use helios_permission_golang.Cache.Runs.{nothing}
use helios_permission_golang.Cache.Faithful.{IsFaithful, view_cache}
use helios_permission_golang.Memory.Keys.{IsPlain, split_unique}
use helios_permission_golang.Client.Coalescing.{
  Fetched, stored, closed, new_in_flight, update, wake, outcome, waiting, arrive,
}
use helios_permission_golang.Client.Coalescing.Invariant.{
  new_in_flight-Consistent, arrive-Consistent, wake-Consistent,
}
use helios_permission_golang.Client.Interleaving.{
  missed, joined, over, Shared, new_shared, join, flight_key, Event, fetched, Step, hits, misses,
  joins, fails, answers, stores, closes, removes, wakes, writes, invalidates, sweeps, Steps, rest,
  step,
}
use helios_permission_golang.Client.Interleaving.{looked, did}
use helios_permission_golang.Client.Interleaving.Fine.{AreFine, AreFine-append}
use helios_permission_golang.Client.Interleaving.Given.{
  Given, by_helios, by_write, earlier, arrive-Owned, arrive_used, arrive_others, result-outcome,
}
use helios_permission_golang.Client.Interleaving.Refines.{interleaving_refines}
use helios_permission_golang.Client.Interleaving.Sound.{
  Sound, later, viewed, called, only_called, entry_moved, removed-Sound, replied-Sound,
}

-- What the table has for a pair after a write for `u` and `t` was given for that pair if what was
-- and what was there, were.
pub at_pair :
    (u v t w : Str) (o : Slice) (old : Slice) (ps : List Permission) (es : List Event)
    → (if u == v && t == w then o else old) ≡ some ps
    → (u ≡ v → t ≡ w → o ≡ some ps → Given (v, w) ps es)
    → (old ≡ some ps → Given (v, w) ps es)
    → Given (v, w) ps es
at_pair u v t w o old ps es e now before = elim (Bool-cases (u == v && t == w)) [
  | inl same ↦
      now (ground (arith, ==_iff u v)) (ground (arith, ==_iff t w))
        (subst (λ b. (if b then o else old) ≡ some ps) same e)
  | inr other ↦ before (subst (λ b. (if b then o else old) ≡ some ps) other e)
]

set_kept :
    (es : List Event) (view : View) (u t : Str) (qs : List Permission)
    → Given (u, t) qs es
    → ((v w : Str) (ps : List Permission) → view v w ≡ some ps → Given (v, w) ps es)
    → (v w : Str) (ps : List Permission) → promised (set u t (some qs)) view v w ≡ some ps
    → Given (v, w) ps es
unfolding promised
set_kept es view u t qs given kept v w ps e =
    at_pair u v t w _ _ ps es e (absent (view v w) refl) (kept v w ps)
  where
    absent :
        (old : Slice)
        → view v w ≡ old
        → u ≡ v
        → t ≡ w
        → set_if_absent old (some qs) ≡ some ps
        → Given (v, w) ps es
    absent none was p q new = let it : qs ≡ ps = cc in rw⁻¹ (p, q, it) given
    absent (some old) was p q new = kept v w ps (was ∙ new)

written_kept :
    (es : List Event) (view : View) (u t : Str) (perms : Slice)
    → ((v w : Str) (ps : List Permission) → view v w ≡ some ps → Given (v, w) ps es)
    → (v w : Str) (ps : List Permission) → promised (write_through u t perms) view v w ≡ some ps
    → Given (v, w) ps (did (write_through u t perms) ∷ es)
unfolding promised
written_kept es view u t perms kept v w ps e =
    at_pair u v t w _ _ ps _ e
      (λ p q new. let it : elements perms ≡ ps = cc in rw⁻¹ (p, q) (by_write it))
      (λ old. earlier (kept v w ps old))

pub dropped :
    (b : Bool) (old : Slice) (ps : List Permission)
    → (if b then none else old) ≡ some ps
    → old ≡ some ps
dropped b old ps e = ground arith

hit :
    (u v t w : Str) (ps qs : List Permission) {es : List Event}
    → over u t (some ps, none) ≡ over v w (some qs, none)
    → Given (u, t) ps es
    → Given (v, w) qs es
hit u v t w ps qs e given =
    let p : u ≡ v = cc in let q : t ≡ w = cc in let r : ps ≡ qs = cc in rw⁻¹ (p, q, r) given

missed-IsPlain : (u v t w : Str) → missed u t ≡ missed v w → IsPlain t → IsPlain w
missed-IsPlain u v t w e plain = let q : t ≡ w = cc in rw⁻¹ q plain

joined-IsPlain : (u v t w : Str) → joined u t ≡ joined v w → IsPlain t → IsPlain w
joined-IsPlain u v t w e plain = let q : t ≡ w = cc in rw⁻¹ q plain

-- What a call reads from its entry was given for the pair of the call.
told :
    (es : List Event) (view : View) (s : Shared) (c : ℕ) (u t : Str) (n : ℕ) (r : Fetched)
    → IsPlain t
    → s.flights.callers c ≡ waiting (flight_key u t) n
    → outcome (s.flights.entries n).phase ≡ some r
    → Sound es view s
    → (v w : Str) (ps : List Permission) → over u t r ≡ over v w (some ps, none)
    → Given (v, w) ps es
unfolding bytes
told es view s c u t n r plain waits is_over h v w ps f =
    let (used, key) = h.consistent.waits c (flight_key u t) n waits in
    let (asked, asker_plain) = h.owned.keyed n used in
    let (same_user, same_tenant) =
      split_unique u (s.asker n).0 t (s.asker n).1 plain asker_plain (sym key ∙ asked) in
    let pu : (s.asker n).0 ≡ v = cc in
    let pt : (s.asker n).1 ≡ w = cc in
    let it : r ≡ (some ps, none) = cc in
    subst (λ x. Given (x, w) ps es) pu
      (subst (λ x. Given ((s.asker n).0, x) ps es) pt
        (h.owned.produced n ps ((result-outcome _ r is_over).0 ∙ ap some it)))

pub Step-Sound :
    (IsFine : Op → Type 0) {es : List Event} {view : View} {s : Shared} {es' : List Event}
    {view' : View} {s' : Shared}
    → Step view_cache view s es' view' s'
    → AreFine IsFine es'
    → Sound es view s
    → Sound (es' ++ es) view' s'
Step-Sound IsFine {es = es} {view = view} {s = s} (hits c u t ps out e) fine h =
    only_called (looked u t ∷ es) view s c (over u t (some ps, none)) (λ e. cc) (λ v w e. cc)
      (λ v w e. cc) (λ v w qs f. hit u v t w ps qs f (earlier (h.kept u t ps e)))
      (later (looked u t ∷ []) es view s h)
Step-Sound IsFine {es = es} {view = view} {s = s} (misses c u t out e) fine h =
    only_called (looked u t ∷ es) view s c (missed u t) (λ e. cc)
      (λ v w f. (missed-IsPlain u v t w f fine.0, h.unstarted c out)) (λ v w e. cc) (λ v w qs e. cc)
      (later (looked u t ∷ []) es view s h)
Step-Sound IsFine {es = es} {view = view} {s = s} (joins c u t at) fine h =
    unfold join in
    let here = (h.unjoined c u t at) in
    let sound = h.consistent in
    called es view s c (joined u t) (arrive c (flight_key u t) s.flights)
      (update s.flights.next (u, t) s.asker)
      (arrive-Consistent s.flights c (flight_key u t) here.1 sound)
      (arrive-Owned s.asker es s.flights c u t here.0 sound h.owned)
      (arrive_used s.asker es s.flights c u t here.0 sound h.owned)
      (arrive_others s.asker es s.flights c u t here.0 sound h.owned) (λ f. cc) (λ v w f. cc)
      (λ v w f. joined-IsPlain u v t w f here.0) (λ v w ps f. cc) h
Step-Sound IsFine {es = es} {view = view} {s = s} (fails n e at none_yet) fine h =
    entry_moved es view s n (stored (none, some e)) (rw at refl) refl (λ r' f. rw⁻¹ f (rw at refl))
      (λ ps f. cc) h
Step-Sound IsFine {es = es} {view = view} {s = s} (answers n r ps at none_yet e) fine h =
    replied-Sound (fetched (s.asker n).0 (s.asker n).1 ps ∷ es) view s n ps (rw at refl) by_helios
      (later (fetched (s.asker n).0 (s.asker n).1 ps ∷ []) es view s h)
Step-Sound IsFine {es = es} {view = view} {s = s} (stores n ps at held) fine h =
    let event = did (set (s.asker n).0 (s.asker n).1 (some ps)) in
    entry_moved (event ∷ es) _ s n (stored (some ps, none)) (rw at refl) refl
      (λ r' f. rw⁻¹ f (rw at refl))
      (λ qs f. let it : ps ≡ qs = cc in rw⁻¹ it (earlier (h.replied n ps held).1))
      (viewed (event ∷ es) view _ s
        (set_kept (event ∷ es) view (s.asker n).0 (s.asker n).1 ps (earlier (h.replied n ps held).1)
          (λ v w qs e. earlier (h.kept v w qs e)))
        (later (event ∷ []) es view s h))
Step-Sound IsFine {es = es} {view = view} {s = s} (closes n r at) fine h =
    entry_moved es view s n (closed r) (rw at refl) refl (λ r' f. ground (arith, at))
      (λ ps f. h.owned.produced n ps (rw at f)) h
Step-Sound IsFine {es = es} {view = view} {s = s} (removes n r at) fine h =
    removed-Sound es view s n r at h
Step-Sound IsFine {es = es} {view = view} {s = s} (wakes c u t n r at waits is_over) fine h =
    called es view s c (over u t r) (wake c (flight_key u t) n r s.flights) s.asker
      (wake-Consistent s.flights c (flight_key u t) n r waits is_over h.consistent)
      (unfold wake in record { keyed = h.owned.keyed; produced = h.owned.produced })
      (λ m used. (unfold wake in used, refl)) (λ d other. unfold wake in rw other refl) (λ f. cc)
      (λ v w f. cc) (λ v w f. cc)
      (λ v w ps f. told es view s c u t n r (h.named c u t at) waits is_over h v w ps f) h
Step-Sound IsFine {es = es} {view = view} {s = s} (writes u t perms) fine h =
    viewed (did (write_through u t perms) ∷ es) view _ s (written_kept es view u t perms h.kept)
      (later (did (write_through u t perms) ∷ []) es view s h)
Step-Sound IsFine {es = es} {view = view} {s = s} (invalidates u t) fine h =
    viewed (did (invalidate u t) ∷ es) view (promised (invalidate u t) view) s
      (λ v w ps e.
        earlier (h.kept v w ps (unfold promised in dropped (u == v && t == w) (view v w) ps e)))
      (later (did (invalidate u t) ∷ []) es view s h)
Step-Sound IsFine {es = es} {view = view} {s = s} (sweeps t failure view' returns) fine h =
    let it : promised (invalidate_tenant t) view ≡ view' = cc in
    viewed _ view view' s
      (λ v w ps e. earlier (
        h.kept v w ps
          (unfold promised in dropped (w == t) (view v w) ps (ap (λ (y : View). y v w) it ∙ e))))
      (later (_ ∷ []) es view s h)

pub new_shared-Sound : Sound [] nothing new_shared
unfolding new_in_flight
new_shared-Sound = record {
  consistent = unfold new_in_flight in new_in_flight-Consistent;
  owned = record { keyed = λ n e. absurd cc; produced = λ n ps e. absurd cc };
  kept = λ u t ps e. absurd cc;
  replied = λ n ps e. absurd cc;
  unstarted = λ c e. refl;
  unjoined = λ c u t e. absurd cc;
  named = λ c u t e. absurd cc;
  answered = λ c u t ps e. absurd cc;
}

pub Steps-Sound :
    (IsFine : Op → Type 0) {view : View} {s : Shared} {es : List Event} {view' : View} {s' : Shared}
    → Steps view_cache view s es view' s'
    → AreFine IsFine es
    → Sound [] view s
    → Sound es view' s'
Steps-Sound IsFine rest fine h = h
Steps-Sound IsFine (step {es = es} {es' = es'} before last) fine h =
    let (late, early) = AreFine-append IsFine es' es fine in
    Step-Sound IsFine last late (Steps-Sound IsFine before early h)

-- Over any cache that keeps the promise of the interface, empty at first, and whatever the order of
-- the calls, the replies of Helios, the statements of the fetches, the writes and the
-- invalidations, if the calls are for tenants without ":" and the writes are fine for the cache:
-- permissions that a call returned for a user and a tenant are ones that Helios answered for that
-- user and that tenant, or that were written for them.
pub answers_are_given :
    (C : PermissionCache) (h : IsFaithful C) {x : C.State} {es : List Event} {x' : C.State}
    {s : Shared} (c : ℕ) (u t : Str) (ps : List Permission)
    → h.Shows x nothing
    → Steps C x new_shared es x' s
    → AreFine h.IsFine es
    → s.calls c ≡ over u t (some ps, none)
    → Given (u, t) ps es
answers_are_given C h {x} {es} {x'} {s} c u t ps empty run fine returned =
    let (view, run', shown) = interleaving_refines C h nothing run fine empty in
    (Steps-Sound h.IsFine run' fine new_shared-Sound).answered c u t ps returned
