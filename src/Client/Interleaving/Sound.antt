-- ===== src/Client/Interleaving/Sound.antt =====
-- helios_permissions/permission_client.go: what every interleaving of calls, fetches, writes and
-- invalidations keeps, over the table that the interface promises.
use helios_permission_golang.Prelude.{
  ℕ, Str, true, false, none, some, inl, inr, List, ◌++◌, nat_eq, ◌≡◌, ◌≢◌, refl, sym, ◌∙◌, arith,
}
use helios_permission_golang.Permission.{Permission}
use helios_permission_golang.Cache.Spec.{View}
use helios_permission_golang.Memory.Keys.{IsPlain}
use helios_permission_golang.Client.Coalescing
use helios_permission_golang.Client.Coalescing.{
  Fetched, Phase, running, stored, closed, new_in_flight, update, move, remove, wake, outcome,
  waiting, arrive,
}
use helios_permission_golang.Client.Coalescing.Invariant.{
  is_used, Consistent, move-Consistent, remove-Consistent, is_live,
}
use helios_permission_golang.Client.Interleaving.{
  Call, outside, missed, joined, over, Shared, Event,
}
use helios_permission_golang.Client.Interleaving.Given.{
  Given, Given-append, Owned, result, update-cases, move-Owned, remove-Owned,
}

-- What is in the cache, in a reply, or returned by a call, was given for its pair. A call that is
-- not yet in `inFlight` does not wait there.
pub record Sound (es : List Event) (view : View) (s : Shared) : Type 0 where
  pub consistent : Consistent s.flights
  pub owned : Owned s.asker s.flights es
  pub kept : (u t : Str) (ps : List Permission) → view u t ≡ some ps → Given (u, t) ps es
  pub replied :
      (n : ℕ) (ps : List Permission)
      → s.reply n ≡ some ps
      → (is_used (s.flights.entries n).phase ≡ true) × Given (s.asker n) ps es
  pub unstarted : (c : ℕ) → s.calls c ≡ outside → s.flights.callers c ≡ Coalescing.outside
  pub unjoined :
      (c : ℕ) (u t : Str)
      → s.calls c ≡ missed u t
      → IsPlain t × (s.flights.callers c ≡ Coalescing.outside)
  pub named : (c : ℕ) (u t : Str) → s.calls c ≡ joined u t → IsPlain t
  pub answered :
      (c : ℕ) (u t : Str) (ps : List Permission)
      → s.calls c ≡ over u t (some ps, none)
      → Given (u, t) ps es

pub later :
    (es' es : List Event) (view : View) (s : Shared) → Sound es view s → Sound (es' ++ es) view s
later es' es view s h = record {
  consistent = h.consistent;
  owned = record {
    keyed = h.owned.keyed;
    produced = λ n ps e. Given-append (s.asker n) ps es' es (h.owned.produced n ps e);
  };
  kept = λ u t ps e. Given-append (u, t) ps es' es (h.kept u t ps e);
  replied =
      λ n ps e. ((h.replied n ps e).0, Given-append (s.asker n) ps es' es (h.replied n ps e).1);
  unstarted = h.unstarted;
  unjoined = h.unjoined;
  named = h.named;
  answered = λ c u t ps e. Given-append (u, t) ps es' es (h.answered c u t ps e);
}

-- A step that only moves an entry in use.
pub moved :
    (es : List Event) (view : View) (s : Shared) (flights : Coalescing.Flights)
    → Consistent flights
    → Owned s.asker flights es
    → ((m : ℕ)
        → is_used (s.flights.entries m).phase ≡ true
        → is_used (flights.entries m).phase ≡ true)
    → ((c : ℕ) → flights.callers c ≡ s.flights.callers c)
    → Sound es view s
    → Sound es view (record s { flights = flights })
moved es view s flights consistent owned used same h = record {
  consistent = consistent;
  owned = owned;
  kept = h.kept;
  replied = λ m ps e. (used m (h.replied m ps e).0, (h.replied m ps e).1);
  unstarted = λ c e. same c ∙ h.unstarted c e;
  unjoined = λ c u t e. ((h.unjoined c u t e).0, same c ∙ (h.unjoined c u t e).1);
  named = h.named;
  answered = h.answered;
}

-- A change of the table.
pub viewed :
    (es : List Event) (view view' : View) (s : Shared)
    → ((u t : Str) (ps : List Permission) → view' u t ≡ some ps → Given (u, t) ps es)
    → Sound es view s
    → Sound es view' s
viewed es view view' s kept h = record {
  consistent = h.consistent;
  owned = h.owned;
  kept = kept;
  replied = h.replied;
  unstarted = h.unstarted;
  unjoined = h.unjoined;
  named = h.named;
  answered = h.answered;
}

-- The call `c` goes on to `k`, where `flights` may differ for `c` and for entries not in use.
pub called :
    (es : List Event) (view : View) (s : Shared) (c : ℕ) (k : Call) (flights : Coalescing.Flights)
    (asker : ℕ → Str × Str)
    → Consistent flights
    → Owned asker flights es
    → ((n : ℕ)
        → is_used (s.flights.entries n).phase ≡ true
        → (is_used (flights.entries n).phase ≡ true) × (asker n ≡ s.asker n))
    → ((d : ℕ) → nat_eq d c ≡ false → flights.callers d ≡ s.flights.callers d)
    → k ≢ outside
    → ((u t : Str) → k ≡ missed u t → IsPlain t × (flights.callers c ≡ Coalescing.outside))
    → ((u t : Str) → k ≡ joined u t → IsPlain t)
    → ((u t : Str) (ps : List Permission) → k ≡ over u t (some ps, none) → Given (u, t) ps es)
    → Sound es view s
    → Sound es view
        (record { flights = flights; asker = asker; reply = s.reply; calls = update c k s.calls })
called es view s c k flights asker consistent owned used others away missing joining giving h =
    record {
      consistent = consistent;
      owned = owned;
      kept = h.kept;
      replied =
          λ n ps e. let (is, given) = h.replied n ps e in ((used n is).0, rw (used n is).1 given);
      unstarted = λ d e. elim (update-cases c d k s.calls) [
        | inl (same, now) ↦ absurd (away (sym now ∙ e))
        | inr (other, before) ↦ others d other ∙ h.unstarted d (sym before ∙ e)
      ];
      unjoined = λ d u t e. elim (update-cases c d k s.calls) [
        | inl (same, now) ↦ rw⁻¹ same (missing u t (sym now ∙ e))
        | inr (other, before) ↦
            let (plain, out) = h.unjoined d u t (sym before ∙ e) in (plain, others d other ∙ out)
      ];
      named = λ d u t e. elim (update-cases c d k s.calls) [
        | inl (same, now) ↦ joining u t (sym now ∙ e)
        | inr (other, before) ↦ h.named d u t (sym before ∙ e)
      ];
      answered = λ d u t ps e. elim (update-cases c d k s.calls) [
        | inl (same, now) ↦ giving u t ps (sym now ∙ e)
        | inr (other, before) ↦ h.answered d u t ps (sym before ∙ e)
      ];
    }

-- `called` where only the call changes.
pub only_called :
    (es : List Event) (view : View) (s : Shared) (c : ℕ) (k : Call)
    → k ≢ outside
    → ((u t : Str) → k ≡ missed u t → IsPlain t × (s.flights.callers c ≡ Coalescing.outside))
    → ((u t : Str) → k ≡ joined u t → IsPlain t)
    → ((u t : Str) (ps : List Permission) → k ≡ over u t (some ps, none) → Given (u, t) ps es)
    → Sound es view s
    → Sound es view (record s { calls = update c k s.calls })
only_called es view s c k away missing joining giving h =
    called es view s c k s.flights s.asker h.consistent h.owned (λ n e. (e, refl)) (λ d e. refl)
      away missing joining giving h

-- An entry goes on to another phase.
pub entry_moved :
    (es : List Event) (view : View) (s : Shared) (n : ℕ) (p : Phase)
    → is_live (s.flights.entries n).phase ≡ true
    → is_live p ≡ true
    → ((r : Fetched) → outcome (s.flights.entries n).phase ≡ some r → outcome p ≡ some r)
    → ((ps : List Permission) → result p ≡ some (some ps, none) → Given (s.asker n) ps es)
    → Sound es view s
    → Sound es view (record s { flights = move n p s.flights })
entry_moved es view s n p was is keeps given h =
    moved es view s (move n p s.flights) (move-Consistent s.flights n p was is keeps h.consistent)
      (move-Owned s.asker es s.flights n p (live_used _ was) given h.owned)
      (λ m used. unfold move in ground (arith, live_used p)) (λ c. unfold move in refl) h
  where
    live_used : (q : Phase) → is_live q ≡ true → is_used q ≡ true
    live_used q e = ground arith

pub removed-Sound :
    (es : List Event) (view : View) (s : Shared) (n : ℕ) (r : Fetched)
    → (s.flights.entries n).phase ≡ closed r
    → Sound es view s
    → Sound es view (record s { flights = remove n r s.flights })
removed-Sound es view s n r at h =
    moved es view s (remove n r s.flights) (remove-Consistent s.flights n r at h.consistent)
      (remove-Owned s.asker es s.flights n r at h.owned)
      (λ m used. unfold move remove in ground arith) (λ c. unfold move remove in refl) h

-- The fetch of an entry got an answer.
pub replied-Sound :
    (es : List Event) (view : View) (s : Shared) (n : ℕ) (ps : List Permission)
    → is_used (s.flights.entries n).phase ≡ true
    → Given (s.asker n) ps es
    → Sound es view s
    → Sound es view (record s { reply = update n (some ps) s.reply })
replied-Sound es view s n ps used given h = record {
  consistent = h.consistent;
  owned = h.owned;
  kept = h.kept;
  replied = λ m qs e. elim (update-cases n m (some ps) s.reply) [
    | inl (same, now) ↦ let it : ps ≡ qs = cc in (rw⁻¹ same used, rw⁻¹ (same, it) given)
    | inr (other, before) ↦ h.replied m qs (sym before ∙ e)
  ];
  unstarted = h.unstarted;
  unjoined = h.unjoined;
  named = h.named;
  answered = h.answered;
}
