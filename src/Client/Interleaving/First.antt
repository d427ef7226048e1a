-- ===== src/Client/Interleaving/First.antt =====
-- helios_permissions/permission_client.go: the interleavings of a first call that misses.
use helios_permission_golang.Prelude.{Str, Option, none, some, List, [], ◌∷◌, lookup, ◌≡◌, refl}
use helios_permission_golang.Errors.{Error}
use helios_permission_golang.Permission.{Permission}
use helios_permission_golang.Cache.{PermissionCache}
use helios_permission_golang.Cache.Spec.{set}
use helios_permission_golang.Helios.{MembershipResolution}
use helios_permission_golang.Client.Sources.{answered}
use helios_permission_golang.Client.Coalescing
use helios_permission_golang.Client.Coalescing.{
  Fetched, running, stored, closed, new_in_flight, update, arrive, move, remove, wake, waiting,
  outcome,
}
use helios_permission_golang.Client.Interleaving.{
  missed, joined, over, looked, did, Shared, new_shared, flight_key, join, Event, fetched, misses,
  joins, fails, answers, stores, closes, removes, wakes, Steps, rest, step,
}

module _ (C : PermissionCache) (u t : Str) where
  abbrev miss : Shared
  miss = record new_shared { calls = update 0 (missed u t) new_shared.calls }

  -- The call waits for the fetch that it started.
  unfoldable pub asked : Shared
  asked = join 0 u t miss

  -- Helios has answered.
  unfoldable pub replied : List Permission → Shared
  unfolding asked
  replied ps = record asked { reply = update 0 (some ps) asked.reply }

  -- The statements after the fetch.
  unfoldable pub finished : Shared → Fetched → Shared
  finished s r =
      let shut = move 0 (closed r) (move 0 (stored r) s.flights) in
      record s {
        flights = wake 0 (flight_key u t) 0 r (remove 0 r shut);
        calls = update 0 (over u t r) s.calls;
      }

  module _ (x : C.State) (nothing_there : (C.get u t x).0.0 ≡ none) where
    asks : Steps C x new_shared (looked u t ∷ []) (C.get u t x).1 asked
    unfolding asked
    asks = step (step rest (misses 0 u t refl nothing_there)) (joins 0 u t refl)

    -- Helios answers the call.
    pub gets_reply :
        (r : Option MembershipResolution × Option Error) (ps : List Permission)
        → answered r ≡ (some ps, none)
        → Steps C x new_shared (fetched u t ps ∷ looked u t ∷ []) (C.get u t x).1 (replied ps)
    unfolding asked replied join new_in_flight arrive lookup
    gets_reply r ps e = step (unfold asked in asks) (answers 0 r ps refl refl e)

    stored_phase :
        (r : Fetched) (f : Coalescing.Flights) → ((move 0 (stored r) f).entries 0).phase ≡ stored r
    unfolding move
    stored_phase r f = refl

    closed_phase :
        (r : Fetched) (f : Coalescing.Flights) → ((move 0 (closed r) f).entries 0).phase ≡ closed r
    unfolding move
    closed_phase r f = refl

    removed_outcome :
        (r : Fetched) (f : Coalescing.Flights) → outcome ((remove 0 r f).entries 0).phase ≡ some r
    unfolding remove move
    removed_outcome r f = refl

    unfoldable after_stored : Shared → Fetched → Shared
    after_stored s r = record s { flights = move 0 (stored r) s.flights }

    -- The statements after a fetch that has returned.
    ends :
        (s : Shared) (es : List Event) (x' : C.State) (r : Fetched)
        → s.calls 0 ≡ joined u t
        → s.flights.callers 0 ≡ waiting (flight_key u t) 0
        → Steps C x new_shared es x' (after_stored s r)
        → Steps C x new_shared es x' (finished s r)
    unfolding finished after_stored
    ends s es x' r at waits before =
        step
          (step (step before (closes 0 r (stored_phase r s.flights)))
            (removes 0 r (closed_phase r (move 0 (stored r) s.flights))))
          (wakes 0 u t 0 r at (unfold remove move in waits)
            (removed_outcome r (move 0 (closed r) (move 0 (stored r) s.flights))))

    -- Helios fails, and the call returns the error.
    pub fails_over :
        (e : Error)
        → Steps C x new_shared (looked u t ∷ []) (C.get u t x).1 (finished asked (none, some e))
    unfolding asked join new_in_flight arrive lookup after_stored
    fails_over e =
        ends asked (looked u t ∷ []) (C.get u t x).1 (none, some e) refl refl
          (step (unfold asked in asks) (fails 0 e refl refl))

    -- Helios answers, the answer is stored, and the call returns it.
    pub answers_over :
        (r : Option MembershipResolution × Option Error) (ps : List Permission)
        → answered r ≡ (some ps, none)
        → Steps C x new_shared
            (did (set u t (some ps)) ∷ fetched u t ps ∷ looked u t ∷ [])
            (C.set u t (some ps) (C.get u t x).1).1
            (finished (replied ps) (some ps, none))
    unfolding asked replied join new_in_flight arrive lookup after_stored
    answers_over r ps e =
        ends (replied ps) (did (set u t (some ps)) ∷ fetched u t ps ∷ looked u t ∷ [])
          (C.set u t (some ps) (C.get u t x).1).1 (some ps, none) refl refl
          (step (gets_reply r ps e) (stores 0 ps refl refl))

    pub finished_call : (s : Shared) (r : Fetched) → (finished s r).calls 0 ≡ over u t r
    unfolding finished
    finished_call s r = refl
