-- ===== src/Client/Interleaving.antt =====
-- helios_permissions/permission_client.go: any number of calls, fetches, writes and invalidations
-- at once, over one cache. A step is one call of a method of the cache, one reply of Helios, or a
-- step of `inFlight`.
pub mod Fine
pub mod Given
pub mod Sound
pub mod Sources
pub mod Refines
pub mod First
pub mod Reads
pub mod Fresh
pub mod Served
pub mod LateCalls
pub mod Invalidation
pub mod Race
pub mod Collision
pub mod Quiet
use helios_permission_golang.Prelude.{ℕ, Str, Option, none, some, List, [], ◌∷◌, ◌++◌, bytes, ◌≡◌}
use helios_permission_golang.Errors.{Error}
use helios_permission_golang.Permission.{Permission}
use helios_permission_golang.Cache.{Slice, elements, PermissionCache}
use helios_permission_golang.Cache.Spec.{Op, set, write_through, invalidate, invalidate_tenant}
use helios_permission_golang.Memory.Keys.{IsPlain}
use helios_permission_golang.Helios.{MembershipResolution}
use helios_permission_golang.Client.Sources.{answered}
use helios_permission_golang.Client.Coalescing
use helios_permission_golang.Client.Coalescing.{
  Fetched, Phase, running, stored, closed, Flights, new_in_flight, update, arrive, move, wake,
  waiting, outcome,
}

-- A call of `fetchAndCache` for a user and a tenant: not made yet, after `cache.Get` returned nil,
-- in `getOrStart`, or over.
pub data Call : Type 0 where
  outside : Call
  missed joined : Str → Str → Call
  over : Str → Str → Fetched → Call

-- What the goroutines share beside the cache. The fetch of an entry has captured the pair of
-- `asker`; after Helios answered and before `cache.Set`, it holds the permissions in `reply`.
pub record Shared : Type 0 where
  pub flights : Flights
  pub asker : ℕ → Str × Str
  pub reply : ℕ → Option (List Permission)
  pub calls : ℕ → Call

abbrev pub new_shared : Shared
new_shared = record {
  flights = new_in_flight;
  asker = λ n. ([], []);
  reply = λ n. none;
  calls = λ c. outside;
}

-- What happened: a call of `cache.Get`, permissions that Helios answered, and a call that writes.
pub data Event : Type 0 where
  looked : Str → Str → Event
  fetched : Str → Str → List Permission → Event
  did : Op → Event

-- `userID + ":" + tenantID`
abbrev pub flight_key : Str → Str → Str
flight_key u t = u ++ (bytes ":" ++ t)

-- `getOrStart`. The closure of an entry that it starts has captured the pair.
unfoldable pub join : ℕ → Str → Str → Shared → Shared
join c u t s = record s {
  flights = arrive c (flight_key u t) s.flights;
  asker = update s.flights.next (u, t) s.asker;
  calls = update c (joined u t) s.calls;
}

module _ (C : PermissionCache) where
  -- The steps from a state of the cache and the rest, with what happened.
  pub data Step (x : C.State) (s : Shared) : List Event → C.State → Shared → Type 0 where
    hits :
        (c : ℕ) (u t : Str) (ps : List Permission)
        → s.calls c ≡ outside
        → (C.get u t x).0.0 ≡ some ps
        → Step x s
            (looked u t ∷ [])
            (C.get u t x).1
            (record s { calls = update c (over u t (some ps, none)) s.calls })
    misses :
        (c : ℕ) (u t : Str)
        → s.calls c ≡ outside
        → (C.get u t x).0.0 ≡ none
        → Step x s
            (looked u t ∷ [])
            (C.get u t x).1
            (record s { calls = update c (missed u t) s.calls })
    joins : (c : ℕ) (u t : Str) → s.calls c ≡ missed u t → Step x s [] x (join c u t s)
    fails :
        (n : ℕ) (e : Error)
        → (s.flights.entries n).phase ≡ running
        → s.reply n ≡ none
        → Step x s [] x (record s { flights = move n (stored (none, some e)) s.flights })
    answers :
        (n : ℕ) (r : Option MembershipResolution × Option Error) (ps : List Permission)
        → (s.flights.entries n).phase ≡ running
        → s.reply n ≡ none
        → answered r ≡ (some ps, none)
        → Step x s
            (fetched (s.asker n).0 (s.asker n).1 ps ∷ [])
            x
            (record s { reply = update n (some ps) s.reply })
    stores :
        (n : ℕ) (ps : List Permission)
        → (s.flights.entries n).phase ≡ running
        → s.reply n ≡ some ps
        → Step x s
            (did (set (s.asker n).0 (s.asker n).1 (some ps)) ∷ [])
            (C.set (s.asker n).0 (s.asker n).1 (some ps) x).1
            (record s { flights = move n (stored (some ps, none)) s.flights })
    closes :
        (n : ℕ) (r : Fetched)
        → (s.flights.entries n).phase ≡ stored r
        → Step x s [] x (record s { flights = move n (closed r) s.flights })
    removes :
        (n : ℕ) (r : Fetched)
        → (s.flights.entries n).phase ≡ closed r
        → Step x s [] x (record s { flights = Coalescing.remove n r s.flights })
    wakes :
        (c : ℕ) (u t : Str) (n : ℕ) (r : Fetched)
        → s.calls c ≡ joined u t
        → s.flights.callers c ≡ waiting (flight_key u t) n
        → outcome (s.flights.entries n).phase ≡ some r
        → Step x s [] x (record s {
          flights = wake c (flight_key u t) n r s.flights;
          calls = update c (over u t r) s.calls;
        })
    writes :
        (u t : Str) (perms : Slice)
        → Step x s (did (write_through u t perms) ∷ []) (C.write_through u t perms x).1 s
    invalidates : (u t : Str) → Step x s (did (invalidate u t) ∷ []) (C.invalidate u t x).1 s
    sweeps :
        (t : Str) (failure : Option Error) (x' : C.State)
        → C.invalidate_tenant t x ≡ some (failure, x')
        → Step x s (did (invalidate_tenant t) ∷ []) x' s

  -- Any number of steps, with all that happened, the last first.
  pub data Steps (x : C.State) (s : Shared) : List Event → C.State → Shared → Type 0 where
    rest : Steps x s [] x s
    step :
        {es : List Event} {x' : C.State} {s' : Shared} {es' : List Event} {x'' : C.State}
        {s'' : Shared}
        → Steps x s es x' s'
        → Step x' s' es' x'' s''
        → Steps x s (es' ++ es) x'' s''
