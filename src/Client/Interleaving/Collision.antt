-- ===== src/Client/Interleaving/Collision.antt =====
-- helios_permissions/permission_client.go: the key of `inFlight` where an identifier has a ":".
use helios_permission_golang.Prelude.{
  Str, true, Option, none, some, List, [], ◌∷◌, ◌++◌, bytes, lookup, insert, ◌==◌, ==_iff, ◌≡◌,
  refl, ◌∙◌, ap,
}
use mathlib.Core.List.{append_assoc}
use mathlib.Core.Path.{subst}
use helios_permission_golang.Errors.{Error}
use helios_permission_golang.Permission.{Permission}
use helios_permission_golang.Cache.{PermissionCache}
use helios_permission_golang.Cache.Spec.{set}
use helios_permission_golang.Helios.{MembershipResolution}
use helios_permission_golang.Client.Sources.{answered}
use helios_permission_golang.Client.Coalescing.{new_in_flight, update, arrive, enter, move, wake}
use helios_permission_golang.Client.Interleaving.{
  missed, joined, over, Shared, new_shared, flight_key, join, looked, fetched, did, misses, joins,
  answers, stores, closes, wakes, Steps, rest, step,
}

shared_key :
    (u v t : Str) → flight_key (u ++ (bytes ":" ++ v)) t ≡ flight_key u (v ++ (bytes ":" ++ t))
shared_key u v t =
    append_assoc u (bytes ":" ++ v) (bytes ":" ++ t)
    ∙ ap (λ x. u ++ x) (append_assoc (bytes ":") v (bytes ":" ++ t))

-- Two pairs with one key, of which both calls missed, and then both asked `inFlight`.
module _ (u t v w : Str) (same : flight_key u t ≡ flight_key v w) where
  abbrev both_missed : Shared
  both_missed = record new_shared {
    calls = update 1 (missed v w) (update 0 (missed u t) new_shared.calls);
  }

  abbrev first_waits : Shared
  first_waits = join 0 u t both_missed

  -- The second call waits for the fetch of the first.
  abbrev both_wait : Shared
  both_wait = record {
    flights = enter 1 (flight_key v w) (some 0) first_waits.flights;
    asker = update 1 (v, w) first_waits.asker;
    reply = first_waits.reply;
    calls = update 1 (joined v w) first_waits.calls;
  }

  joins_first : join 1 v w first_waits ≡ both_wait
  unfolding join arrive new_in_flight lookup insert
  joins_first =
      let is : (flight_key u t == flight_key v w) ≡ true = (==_iff _ _).1 same in rw is refl

  module _ (C : PermissionCache) (x : C.State) where
    abbrev looked_at : C.State
    looked_at = (C.get v w (C.get u t x).1).1

    to_both_wait :
        (C.get u t x).0.0 ≡ none
        → (C.get v w (C.get u t x).1).0.0 ≡ none
        → Steps C x new_shared (looked v w ∷ looked u t ∷ []) looked_at both_wait
    to_both_wait miss miss' =
        subst (λ s. Steps C x new_shared (looked v w ∷ looked u t ∷ []) looked_at s) joins_first
          (step
            (step (step (step rest (misses 0 u t refl miss)) (misses 1 v w refl miss'))
              (joins 0 u t refl))
            (joins 1 v w (unfold join in refl)))

    -- The fetch of the first pair answers the call for the second.
    shares :
        (r : Option MembershipResolution × Option Error) (ps : List Permission)
        → (C.get u t x).0.0 ≡ none
        → (C.get v w (C.get u t x).1).0.0 ≡ none
        → answered r ≡ (some ps, none)
        → (s : Shared) × Steps C x new_shared
            (did (set u t (some ps)) ∷ fetched u t ps ∷ looked v w ∷ looked u t ∷ [])
            (C.set u t (some ps) looked_at).1
            s
          × (s.calls 1 ≡ over v w (some ps, none))
    unfolding join arrive new_in_flight lookup insert move wake
    shares r ps miss miss' e = (
      _,
      step
          (step
            (step (step (to_both_wait miss miss') (answers 0 r ps refl refl e))
              (stores 0 ps refl refl))
            (closes 0 (some ps, none) refl))
          (wakes 1 v w 0 (some ps, none) refl refl refl),
      refl,
    )

-- Over any cache that has nothing for two pairs whose keys meet, the user "u:v" of the tenant `t`
-- and the user `u` of the tenant "v:t": in some interleaving Helios is asked for the first pair
-- alone, and the call for the second returns what it answered for the first.
pub colon_joins_fetches :
    (C : PermissionCache) (x : C.State) (u v t : Str)
    (r : Option MembershipResolution × Option Error) (ps : List Permission)
    → (C.get (u ++ (bytes ":" ++ v)) t x).0.0 ≡ none
    → (C.get u (v ++ (bytes ":" ++ t)) (C.get (u ++ (bytes ":" ++ v)) t x).1).0.0 ≡ none
    → answered r ≡ (some ps, none)
    → (x' : C.State) × (s : Shared) × Steps C x new_shared
        (did (set (u ++ (bytes ":" ++ v)) t (some ps))
          ∷ fetched (u ++ (bytes ":" ++ v)) t ps
          ∷ looked u (v ++ (bytes ":" ++ t))
          ∷ looked (u ++ (bytes ":" ++ v)) t
          ∷ [])
        x'
        s
      × (s.calls 1 ≡ over u (v ++ (bytes ":" ++ t)) (some ps, none))
colon_joins_fetches C x u v t r ps miss miss' e =
    let (s, run, returned) =
      shares (u ++ (bytes ":" ++ v)) t u (v ++ (bytes ":" ++ t)) (shared_key u v t) C x r ps miss
        miss' e in
    (_, s, run, returned)
