-- ===== src/Client/Interleaving/Race.antt =====
-- helios_permissions/permission_client.go: an invalidation that comes between the reply of Helios and
-- `cache.Set`.
use helios_permission_golang.Prelude.{Str, none, some, [], ◌∷◌, lookup, ◌≡◌, refl, ◌∙◌, ==-self}
use helios_permission_golang.Cache.{PermissionCache}
use helios_permission_golang.Cache.Spec.{View, set, invalidate, promised}
use helios_permission_golang.Cache.Faithful.{IsFaithful}
use helios_permission_golang.Helios.{MembershipResolution}
use helios_permission_golang.Memory.Keys.{IsPlain}
use helios_permission_golang.Client.Sources.{answer, answered}
use helios_permission_golang.Client.Coalescing.{new_in_flight, arrive}
use helios_permission_golang.Client.Interleaving.{
  Shared, new_shared, join, looked, fetched, did, stores, invalidates, Steps, step,
}
use helios_permission_golang.Client.Interleaving.First.{asked, replied, gets_reply}
use helios_permission_golang.Client.Interleaving.Refines.{set-Shows, invalidate-Shows}

module _ (C : PermissionCache) (h : IsFaithful C) (x : C.State) (view : View) (u t : Str) where
  open h use {IsFine}

  -- Over any cache that keeps the promise of the interface, for a pair that it has nothing for, and
  -- whatever Helios grants: Helios can answer, then the pair be invalidated, as after a change of
  -- the membership, and then the answer from before the change be stored, so that reads return it.
  pub old_answer_returns :
      (m : MembershipResolution)
      → IsPlain t
      → h.Shows x view
      → view u t ≡ none
      → IsFine (set u t (some (answer m)))
      → IsFine (invalidate u t)
      → (x' : C.State) × (s : Shared) × Steps C x new_shared
          (did (set u t (some (answer m)))
            ∷ did (invalidate u t)
            ∷ fetched u t (answer m)
            ∷ looked u t
            ∷ [])
          x'
          s
        × ((C.get u t x').0.0 ≡ some (answer m))
  unfolding replied asked join new_in_flight arrive lookup answered promised
  old_answer_returns m plain shows empty fine fine' =
      let miss = h.get_view u t x view plain shows ∙ empty in
      let reply = gets_reply C u t x miss (some m, none) (answer m) refl in
      let dropped =
        invalidate-Shows C h u t (C.get u t x).1 view fine' (h.get_shows u t x view shows) in
      let stored = set-Shows C h u t (some (answer m)) _ _ fine dropped in
      (
        _,
        _,
        step (step reply (invalidates u t)) (stores 0 (answer m) refl refl),
        h.get_view u t _ _ plain stored ∙ rw (==-self u, ==-self t) refl,
      )
