-- ===== src/Client/Failures.antt =====
-- helios_permissions/permission_client.go: when a check fails, what it answers, and what the option
-- `StaleOnError` changes.
use helios_permission_golang.Prelude.{
  ℕ, Str, Bool, true, false, Option, none, some, inl, inr, List, ◌≡◌, refl, contains, Bool-cases,
}
use helios_permission_golang.Errors.{Error, Reason, unreachable}
use helios_permission_golang.Permission.{Permission}
use helios_permission_golang.Roles.{is_universal_perm}
use helios_permission_golang.Cache.{Slice, PermissionCache}
use helios_permission_golang.Helios.{
  Env, HeliosClient, MembershipResolution, fetch_user_permissions,
}
use helios_permission_golang.Helios.Outcomes.{Fits}
use helios_permission_golang.Client.{
  PermissionClient, Outside, State, fetch_and_cache, caller_has_permission,
}
use helios_permission_golang.Client.Answers.{has}
use helios_permission_golang.Client.Serving.{idle}
use helios_permission_golang.Client.Sources.{answer, Serves, hit, unavailable, fresh, read-Serves}

module _ {E : Env} (c : PermissionClient) (u t : Str) (perm : Permission) where
  -- How a check may end, from a state of the outside world.
  pub data Decides (o : Outside E c.cache) : Bool × Option Error → Outside E c.cache → Type 0 where
    universal : is_universal_perm perm ≡ true → Decides o (true, none) o
    cached :
        (ps : List Permission) (o' : Outside E c.cache)
        → is_universal_perm perm ≡ false
        → (c.cache.get u t o.cache).0.0 ≡ some ps
        → o'.world ≡ o.world
        → Decides o (contains ps perm, none) o'
    asked :
        (m : MembershipResolution) (o' : Outside E c.cache)
        → is_universal_perm perm ≡ false
        → (c.cache.get u t o.cache).0.0 ≡ none
        → (fetch_user_permissions E c.helios u t o.world).0 ≡ (some m, none)
        → Decides o (contains (answer m) perm, none) o'
    denied :
        (status : ℕ) (reason : Reason) (text : Str) (o' : Outside E c.cache)
        → is_universal_perm perm ≡ false
        → (c.cache.get u t o.cache).0.0 ≡ none
        → Fits status reason
        → (fetch_user_permissions E c.helios u t o.world).0
          ≡ (none, some (unreachable status reason (some text)))
        → o'.cache ≡ (c.cache.get u t o.cache).1
        → Decides o (false, some (unreachable status reason (some text))) o'

  has-Decides :
      {o : Outside E c.cache} {r : (Slice × Option Error) × Outside E c.cache}
      → is_universal_perm perm ≡ false
      → Serves c u t o r
      → Decides o (has perm r.0) r.1
  unfolding has
  has-Decides other (hit ps e) = cached ps _ other e refl
  has-Decides other (unavailable status reason text miss e fits) =
      denied status reason text _ other miss fits e refl
  has-Decides other (fresh m miss e) = asked m _ other miss e

  -- A check that finds no fetch in flight returns, for every cache: it grants a universal
  -- permission and touches nothing; it decides by the cached list and does not ask Helios; it
  -- decides by Helios's answer; or Helios is unreachable, and then it returns false with that
  -- error, and stores nothing.
  pub caller_has_permission-Decides :
      (o : Outside E c.cache)
      → (r : Bool × Option Error) × (o' : Outside E c.cache) × (caller_has_permission E c u t perm
            (idle c o)
          ≡ some (r, idle c o'))
        × Decides o r o'
  unfolding caller_has_permission
  caller_has_permission-Decides o = elim (Bool-cases (is_universal_perm perm)) [
    | inl always ↦ ((true, none), o, rw always, universal always)
    | inr other ↦
        let (r, returned, source) = read-Serves c u t o in
        (has perm r.0, r.1, rw (other, returned), has-Decides other source)
  ]

-- The option `StaleOnError` changes nothing: two clients that differ in it alone decide alike in
-- every state.
pub stale_on_error_unused :
    (E : Env) (C : PermissionCache) (h : HeliosClient) (a b : Bool) (u t : Str) (perm : Permission)
    (s : State E C)
    → caller_has_permission E (record { cache = C; helios = h; stale_on_error = a }) u t perm s
      ≡ caller_has_permission E (record { cache = C; helios = h; stale_on_error = b }) u t perm s
unfolding caller_has_permission fetch_and_cache
stale_on_error_unused E C h a b u t perm s = refl
