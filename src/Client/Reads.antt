-- ===== src/Client/Reads.antt =====
-- helios_permissions/permission_client.go: the three reads against one another, for every cache.
use helios_permission_golang.Prelude.{
  Str, Bool, true, [], false, Option, none, some, inl, inr, ◌≡◌, refl, ap, arith, contains,
  Bool-cases, ◌>>=◌,
}
use helios_permission_golang.Errors.{Error}
use helios_permission_golang.Permission.{Permission}
use helios_permission_golang.Scope.{self_permissions}
use helios_permission_golang.Scope.Laws.{scope_tests-partition}
use helios_permission_golang.Roles.{is_universal_perm, role_has_permission, role_viewer}
use helios_permission_golang.Roles.Laws.{
  is_universal_perm-viewer, role_has_permission-is_platform_grantable,
}
use helios_permission_golang.Cache.{Slice, elements}
use helios_permission_golang.Helios.{Env}
use helios_permission_golang.Client.{
  PermissionClient, State, fetch_and_cache, caller_has_permission, get_user_permissions, explain,
}
use helios_permission_golang.Client.Answers.{Explanation, has, folded, explained}
use helios_permission_golang.Client.Fold.Laws.{fold_self_permissions_lem}

-- The flag of an explanation; a nil one grants nothing.
abbrev pub verdict : Option Explanation × Option Error → Bool × Option Error
verdict (none, failure) = (false, failure)
verdict (some x, failure) = (x.allowed, failure)

-- Whether a returned list of permissions holds one; nil holds none.
abbrev pub listed : Permission → Slice × Option Error → Bool × Option Error
listed perm (perms, failure) = (contains (elements perms) perm, failure)

explained-has :
    (perm : Permission) (r : Slice × Option Error) → verdict (explained perm r) ≡ has perm r
unfolding explained has
explained-has perm (perms, some e) = refl
explained-has perm (perms, none) = ground arith

universal_of_self :
    (perm : Permission) → is_universal_perm perm ≡ false → contains self_permissions perm ≡ false
universal_of_self perm h =
    ground (arith, is_universal_perm-viewer perm, (scope_tests-partition perm).1)

folded-has :
    (perm : Permission) (r : Slice × Option Error)
    → is_universal_perm perm ≡ false
    → listed perm (folded r) ≡ has perm r
unfolding folded has
folded-has perm (perms, some e) h = unfold contains in refl
folded-has perm (perms, none) h =
    ground (arith, (fold_self_permissions_lem (elements perms)).2 perm, universal_of_self perm h)

-- A call with another reading of its value.
abbrev pub over : {A B S : Type 0} → (A → B) → Option (A × S) → Option (B × S)
over f none = none
over f (some (a, s)) = some (f a, s)

-- Two ways to finish a call that agree on what it returns.
over-finish :
    {A B C S : Type 0} (m : Option (A × S)) (f : A → B) (g : B → C) (h : A → C)
    → ((a : A) → g (f a) ≡ h a)
    → over g (m >>= λ r. some (f r.0, r.1)) ≡ (m >>= λ r. some (h r.0, r.1))
over-finish none f g h e = refl
over-finish (some (a, s)) f g h e = ap (λ d. some (d, s)) (e a)

module _ (E : Env) (c : PermissionClient) (u t : Str) (perm : Permission)
    (s : State E c.cache) where
  -- In every state, `explain` and `caller_has_permission` decide alike, fail alike, wait alike and
  -- leave the same state.
  pub explain-caller_has_permission :
      over verdict (explain E c u t perm s) ≡ caller_has_permission E c u t perm s
  unfolding explain caller_has_permission
  explain-caller_has_permission = elim (Bool-cases (is_universal_perm perm)) [
    | inl universal ↦ rw universal
    | inr other ↦ rw other (
        over-finish (fetch_and_cache E c u t s) (explained perm) verdict (has perm)
          (explained-has perm))
  ]

  -- For a permission that is not universal, `caller_has_permission` is the search of the list that
  -- `get_user_permissions` returns, with the same failure, wait and state.
  pub get_user_permissions-caller_has_permission :
      is_universal_perm perm ≡ false
      → over (listed perm) (get_user_permissions E c u t s) ≡ caller_has_permission E c u t perm s
  unfolding get_user_permissions caller_has_permission
  get_user_permissions-caller_has_permission other = rw other (
      over-finish (fetch_and_cache E c u t s) folded (listed perm) (has perm)
        (λ r. folded-has perm r other))

  -- A permission that every role has is granted to a user without membership, and the list of
  -- permissions that is returned for such a user does not hold it.
  pub universal_not_listed :
      (s' : State E c.cache)
      → role_has_permission role_viewer perm ≡ true
      → fetch_and_cache E c u t s ≡ some ((some [], none), s')
      → (caller_has_permission E c u t perm s ≡ some ((true, none), s))
        × (over (listed perm) (get_user_permissions E c u t s) ≡ some ((false, none), s'))
  unfolding caller_has_permission get_user_permissions folded contains
  universal_not_listed s' viewed fetched =
      let universal : is_universal_perm perm ≡ true =
        ground (arith, is_universal_perm-viewer perm) in
      let not_self = (role_has_permission-is_platform_grantable role_viewer perm viewed).1 in
      (
        rw universal,
        rw fetched (
            ground (
              arith,
              not_self,
              (scope_tests-partition perm).1,
              (fold_self_permissions_lem []).2 perm,
            )),
      )
