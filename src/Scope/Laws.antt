-- ===== src/Scope/Laws.antt =====
-- helios_permissions/role_permissions.go: the tests on scopes against the four partitions.
use helios_permission_golang.Prelude.{
  Bool, true, false, not, ◌||◌, Option, none, some, List, [], ◌∷◌, ◌≡◌, refl, arith, if◌then◌else◌,
  Table, ◌==◌, bytes, contains, all, all-contains, lookup,
}
use helios_permission_golang.Permission.{Permission}
use helios_permission_golang.Scope.{
  PermScope, scope_self, scope_platform, scope_project, scope_platform_project, self_permissions,
  platform_permissions, project_permissions, dual_permissions, perm_scope, scope_of,
  is_valid_permission, is_self_scope, is_platform_grantable, is_tenant_grantable,
}

-- A block of entries with one scope, before the entries `m`.
tagged : PermScope → List Permission → Table PermScope → Table PermScope
tagged s [] m = m
tagged s (p ∷ ps) m = (p, s) ∷ tagged s ps m

lookup-tagged :
    (s : PermScope) (ps : List Permission) (m : Table PermScope) (p : Permission)
    → lookup p (tagged s ps m) ≡ (if contains ps p then some s else lookup p m)
unfolding lookup tagged contains
lookup-tagged s [] m p = refl
lookup-tagged s (q ∷ ps) m p = ground (arith, lookup-tagged s ps m p)

perm_scope-tagged :
    perm_scope
    ≡ tagged scope_self self_permissions (
        tagged scope_platform platform_permissions (
          tagged scope_project project_permissions
            (tagged scope_platform_project dual_permissions [])))
unfolding tagged perm_scope self_permissions platform_permissions project_permissions
    dual_permissions
perm_scope-tagged = refl

-- The scope that the partitions give, in the order of the table's blocks.
pub partition_scope : Permission → Option PermScope
partition_scope p =
    if contains self_permissions p
    then some scope_self
    else if contains platform_permissions p
    then some scope_platform
    else if contains project_permissions p
    then some scope_project
    else if contains dual_permissions p
    then some scope_platform_project
    else none

pub lookup-perm_scope : (p : Permission) → lookup p perm_scope ≡ partition_scope p
unfolding partition_scope lookup
lookup-perm_scope p = rw perm_scope-tagged (simp lookup-tagged)

abbrev outside : List Permission → List Permission → Bool
outside ps qs = all (λ p. not (contains ps p)) qs

partitions_disjoint :
    (outside self_permissions platform_permissions ≡ true)
    × (outside self_permissions project_permissions ≡ true)
    × (outside self_permissions dual_permissions ≡ true)
    × (outside platform_permissions project_permissions ≡ true)
    × (outside platform_permissions dual_permissions ≡ true)
    × (outside project_permissions dual_permissions ≡ true)
unfolding all contains ◌==◌ bytes self_permissions platform_permissions project_permissions
    dual_permissions
partitions_disjoint = (refl, refl, refl, refl, refl, refl)

not_in_both :
    (ps qs : List Permission) (p : Permission)
    → outside ps qs ≡ true
    → contains qs p ≡ true
    → contains ps p ≡ false
not_in_both ps qs p h m = ground (arith, all-contains (λ p. not (contains ps p)) qs p h m)

-- No permission is in two of the four partitions.
pub partition_unique :
    (p : Permission)
    → (contains platform_permissions p ≡ true → contains self_permissions p ≡ false)
      × (contains project_permissions p ≡ true → contains self_permissions p ≡ false)
      × (contains dual_permissions p ≡ true → contains self_permissions p ≡ false)
      × (contains project_permissions p ≡ true → contains platform_permissions p ≡ false)
      × (contains dual_permissions p ≡ true → contains platform_permissions p ≡ false)
      × (contains dual_permissions p ≡ true → contains project_permissions p ≡ false)
partition_unique p =
    let d = partitions_disjoint in
    (
      not_in_both _ _ p d.0,
      not_in_both _ _ p d.1,
      not_in_both _ _ p d.2,
      not_in_both _ _ p d.3,
      not_in_both _ _ p d.4,
      not_in_both _ _ p d.5,
    )

-- For every text, known or not: it is valid exactly when a partition lists it, self-scope exactly
-- when SELF_PERMISSIONS lists it, grantable to a platform user exactly when PLATFORM_PERMISSIONS
-- or DUAL_PERMISSIONS lists it, and grantable to a tenant user exactly when neither
-- SELF_PERMISSIONS nor PLATFORM_PERMISSIONS lists it.
pub scope_tests-partition :
    (p : Permission)
    → (is_valid_permission p ≡ (
        contains self_permissions p
        || contains platform_permissions p
        || contains project_permissions p
        || contains dual_permissions p))
      × (is_self_scope p ≡ contains self_permissions p)
      × (is_platform_grantable p ≡ (contains platform_permissions p || contains dual_permissions p))
      × (is_tenant_grantable p
          ≡ not (contains self_permissions p || contains platform_permissions p))
unfolding scope_of is_valid_permission is_self_scope is_platform_grantable is_tenant_grantable
    partition_scope ◌==◌ bytes
scope_tests-partition p = ground (arith, lookup-perm_scope p, partition_unique p)
