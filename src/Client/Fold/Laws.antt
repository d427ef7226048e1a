-- ===== src/Client/Fold/Laws.antt =====
-- helios_permissions/permission_client.go: the result of `foldSelfPermissions`.
use helios_permission_golang.Prelude.{
  true, false, ◌||◌, if◌then◌else◌, none, some, inl, inr, List, [], ◌∷◌, ◌++◌, Table, ◌≡◌, refl,
  sym, ap, ◌∙◌, arith, bytes, ◌==◌, ==_iff, ==-comm, ==-self, lookup, lookup-insert, insert,
  contains, contains-append, Bool-cases,
}
use mathlib.Core.List.{append_assoc, append-nil}
use mathlib.Core.Path.{subst}
use helios_permission_golang.Permission.{Permission}
use helios_permission_golang.Scope.{self_permissions}
use helios_permission_golang.Client.Fold.{fold_loop, fold_self_permissions}

-- The loop without the set: the slice itself is searched.
unfoldable pub add_new : List Permission → List Permission → List Permission
add_new merged [] = merged
add_new merged (p ∷ ps) =
    let rest = add_new (merged ++ p ∷ []) ps in
    let skip = add_new merged ps in if contains merged p then skip else rest

-- The set holds the items of the slice.
abbrev Agree : Table {0} Unit → List Permission → Type 0
Agree seen merged = (x : Permission) → lookup x seen ≡ (if contains merged x then some tt else none)

Agree-insert :
    (seen : Table {0} Unit) (merged : List Permission) (p : Permission)
    → Agree seen merged
    → Agree (insert p tt seen) (merged ++ p ∷ [])
unfolding contains
Agree-insert seen merged p h x = rw (lookup-insert, contains-append, h x) (ground arith)

fold_loop-add_new :
    (ps : List Permission) (seen : Table {0} Unit) (merged : List Permission)
    → Agree seen merged
    → ((fold_loop ps seen merged).1 ≡ add_new merged ps)
      × Agree (fold_loop ps seen merged).0 (add_new merged ps)
unfolding fold_loop add_new
fold_loop-add_new [] seen merged h = (refl, h)
fold_loop-add_new (p ∷ ps) seen merged h = elim (Bool-cases (contains merged p)) [
  | inl old ↦
      let found : lookup p seen ≡ some tt = rw (h p, old) in
      rw (found, fold_loop, old) (fold_loop-add_new ps seen merged h)
  | inr new ↦
      let missing : lookup p seen ≡ none = rw (h p, new) in
      rw (missing, fold_loop, new)
        (fold_loop-add_new ps (insert p tt seen) (merged ++ p ∷ []) (Agree-insert seen merged p h))
]

contains-add_new :
    (merged ps : List Permission) (x : Permission)
    → contains (add_new merged ps) x ≡ (contains merged x || contains ps x)
unfolding contains add_new
contains-add_new merged [] x = ground arith
contains-add_new merged (p ∷ ps) x = ground (
  arith,
  contains-add_new merged ps x,
  contains-add_new (merged ++ p ∷ []) ps x,
  contains-append merged (p ∷ []) x,
  ==_iff p x,
)

-- No item occurs twice.
abbrev pub AreDistinct : List Permission → Type 0
AreDistinct [] = Unit
AreDistinct (p ∷ ps) = (contains ps p ≡ false) × AreDistinct ps

AreDistinct-append :
    (ps : List Permission) (p : Permission)
    → AreDistinct ps
    → contains ps p ≡ false
    → AreDistinct (ps ++ p ∷ [])
unfolding contains
AreDistinct-append [] p d new = (refl, tt)
AreDistinct-append (q ∷ ps) p d new = (
  ground (arith, contains-append ps (p ∷ []) q, ==-comm p q),
  AreDistinct-append ps p d.1 (ground arith),
)

add_new-AreDistinct :
    (merged ps : List Permission) → AreDistinct merged → AreDistinct (add_new merged ps)
unfolding add_new
add_new-AreDistinct merged [] d = d
add_new-AreDistinct merged (p ∷ ps) d = elim (Bool-cases (contains merged p)) [
  | inl old ↦ rw old (add_new-AreDistinct merged ps d)
  | inr new ↦ rw new (add_new-AreDistinct (merged ++ p ∷ []) ps (AreDistinct-append merged p d new))
]

add_new-prefix :
    (merged ps : List Permission) → (rest : List Permission) × (add_new merged ps ≡ merged ++ rest)
unfolding add_new
add_new-prefix merged [] = ([], sym (append-nil merged))
add_new-prefix merged (p ∷ ps) = elim (Bool-cases (contains merged p)) [
  | inl old ↦ let (rest, e) = add_new-prefix merged ps in (rest, rw (old, e))
  | inr new ↦
      let (rest, e) = add_new-prefix (merged ++ p ∷ []) ps in
      (p ∷ rest, rw (new, e) (append_assoc merged (p ∷ []) rest))
]

self_permissions-new : add_new [] self_permissions ≡ self_permissions
unfolding add_new contains self_permissions ◌==◌ bytes
self_permissions-new = refl

Agree-nil : Agree [] []
unfolding lookup contains
Agree-nil x = refl

-- The set is never read after the loops: the function is the search of the slice.
fold_self_permissions-add_new :
    (ps : List Permission) → fold_self_permissions ps ≡ add_new self_permissions ps
unfolding fold_self_permissions
fold_self_permissions-add_new ps =
    let r = fold_loop self_permissions [] [] in
    let (merged, agree) = fold_loop-add_new self_permissions [] [] Agree-nil in
    let whole : r.1 ≡ self_permissions = merged ∙ self_permissions-new in
    let same : Agree r.0 r.1 = rw merged agree in
    (fold_loop-add_new ps r.0 r.1 same).0 ∙ ap (λ m. add_new m ps) whole

distinct_middle :
    (merged ps : List Permission) (p : Permission)
    → AreDistinct (merged ++ p ∷ ps)
    → contains merged p ≡ false
unfolding contains
distinct_middle [] ps p d = refl
distinct_middle (q ∷ merged) ps p d =
    ground (arith, distinct_middle merged ps p d.1, contains-append merged (p ∷ ps) q, ==-comm q p)

-- Adding the rest of a list without repetition puts it at the end.
add_new-append :
    (merged ps : List Permission) → AreDistinct (merged ++ ps) → add_new merged ps ≡ merged ++ ps
unfolding add_new
add_new-append merged [] d = sym (append-nil merged)
add_new-append merged (p ∷ ps) d =
    let regroup = append_assoc merged (p ∷ []) ps in
    rw (distinct_middle merged ps p d)
      (add_new-append (merged ++ p ∷ []) ps (subst AreDistinct (sym regroup) d) ∙ regroup)

-- Adding the beginning of a list again changes nothing.
add_new-known :
    (merged ps qs : List Permission)
    → ((x : Permission) → contains ps x ≡ true → contains merged x ≡ true)
    → add_new merged (ps ++ qs) ≡ add_new merged qs
unfolding add_new contains
add_new-known merged [] qs h = refl
add_new-known merged (p ∷ ps) qs h =
    rw (h p (rw ==-self)) (add_new-known merged ps qs (λ x m. h x (ground arith)))

self_permissions-AreDistinct : AreDistinct self_permissions
self_permissions-AreDistinct =
    subst AreDistinct self_permissions-new (add_new-AreDistinct [] self_permissions tt)

-- The folded list begins with SELF_PERMISSIONS, has no permission twice, contains exactly the
-- self-scope permissions and the given ones, and is not changed by folding it again.
pub fold_self_permissions_lem :
    (ps : List Permission)
    → ((rest : List Permission) × (fold_self_permissions ps ≡ self_permissions ++ rest))
      × AreDistinct (fold_self_permissions ps)
      × ((x : Permission)
          → contains (fold_self_permissions ps) x ≡ (contains self_permissions x || contains ps x))
      × (fold_self_permissions (fold_self_permissions ps) ≡ fold_self_permissions ps)
fold_self_permissions_lem ps = rw (fold_self_permissions-add_new ps) (
  add_new-prefix self_permissions ps,
  distinct,
  contains-add_new self_permissions ps,
  rw fold_self_permissions-add_new again,
)
  where
    distinct : AreDistinct (add_new self_permissions ps)
    distinct = add_new-AreDistinct self_permissions ps self_permissions-AreDistinct

    again : add_new self_permissions (add_new self_permissions ps) ≡ add_new self_permissions ps
    again =
        let (rest, e) = add_new-prefix self_permissions ps in
        rw e (
          add_new-known self_permissions self_permissions rest (λ x m. m)
          ∙ add_new-append self_permissions rest (subst AreDistinct e distinct))
