-- ===== src/Codegen/Buckets.antt =====
-- cmd/codegen/main.go: what the loops over services and permissions collect.
use helios_permission_golang.Prelude.{
  Str, true, if◌then◌else◌, List, [], ◌∷◌, ◌++◌, lookup, bytes, ◌==◌, ◌≡◌, refl, sym, ap, ◌∙◌,
  arith, contains, Bool-cases, inl, inr,
}
use mathlib.Core.List.{append_assoc, append-nil}
use helios_permission_golang.Codegen.{
  Perm, Contract, Flattened, nothing_flattened, append_if, flatten_one, flatten_perms, or_nil,
  flatten_services, flatten, insert_sorted, sort_strings,
}

-- The permissions of the listed services, in their order.
unfoldable pub declared : Contract → List Str → List Perm
declared c [] = []
declared c (svc ∷ rest) = or_nil (lookup svc c.permissions) ++ declared c rest

unfoldable pub names : List Perm → List Str
names [] = []
names (p ∷ ps) = p.name ∷ names ps

-- The names of the permissions with a scope.
unfoldable pub names_with : Str → List Perm → List Str
names_with scope [] = []
names_with scope (p ∷ ps) =
    let rest = names_with scope ps in if p.scope == scope then p.name ∷ rest else rest

names-append : (ps qs : List Perm) → names (ps ++ qs) ≡ names ps ++ names qs
unfolding names
names-append [] qs = refl
names-append (p ∷ ps) qs = ap (λ xs. p.name ∷ xs) (names-append ps qs)

names_with-append :
    (scope : Str) (ps qs : List Perm)
    → names_with scope (ps ++ qs) ≡ names_with scope ps ++ names_with scope qs
unfolding names_with
names_with-append scope [] qs = refl
names_with-append scope (p ∷ ps) qs = ground (arith, names_with-append scope ps qs)

-- The slices hold what they held before and then the names of the permissions.
pub record Adds (b b' : Flattened) (ps : List Perm) : Type 0 where
  pub all : b'.all_perms ≡ b.all_perms ++ names ps
  pub self : b'.self_perms ≡ b.self_perms ++ names_with (bytes "self") ps
  pub platform : b'.platform_perms ≡ b.platform_perms ++ names_with (bytes "platform") ps
  pub project : b'.project_perms ≡ b.project_perms ++ names_with (bytes "project") ps
  pub dual : b'.dual_perms ≡ b.dual_perms ++ names_with (bytes "platform/project") ps

append_if-names_with :
    (scope : Str) (xs : List Str) (p : Perm) (ps : List Perm)
    → append_if (p.scope == scope) xs p.name ++ names_with scope ps
      ≡ xs ++ names_with scope (p ∷ ps)
unfolding names_with
append_if-names_with scope xs p ps = elim (Bool-cases (p.scope == scope)) [
  | inl same ↦ rw same (append_assoc xs (p.name ∷ []) (names_with scope ps))
  | inr other ↦ rw other refl
]

flatten_perms-Adds : (ps : List Perm) (b : Flattened) → Adds b (flatten_perms ps b) ps
unfolding flatten_perms flatten_one names names_with
flatten_perms-Adds [] b = record {
  all = sym (append-nil b.all_perms);
  self = sym (append-nil b.self_perms);
  platform = sym (append-nil b.platform_perms);
  project = sym (append-nil b.project_perms);
  dual = sym (append-nil b.dual_perms);
}
flatten_perms-Adds (p ∷ ps) b =
    let later = flatten_perms-Adds ps (flatten_one p b) in
    record {
      all = later.all ∙ append_assoc b.all_perms (p.name ∷ []) (names ps);
      self = later.self ∙ append_if-names_with (bytes "self") b.self_perms p ps;
      platform = later.platform ∙ append_if-names_with (bytes "platform") b.platform_perms p ps;
      project = later.project ∙ append_if-names_with (bytes "project") b.project_perms p ps;
      dual = later.dual ∙ append_if-names_with (bytes "platform/project") b.dual_perms p ps;
    }

-- One slice over two lists of permissions.
joined :
    (f : List Perm → List Str) (xs ys zs : List Str) (ps qs : List Perm)
    → f (ps ++ qs) ≡ f ps ++ f qs
    → ys ≡ xs ++ f ps
    → zs ≡ ys ++ f qs
    → zs ≡ xs ++ f (ps ++ qs)
joined f xs ys zs ps qs split first second =
    second
    ∙ ap (λ l. l ++ f qs) first
    ∙ append_assoc xs (f ps) (f qs)
    ∙ ap (λ l. xs ++ l) (sym split)

Adds-append :
    (b b' b'' : Flattened) (ps qs : List Perm)
    → Adds b b' ps
    → Adds b' b'' qs
    → Adds b b'' (ps ++ qs)
Adds-append b b' b'' ps qs h k = record {
  all = joined names _ _ _ ps qs (names-append ps qs) h.all k.all;
  self = joined (names_with (bytes "self")) _ _ _ ps qs (names_with-append _ ps qs) h.self k.self;
  platform =
      joined (names_with (bytes "platform")) _ _ _ ps qs (names_with-append _ ps qs) h.platform
        k.platform;
  project =
      joined (names_with (bytes "project")) _ _ _ ps qs (names_with-append _ ps qs) h.project
        k.project;
  dual =
      joined (names_with (bytes "platform/project")) _ _ _ ps qs (names_with-append _ ps qs) h.dual
        k.dual;
}

flatten_services-Adds :
    (c : Contract) (services : List Str) (b : Flattened)
    → Adds b (flatten_services c services b) (declared c services)
unfolding flatten_services declared
flatten_services-Adds c [] b = unfold flatten_perms in flatten_perms-Adds [] b
flatten_services-Adds c (svc ∷ rest) b =
    let perms = or_nil (lookup svc c.permissions) in
    Adds-append b (flatten_perms perms b) _ perms (declared c rest) (flatten_perms-Adds perms b)
      (flatten_services-Adds c rest (flatten_perms perms b))

-- The constants are for all permissions of the listed services, and each tuple has those with its
-- scope, in the order of the contract; a permission with another scope has a constant and is in no
-- tuple.
pub flatten_lem :
    (c : Contract)
    → ((flatten c).all_perms ≡ names (declared c c.services))
      × ((flatten c).self_perms ≡ names_with (bytes "self") (declared c c.services))
      × ((flatten c).platform_perms ≡ names_with (bytes "platform") (declared c c.services))
      × ((flatten c).project_perms ≡ names_with (bytes "project") (declared c c.services))
      × ((flatten c).dual_perms ≡ names_with (bytes "platform/project") (declared c c.services))
unfolding flatten
flatten_lem c =
    let h = flatten_services-Adds c c.services nothing_flattened in
    (h.all, h.self, h.platform, h.project, h.dual)

pub contains-insert_sorted :
    (x : Str) (ys : List Str) (z : Str)
    → contains (insert_sorted x ys) z ≡ (if x == z then true else contains ys z)
unfolding contains insert_sorted
contains-insert_sorted x [] z = refl
contains-insert_sorted x (y ∷ ys) z = ground (arith, contains-insert_sorted x ys z)

pub contains-sort_strings : (xs : List Str) (z : Str) → contains (sort_strings xs) z ≡ contains xs z
unfolding contains sort_strings
contains-sort_strings [] z = refl
contains-sort_strings (x ∷ xs) z =
    contains-insert_sorted x (sort_strings xs) z ∙ ground (arith, contains-sort_strings xs z)
