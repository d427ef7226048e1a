-- ===== src/Codegen/Scoped.antt =====
-- cmd/codegen/main.go: the keys of PERM_SCOPE, one scope after the other.
use helios_permission_golang.Prelude.{
  Str, Bool, true, false, if◌then◌else◌, List, [], ◌∷◌, ◌++◌, bytes, ◌==◌, ==_iff, contains,
  contains-append, ◌≡◌, refl, arith,
}
use mathlib.Core.List.{append_assoc}
use helios_permission_golang.Codegen.{Perm}
use helios_permission_golang.Codegen.Buckets.{names, names_with}
use helios_permission_golang.Codegen.Distinct.{distinct, distinct-insert}

-- The names of the permissions with one of the four scopes.
abbrev pub scoped : List Perm → List Str
scoped ps =
    names_with (bytes "self") ps
    ++ (names_with (bytes "platform") ps
        ++ (names_with (bytes "project") ps ++ names_with (bytes "platform/project") ps))

pub names_with-names :
    (scope : Str) (ps : List Perm) (x : Str)
    → contains (names_with scope ps) x ≡ true
    → contains (names ps) x ≡ true
unfolding names_with names contains
names_with-names scope [] x h = h
names_with-names scope (p ∷ ps) x h = ground (arith, names_with-names scope ps x)

pub scoped-names :
    (ps : List Perm) (x : Str) → contains (names ps) x ≡ false → contains (scoped ps) x ≡ false
scoped-names ps x h = ground (
  arith,
  contains-append (names_with (bytes "self") ps)
      (names_with (bytes "platform") ps
        ++ (names_with (bytes "project") ps ++ names_with (bytes "platform/project") ps))
      x,
  contains-append (names_with (bytes "platform") ps)
      (names_with (bytes "project") ps ++ names_with (bytes "platform/project") ps) x,
  contains-append (names_with (bytes "project") ps) (names_with (bytes "platform/project") ps) x,
  names_with-names (bytes "self") ps x,
  names_with-names (bytes "platform") ps x,
  names_with-names (bytes "project") ps x,
  names_with-names (bytes "platform/project") ps x,
)

insert_second :
    (a b c : List Str) (x : Str)
    → distinct (x ∷ a ++ (b ++ c)) ≡ true
    → distinct (a ++ (b ++ x ∷ c)) ≡ true
insert_second a b c x h =
    rw⁻¹ (append_assoc a b (x ∷ c)) (distinct-insert (a ++ b) x c (rw (append_assoc a b c) h))

insert_third :
    (a b c d : List Str) (x : Str)
    → distinct (x ∷ a ++ (b ++ (c ++ d))) ≡ true
    → distinct (a ++ (b ++ (c ++ x ∷ d))) ≡ true
insert_third a b c d x h =
    rw⁻¹ (append_assoc b c (x ∷ d)) (insert_second a (b ++ c) d x (rw (append_assoc b c d) h))

-- A text that is one of the scopes is none of the others.
one_scope : (s t : Str) (q : Str → Bool) (b : Bool) → (s == t) ≡ true → q t ≡ b → q s ≡ b
one_scope s t q b same h = rw ((==_iff s t).0 same) h

choose :
    (a b c d : List Str) (x : Str) (self platform project dual : Bool)
    → distinct (x ∷ a ++ (b ++ (c ++ d))) ≡ true
    → (self ≡ true → (platform ≡ false) × (project ≡ false) × (dual ≡ false))
    → (platform ≡ true → (project ≡ false) × (dual ≡ false))
    → (project ≡ true → dual ≡ false)
    → distinct (
        (if self then x ∷ a else a)
        ++ ((if platform then x ∷ b else b)
            ++ ((if project then x ∷ c else c) ++ (if dual then x ∷ d else d))))
      ≡ true
choose a b c d x true platform project dual h one two three =
    rw ((one refl).0, (one refl).1, (one refl).2) h
choose a b c d x false true project dual h one two three =
    rw ((two refl).0, (two refl).1) (distinct-insert a x (b ++ (c ++ d)) h)
choose a b c d x false false true dual h one two three =
    rw (three refl) (insert_second a b (c ++ d) x h)
choose a b c d x false false false true h one two three = insert_third a b c d x h
choose a b c d x false false false false h one two three = unfold distinct in ground arith

distinct-step :
    (p : Perm) (ps : List Perm)
    → distinct (p.name ∷ scoped ps) ≡ true
    → distinct (scoped (p ∷ ps)) ≡ true
unfolding names_with bytes ◌==◌
distinct-step p ps h =
    choose (names_with (bytes "self") ps) (names_with (bytes "platform") ps)
      (names_with (bytes "project") ps) (names_with (bytes "platform/project") ps) p.name
      (p.scope == bytes "self") (p.scope == bytes "platform") (p.scope == bytes "project")
      (p.scope == bytes "platform/project") h
      (λ e. (
        one_scope p.scope (bytes "self") (λ s. s == bytes "platform") false e refl,
        one_scope p.scope (bytes "self") (λ s. s == bytes "project") false e refl,
        one_scope p.scope (bytes "self") (λ s. s == bytes "platform/project") false e refl,
      ))
      (λ e. (
        one_scope p.scope (bytes "platform") (λ s. s == bytes "project") false e refl,
        one_scope p.scope (bytes "platform") (λ s. s == bytes "platform/project") false e refl,
      ))
      (λ e. one_scope p.scope (bytes "project") (λ s. s == bytes "platform/project") false e refl)

-- No permission is twice among the keys if none is twice in the contract.
pub distinct-scoped : (ps : List Perm) → distinct (names ps) ≡ true → distinct (scoped ps) ≡ true
unfolding names names_with distinct
distinct-scoped [] h = refl
distinct-scoped (p ∷ ps) h =
    let rest = distinct-scoped ps (ground arith) in
    let absent = scoped-names ps p.name (ground arith) in distinct-step p ps (ground arith)
