-- ===== src/Codegen/Output.antt =====
-- cmd/codegen/main.go: when `emit` succeeds, and how its sections agree with the contract.
use helios_permission_golang.Prelude.{
  Str, List, [], ◌∷◌, ◌++◌, bytes, ◌==◌, ◌≡◌, refl, sym, ap, ◌∙◌, contains, Bool-cases, inl, inr,
}
use mathlib.Core.Path.{subst}
use helios_permission_golang.Errors.{message, Result, ok, err}
use helios_permission_golang.Codegen.{
  Contract, flatten, sort_strings, perm_const_name, map, Emitted, emitted, emit_for, emit,
  scope_line,
}
use helios_permission_golang.Codegen.Buckets.{
  declared, names, names_with, flatten_lem, contains-sort_strings,
}

values :
    (f : Str → Str) (xs : List Str) → map (λ (e : Str × Str). e.1) (map (λ p. (f p, p)) xs) ≡ xs
values f [] = refl
values f (x ∷ xs) = ap (λ l. x ∷ l) (values f xs)

from_roles :
    (c : Contract) (roles : List Str) (out : Emitted)
    → emit_for c roles ≡ ok out
    → emitted c (flatten c) ≡ out
from_roles c [] out e = cc
from_roles c (r ∷ rs) out e = cc

pub from_emit : (c : Contract) (out : Emitted) → emit c ≡ ok out → emitted c (flatten c) ≡ out
unfolding emit
from_emit c out e = elim (Bool-cases (c.version == [])) [
  | inl missing ↦
      let refused : ◌≡◌ {A = Result Emitted} (err (message (bytes "contract: missing version")))
          (ok out) =
        sym (rw missing refl) ∙ e in
      cc
  | inr present ↦ from_roles c c.roles out (sym (rw present refl) ∙ e)
]

Agrees : Contract → Emitted → Type 0
Agrees c out =
    ((p : Str)
      → contains (map (λ (e : Str × Str). e.1) out.perm_consts) p
        ≡ contains (names (declared c c.services)) p)
    × (out.perm_scope
        ≡ map (scope_line (bytes "ScopeSelf")) (names_with (bytes "self") (declared c c.services))
          ++ (map (scope_line (bytes "ScopePlatform"))
                (names_with (bytes "platform") (declared c c.services))
              ++ (map (scope_line (bytes "ScopeProject"))
                    (names_with (bytes "project") (declared c c.services))
                  ++ map (scope_line (bytes "ScopePlatformProject"))
                      (names_with (bytes "platform/project") (declared c c.services)))))

emitted-Agrees : (c : Contract) → Agrees c (emitted c (flatten c))
unfolding Agrees emitted
emitted-Agrees c =
    let (all, self, platform, project, dual) = flatten_lem c in
    (
      λ p.
          ap (λ xs. contains xs p) (values perm_const_name (sort_strings (flatten c).all_perms))
          ∙ contains-sort_strings (flatten c).all_perms p
          ∙ ap (λ xs. contains xs p) all,
      rw (self) (rw platform (rw project (rw dual refl))),
    )

-- Where emit succeeds: the values of the permission constants are exactly the names of the
-- permissions of the listed services; and PERM_SCOPE has the permissions with one of the four
-- scopes, under the constants of these scopes, one scope after the other.
pub emit_lem :
    (c : Contract) (out : Emitted)
    → emit c ≡ ok out
    → ((p : Str)
        → contains (map (λ (e : Str × Str). e.1) out.perm_consts) p
          ≡ contains (names (declared c c.services)) p)
      × (out.perm_scope
          ≡ map (scope_line (bytes "ScopeSelf")) (names_with (bytes "self") (declared c c.services))
            ++ (map
                  (scope_line (bytes "ScopePlatform"))
                  (names_with (bytes "platform") (declared c c.services))
                ++ (map
                      (scope_line (bytes "ScopeProject"))
                      (names_with (bytes "project") (declared c c.services))
                    ++ map
                        (scope_line (bytes "ScopePlatformProject"))
                        (names_with (bytes "platform/project") (declared c c.services)))))
unfolding Agrees
emit_lem c out e = subst (λ x. Agrees c x) (from_emit c out e) (emitted-Agrees c)
