-- ===== src/Codegen/Exits.antt =====
-- cmd/codegen/main.go: when `main` succeeds, and what it leaves when it does not.
use helios_permission_golang.Prelude.{
  ℕ, Str, Bool, true, false, if◌then◌else◌, List, [], ◌∷◌, bytes, ◌==◌, ==_iff, ◌≡◌, ◌≢◌, ◌↔◌, refl,
  ap, arith,
}
use helios_permission_golang.Errors.{message, Result, ok, err, panic}
use helios_permission_golang.Redis.{Fallible, failed, done}
use helios_permission_golang.Codegen.{Contract, emit, emit_for, emitted, flatten}
use helios_permission_golang.Codegen.Text.{emit_text, printed, joined_lines, output_lines}
use helios_permission_golang.Codegen.Main.{
  Machine, Exit, fails, finish, after_parse, after_read, main,
}

-- The contract has a version and a role, and the text is the output for it.
abbrev pub IsOutput : Str → Contract → Str → Type 0
IsOutput date c content =
    (c.version ≢ [])
    × (c.roles ≢ [])
    × (joined_lines (output_lines date c (emitted c (flatten c))) ≡ content)

abbrev pub Prints : Machine → List Str → Str → Type 0
Prints M args content =
    (program : Str) × (path : Str) × (file : Str) × (c : Contract) × (args ≡ program ∷ path ∷ [])
    × (M.read_file path ≡ done file)
    × (M.unmarshal file ≡ done c)
    × IsOutput M.today c content

roles_emit :
    (date : Str) (c : Contract) (roles : List Str) (content : Str)
    → (c.version ≢ [])
    → (printed date c (emit_for c roles) ≡ ok content)
      ↔ ((roles ≢ []) × (joined_lines (output_lines date c (emitted c (flatten c))) ≡ content))
roles_emit date c [] content version = (λ e. cc, λ (r, e). absurd (r refl))
roles_emit date c (r ∷ rs) content version = (λ e. (λ f. cc, cc), λ (f, e). ap ok e)

unversioned :
    (date : Str) (c : Contract) (content : Str)
    → (printed date c (err (message (bytes "contract: missing version"))) ≡ ok content)
    → ⊥
unversioned date c content e = absurd cc

-- What `emit` returns by the test on the version.
abbrev branch : Str → Contract → Bool → Result Str
branch date c missing =
    printed date c
      (if missing then err (message (bytes "contract: missing version")) else emit_for c c.roles)

branch_iff :
    (date : Str) (c : Contract) (content : Str) (missing : Bool)
    → (c.version == []) ≡ missing
    → (branch date c missing ≡ ok content) ↔ IsOutput date c content
branch_iff date c content true test = (
  λ e. absurd (unversioned date c content e),
  λ (version, roles, same). absurd (version ((==_iff _ _).0 test)),
)
branch_iff date c content false test =
    let version : c.version ≢ [] = λ e. differs c.version e test in
    let (there, back) = roles_emit date c c.roles content version in
    (
      λ e. let (roles, same) = there e in (version, roles, same),
      λ (_, roles, same). back (roles, same),
    )
  where
    differs : (v : Str) → v ≡ [] → (v == []) ≡ false → ⊥
    differs v e other = let same : (v == []) ≡ true = (==_iff v []).1 e in absurd cc

emit_text_iff :
    (date : Str) (c : Contract) (content : Str)
    → (emit_text date c ≡ ok content) ↔ IsOutput date c content
unfolding emit_text emit
emit_text_iff date c content = branch_iff date c content (c.version == []) refl

abbrev success : Str → Exit
success content = record { stdout = content; stderr = []; code = 0 }

finish_iff : (r : Result Str) (content : Str) → (finish r ≡ success content) ↔ (r ≡ ok content)
finish_iff (ok out) content = (λ e. ap ok (ap (λ (x : Exit). x.stdout) e), λ e. ap finish e)
finish_iff (err e) content = (λ f. absurd (ends (ap (λ (x : Exit). x.code) f)), λ f. absurd cc)
  where
    ends : ◌≡◌ {A = ℕ} 1 0 → ⊥
    ends e = ground arith
finish_iff (panic text) content = (λ f. absurd (ends (ap (λ (x : Exit). x.code) f)), λ f. absurd cc)
  where
    ends : ◌≡◌ {A = ℕ} 2 0 → ⊥
    ends e = ground arith

fails_not : (text content : Str) (n : ℕ) → (n ≢ 0) → fails text n ≢ success content
fails_not text content n nonzero e = nonzero (ap (λ (x : Exit). x.code) e)

parse_iff :
    (M : Machine) (path : Str) (answer : Fallible Contract) (content : Str)
    → (after_parse M path answer ≡ success content)
      ↔ ((c : Contract) × (answer ≡ done c) × IsOutput M.today c content)
parse_iff M path (failed e) content =
    (λ f. absurd (fails_not _ content 1 (λ g. ground arith) f), λ (c, f, out). cc)
parse_iff M path (done c) content = (
  λ e. (c, refl, (emit_text_iff M.today c content).0 ((finish_iff _ content).0 e)),
  λ (c', e, out).
      let same : c ≡ c' = cc in
      (finish_iff _ content).1 ((emit_text_iff M.today c content).1 (rw same out)),
)

read_iff :
    (M : Machine) (path : Str) (answer : Fallible Str) (content : Str)
    → (after_read M path answer ≡ success content) ↔ (
        (file : Str) × (c : Contract) × (answer ≡ done file)
        × (M.unmarshal file ≡ done c)
        × IsOutput M.today c content)
read_iff M path (failed e) content =
    (λ f. absurd (fails_not _ content 1 (λ g. ground arith) f), λ (file, c, f, parsed, out). cc)
read_iff M path (done file) content = (
  λ e.
      let (c, parsed, out) = (parse_iff M path (M.unmarshal file) content).0 e in
      (file, c, refl, parsed, out),
  λ (file', c, e, parsed, out).
      let same : file ≡ file' = cc in
      (parse_iff M path (M.unmarshal file) content).1 (c, rw same parsed, out),
)

main-Prints :
    (M : Machine) (args : List Str) (content : Str)
    → (main M args ≡ success content) ↔ Prints M args content
unfolding main
main-Prints M [] content = (
  λ e. absurd (fails_not _ content 2 (λ g. ground arith) e),
  λ (program, path, file, c, e, read, parsed, out). cc,
)
main-Prints M (p ∷ []) content = (
  λ e. absurd (fails_not _ content 2 (λ g. ground arith) e),
  λ (program, path, file, c, e, read, parsed, out). cc,
)
main-Prints M (program ∷ path ∷ []) content = (
  λ e.
      let (file, c, read, parsed, out) = (read_iff M path (M.read_file path) content).0 e in
      (program, path, file, c, refl, read, parsed, out),
  λ (program', path', file, c, e, read, parsed, out).
      let it : path ≡ path' = cc in
      (read_iff M path (M.read_file path) content).1 (file, c, rw it read, parsed, out),
)
main-Prints M (p ∷ q ∷ r ∷ rest) content = (
  λ e. absurd (fails_not _ content 2 (λ g. ground arith) e),
  λ (program, path, file, c, e, read, parsed, out). cc,
)

IsSilent : Exit → Type 0
IsSilent x = x.code ≢ 0 → x.stdout ≡ []

finish-IsSilent : (r : Result Str) → IsSilent (finish r)
unfolding IsSilent
finish-IsSilent (ok out) h = absurd (h refl)
finish-IsSilent (err e) h = refl
finish-IsSilent (panic text) h = refl

parse-IsSilent :
    (M : Machine) (path : Str) (a : Fallible Contract) → IsSilent (after_parse M path a)
unfolding IsSilent
parse-IsSilent M path (failed e) h = refl
parse-IsSilent M path (done c) h = finish-IsSilent (emit_text M.today c) h

read-IsSilent : (M : Machine) (path : Str) (a : Fallible Str) → IsSilent (after_read M path a)
unfolding IsSilent
read-IsSilent M path (failed e) h = refl
read-IsSilent M path (done file) h = parse-IsSilent M path (M.unmarshal file) h

main-IsSilent : (M : Machine) (args : List Str) → IsSilent (main M args)
unfolding main IsSilent
main-IsSilent M [] h = refl
main-IsSilent M (p ∷ []) h = refl
main-IsSilent M (program ∷ path ∷ []) h = read-IsSilent M path (M.read_file path) h
main-IsSilent M (p ∷ q ∷ r ∷ rest) h = refl

-- The process ends with exit code 0, the text as its output and no error output exactly when it
-- has one argument, the file of that name can be read and holds a contract with a version and a
-- role, and the text is the output for that contract on that day. With another exit code it writes
-- nothing to its output.
pub main_iff :
    (M : Machine) (args : List Str) (content : Str)
    → ((main M args ≡ record { stdout = content; stderr = []; code = 0 }) ↔ Prints M args content)
      × ((main M args).code ≢ 0 → (main M args).stdout ≡ [])
main_iff M args content = (main-Prints M args content, unfold IsSilent in main-IsSilent M args)
