-- ===== src/Codegen/Text/Reading.antt =====
-- The lines of the output read back, one kind of line at a time.
use helios_permission_golang.Prelude.{
  ℕ, ltb, leb, nat_eq, Str, Bool, true, false, not, ◌&&◌, ◌||◌, if◌then◌else◌, List, [], ◌∷◌, ◌++◌,
  bytes, drop, all, ◌==◌, ◌≡◌, refl, ◌∙◌, arith,
}
use mathlib.Core.List.{append-nil}
use helios_permission_golang.Codegen.{map}
use helios_permission_golang.Codegen.Text.{
  quoted, role_line, perm_line, item_line, pair_line, case_lines, member_line, entry_lines,
}

-- A letter, a digit or an underscore, of which names are made.
abbrev is_name_byte : ℕ → Bool
is_name_byte x =
    (leb b'a' x && leb x b'z')
    || ((leb b'A' x && leb x b'Z') || ((leb b'0' x && leb x b'9') || nat_eq x b'_'))

abbrev pub is_name : Str → Bool
is_name s = all is_name_byte s

-- A printable byte that `%q` leaves as it is.
abbrev is_printable : ℕ → Bool
is_printable x = leb 32 x && (ltb x 127 && (not (nat_eq x b'"') && not (nat_eq x b'\\')))

abbrev pub is_plain : Str → Bool
is_plain s = all is_printable s

unfoldable pub before_byte : ℕ → Str → Str
before_byte c [] = []
before_byte c (x ∷ s) = let rest = before_byte c s in if nat_eq x c then [] else x ∷ rest

unfoldable pub after_byte : ℕ → Str → Str
after_byte c [] = []
after_byte c (x ∷ s) = let rest = after_byte c s in if nat_eq x c then s else rest

before_byte-name :
    (c : ℕ) (s rest : Str)
    → is_name_byte c ≡ false
    → is_name s ≡ true
    → before_byte c (s ++ c ∷ rest) ≡ s
unfolding before_byte all
before_byte-name c [] rest h k = ground arith
before_byte-name c (x ∷ s) rest h k = ground (arith, before_byte-name c s rest)

after_byte-name :
    (c : ℕ) (s rest : Str)
    → is_name_byte c ≡ false
    → is_name s ≡ true
    → after_byte c (s ++ c ∷ rest) ≡ rest
unfolding after_byte all
after_byte-name c [] rest h k = ground arith
after_byte-name c (x ∷ s) rest h k = ground (arith, after_byte-name c s rest)

-- What stands before the first `"` of a quoted text.
before_byte-quoted : (s : Str) → is_plain s ≡ true → before_byte b'"' (quoted s) ≡ s
unfolding before_byte quoted all bytes
before_byte-quoted [] k = refl
before_byte-quoted (x ∷ s) k = ground (arith, before_byte-quoted s)

abbrev pub read_item : Str → Str
read_item line = before_byte b',' (drop 1 line)

abbrev pub read_pair : Str → Str × Str
read_pair line =
    (before_byte b':' (drop 1 line), before_byte b',' (drop 1 (after_byte b':' (drop 1 line))))

abbrev pub read_const : Str → Str × Str
read_const line = (
  before_byte b' ' (drop 1 line),
  before_byte b'"' (after_byte b'"' (after_byte b' ' (drop 1 line))),
)

abbrev pub is_pair : Str × Str → Bool
is_pair (name, scope) = is_name name && is_name scope

abbrev pub is_const : Str × Str → Bool
is_const (name, value) = is_name name && is_plain value

read_item_line : (n : Str) → is_name n ≡ true → read_item (item_line n) ≡ n
unfolding bytes
read_item_line n h = before_byte-name b',' n [] refl h

read_pair_line : (p : Str × Str) → is_pair p ≡ true → read_pair (pair_line p) ≡ p
unfolding bytes
read_pair_line (n, s) h =
    let first = before_byte-name b':' n (b' ' ∷ (s ++ b',' ∷ [])) refl (ground arith) in
    let rest = after_byte-name b':' n (b' ' ∷ (s ++ b',' ∷ [])) refl (ground arith) in
    let second = before_byte-name b',' s [] refl (ground arith) in rw (first, rest, second) refl

-- After the name of a constant stand its type, "=" and its value.
read_typed :
    (name value rest : Str)
    → after_byte b'"' rest ≡ quoted value
    → is_const (name, value) ≡ true
    → read_const (b'\t' ∷ (name ++ b' ' ∷ rest)) ≡ (name, value)
read_typed name value rest skips h =
    let first = before_byte-name b' ' name rest refl (ground arith) in
    let second = after_byte-name b' ' name rest refl (ground arith) in
    let third = before_byte-quoted value (ground arith) in rw (first, second, skips, third) refl

read_role_line : (p : Str × Str) → is_const p ≡ true → read_const (role_line p) ≡ p
unfolding bytes after_byte
read_role_line (n, v) h = read_typed n v _ refl h

read_perm_line : (p : Str × Str) → is_const p ≡ true → read_const (perm_line p) ≡ p
unfolding bytes after_byte
read_perm_line (n, v) h = read_typed n v _ refl h

-- The lines of a loop, and what they are read as.
map-reads :
    {A : Type 0} (print : A → Str) (read : Str → A) (is_good : A → Bool)
    → ((a : A) → is_good a ≡ true → read (print a) ≡ a)
    → (xs : List A) → all is_good xs ≡ true
    → map read (map print xs) ≡ xs
unfolding all
map-reads print read is_good h [] k = refl
map-reads print read is_good h (a ∷ xs) k =
    let here = h a (ground arith) in
    let later = map-reads print read is_good h xs (ground arith) in rw (here, later) refl

pub read_items : (ns : List Str) → all is_name ns ≡ true → map read_item (map item_line ns) ≡ ns
read_items = map-reads item_line read_item is_name read_item_line

pub read_pairs :
    (ps : List (Str × Str)) → all is_pair ps ≡ true → map read_pair (map pair_line ps) ≡ ps
read_pairs = map-reads pair_line read_pair is_pair read_pair_line

pub read_roles :
    (ps : List (Str × Str)) → all is_const ps ≡ true → map read_const (map role_line ps) ≡ ps
read_roles = map-reads role_line read_const is_const read_role_line

pub read_perms :
    (ps : List (Str × Str)) → all is_const ps ≡ true → map read_const (map perm_line ps) ≡ ps
read_perms = map-reads perm_line read_const is_const read_perm_line

-- The lines of a switch: every second one is a case.
unfoldable pub read_cases : List Str → List Str
read_cases [] = []
read_cases (line ∷ []) = []
read_cases (line ∷ next ∷ lines) = before_byte b':' (drop 6 line) ∷ read_cases lines

pub read_case_lines : (ns : List Str) → all is_name ns ≡ true → read_cases (case_lines ns) ≡ ns
unfolding read_cases all bytes
read_case_lines [] h = refl
read_case_lines (n ∷ ns) h =
    let here = before_byte-name b':' n [] refl (ground arith) in
    let later = read_case_lines ns (ground arith) in rw (here, later) refl

-- The lines of ROLE_PERMISSIONS, from the end: the members that wait for the line of their role,
-- and the entries.
abbrev pub add_line : Str → List Str × List (Str × List Str) → List Str × List (Str × List Str)
add_line line (members, entries) =
    if line == bytes "\t},"
    then ([], entries)
    else if nat_eq (code_at line) b'\t'
    then (before_byte b',' (drop 2 line) ∷ members, entries)
    else ([], (before_byte b':' (drop 1 line), members) ∷ entries)
  where
    code_at : Str → ℕ
    code_at (x ∷ y ∷ s) = y
    code_at _ = 0

unfoldable pub read_entry_lines : List Str → List Str × List (Str × List Str)
read_entry_lines [] = ([], [])
read_entry_lines (line ∷ lines) = let rest = read_entry_lines lines in add_line line rest

abbrev pub is_entry : Str × List Str → Bool
is_entry (name, members) = is_name name && all is_name members

read_members :
    (ms : List Str) (lines : List Str)
    → all is_name ms ≡ true
    → read_entry_lines (map member_line ms ++ lines)
      ≡ (ms ++ (read_entry_lines lines).0, (read_entry_lines lines).1)
unfolding read_entry_lines all bytes ◌==◌
read_members [] lines h = refl
read_members (m ∷ ms) lines h =
    let here = before_byte-name b',' m [] refl (ground arith) in
    let later = read_members ms lines (ground arith) in rw (later, here) refl

read_head :
    (name : Str) (rest : List Str × List (Str × List Str))
    → is_name name ≡ true
    → add_line (bytes "\t" ++ (name ++ bytes ": {")) rest ≡ ([], (name, rest.0) ∷ rest.1)
unfolding bytes ◌==◌ all before_byte
read_head [] rest h = refl
read_head (x ∷ s) rest h =
    let found = before_byte-name b':' (x ∷ s) (b' ' ∷ b'{' ∷ []) refl h in
    let not_tab : nat_eq x b'\t' ≡ false = ground arith in
    let not_brace : nat_eq x b'}' ≡ false = ground arith in rw (not_brace, not_tab) (rw found refl)

close_entry :
    (name : Str) (ms : List Str) (es : List (Str × List Str))
    → ◌≡◌ {A = List Str × List (Str × List Str)}
        (
          [],
          (name, ms ++ (add_line (bytes "\t},") ([], es)).0) ∷ (add_line (bytes "\t},") ([], es)).1,
        )
        ([], (name, ms) ∷ es)
unfolding bytes ◌==◌
close_entry name ms es = rw (append-nil ms) refl

pub read_entries :
    (es : List (Str × List Str))
    → all is_entry es ≡ true
    → read_entry_lines (entry_lines es) ≡ ([], es)
unfolding read_entry_lines all
read_entries [] h = refl
read_entries ((name, ms) ∷ es) h =
    let later = read_entries es (ground arith) in
    let inside = read_members ms (bytes "\t}," ∷ entry_lines es) (ground arith) in
    rw inside (read_head name _ (ground arith) ∙ rw later (close_entry name ms es))
