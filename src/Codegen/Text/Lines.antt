-- ===== src/Codegen/Text/Lines.antt =====
-- cmd/codegen/main.go: no line of the output has a newline, and so the text holds the declarations.
use helios_permission_golang.Prelude.{
  Str, Bool, true, List, [], ◌∷◌, ◌++◌, bytes, all, all-append, ◌≡◌, refl, ◌∙◌, arith,
}
use helios_permission_golang.Codegen.{map}
use helios_permission_golang.Codegen.Text.{
  quoted, quote, role_line, perm_line, item_line, pair_line, case_lines, member_line, entry_lines,
}
use helios_permission_golang.Codegen.Text.Reading.{is_name, is_plain, is_pair, is_const, is_entry}
use helios_permission_golang.Codegen.Text.Newlines.{not_newline, is_line}

pub both :
    {A : Type 0} (q : A → Bool) (xs ys : List A)
    → all q xs ≡ true
    → all q ys ≡ true
    → all q (xs ++ ys) ≡ true
both q xs ys h k = all-append q xs ys ∙ ground (arith, h, k)

pub name-is_line : (s : Str) → is_name s ≡ true → is_line s ≡ true
unfolding all
name-is_line [] h = refl
name-is_line (x ∷ s) h = ground (arith, name-is_line s)

pub quoted-is_line : (s : Str) → is_plain s ≡ true → is_line (quoted s) ≡ true
unfolding all quoted bytes
quoted-is_line [] h = refl
quoted-is_line (x ∷ s) h = ground (arith, quoted-is_line s)

pub lines-are :
    {A : Type 0} (print : A → Str) (is_good : A → Bool)
    → ((a : A) → is_good a ≡ true → is_line (print a) ≡ true)
    → (xs : List A) → all is_good xs ≡ true
    → all is_line (map print xs) ≡ true
unfolding all
lines-are print is_good h [] k = refl
lines-are print is_good h (a ∷ xs) k =
    let here = h a (ground arith) in
    let later = lines-are print is_good h xs (ground arith) in rw (here, later) refl

-- A name between two texts.
pub name_between :
    (before n rest : Str)
    → is_line before ≡ true
    → is_name n ≡ true
    → is_line rest ≡ true
    → is_line (before ++ (n ++ rest)) ≡ true
name_between before n rest h k l =
    both not_newline before (n ++ rest) h (both not_newline n rest (name-is_line n k) l)

pub item-is_line : (n : Str) → is_name n ≡ true → is_line (item_line n) ≡ true
unfolding bytes all
item-is_line n h = name_between (bytes "\t") n (bytes ",") refl h refl

pub member-is_line : (n : Str) → is_name n ≡ true → is_line (member_line n) ≡ true
unfolding bytes all
member-is_line n h = name_between (bytes "\t\t") n (bytes ",") refl h refl

pub pair-is_line : (p : Str × Str) → is_pair p ≡ true → is_line (pair_line p) ≡ true
unfolding bytes all
pair-is_line (n, s) h =
    name_between (bytes "\t") n (bytes ": " ++ (s ++ bytes ",")) refl (ground arith)
      (name_between (bytes ": ") s (bytes ",") refl (ground arith) refl)

pub role-is_line : (p : Str × Str) → is_const p ≡ true → is_line (role_line p) ≡ true
unfolding bytes all
role-is_line (n, v) h =
    name_between (bytes "\t") n (bytes " Role = " ++ quote v) refl (ground arith)
      (quoted-is_line v (ground arith))

pub perm-is_line : (p : Str × Str) → is_const p ≡ true → is_line (perm_line p) ≡ true
unfolding bytes all
perm-is_line (n, v) h =
    name_between (bytes "\t") n (bytes " Permission = " ++ quote v) refl (ground arith)
      (quoted-is_line v (ground arith))

pub cases-are_lines : (ns : List Str) → all is_name ns ≡ true → all is_line (case_lines ns) ≡ true
unfolding bytes all
cases-are_lines [] h = refl
cases-are_lines (n ∷ ns) h =
    let here = name_between (bytes "\tcase ") n (bytes ":") refl (ground arith) refl in
    let later = cases-are_lines ns (ground arith) in rw (here, later) refl

pub entries-are_lines :
    (es : List (Str × List Str)) → all is_entry es ≡ true → all is_line (entry_lines es) ≡ true
unfolding bytes all
entries-are_lines [] h = refl
entries-are_lines ((n, ms) ∷ es) h =
    let here = name_between (bytes "\t") n (bytes ": {") refl (ground arith) refl in
    let members = lines-are member_line is_name member-is_line ms (ground arith) in
    let later = entries-are_lines es (ground arith) in
    rw (here, both is_line (map member_line ms) (bytes "\t}," ∷ entry_lines es) members later) refl
