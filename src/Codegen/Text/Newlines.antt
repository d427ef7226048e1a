-- ===== src/Codegen/Text/Newlines.antt =====
-- cmd/codegen/main.go: the output as one text, and its lines.
use helios_permission_golang.Prelude.{
  ℕ, nat_eq, Str, Bool, true, false, not, if◌then◌else◌, List, [], ◌∷◌, ◌++◌, all, ◌≡◌, refl, ap,
  ◌∙◌, arith,
}
use helios_permission_golang.Codegen.Text.{joined_lines}
use helios_permission_golang.Codegen.Text.Blocks.{all_but_last}

-- The text up to the first newline, and the lines after it.
unfoldable pub cut_lines : Str → Str × List Str
cut_lines [] = ([], [])
cut_lines (x ∷ s) =
    let (line, lines) = cut_lines s in if nat_eq x 10 then ([], line ∷ lines) else (x ∷ line, lines)

-- `strings.Split(s, "\n")`, less what follows the last newline.
abbrev pub lines_of : Str → List Str
lines_of s = let (line, lines) = cut_lines s in all_but_last (line ∷ lines)

abbrev pub not_newline : ℕ → Bool
not_newline x = not (nat_eq x 10)

abbrev pub is_line : Str → Bool
is_line s = all not_newline s

cut_lines-append :
    (l s : Str)
    → is_line l ≡ true
    → cut_lines (l ++ 10 ∷ s) ≡ (l, (cut_lines s).0 ∷ (cut_lines s).1)
unfolding cut_lines all
cut_lines-append [] s h = refl
cut_lines-append (x ∷ l) s h =
    let other : nat_eq x 10 ≡ false = ground arith in
    rw (other, cut_lines-append l s (ground arith)) refl

all_but_last-append : (l : Str) (ls : List Str) → all_but_last (ls ++ l ∷ []) ≡ ls
all_but_last-append l [] = refl
all_but_last-append l (k ∷ []) = refl
all_but_last-append l (k ∷ j ∷ ls) = ap (λ xs. k ∷ xs) (all_but_last-append l (j ∷ ls))

cut_lines-joined :
    (ls : List Str)
    → all is_line ls ≡ true
    → ((cut_lines (joined_lines ls)).0 ∷ (cut_lines (joined_lines ls)).1) ≡ ls ++ [] ∷ []
unfolding joined_lines all
cut_lines-joined [] h = unfold cut_lines in refl
cut_lines-joined (l ∷ ls) h =
    rw (cut_lines-append l (joined_lines ls) (ground arith))
      (ap (λ xs. l ∷ xs) (cut_lines-joined ls (ground arith)))

-- Lines without a newline are read back from their text.
pub lines_of-joined_lines :
    (ls : List Str) → all is_line ls ≡ true → lines_of (joined_lines ls) ≡ ls
lines_of-joined_lines ls h = ap all_but_last (cut_lines-joined ls h) ∙ all_but_last-append [] ls
