-- ===== src/Codegen/Text/Sections.antt =====
-- The sections of a text by lines: what stands between an opening and the next closing line.
use helios_permission_golang.Prelude.{
  Str, false, if◌then◌else◌, List, [], ◌∷◌, ◌++◌, ◌==◌, ==-self, contains, ◌≡◌, refl, arith,
}

unfoldable pub after : Str → List Str → List Str
after line [] = []
after line (l ∷ ls) = let rest = after line ls in if l == line then ls else rest

unfoldable pub until : Str → List Str → List Str
until line [] = []
until line (l ∷ ls) = let rest = until line ls in if l == line then [] else l ∷ rest

-- The lines of the section, and those after its closing line.
unfoldable pub section_of : Str → Str → List Str → List Str × List Str
section_of open_line close_line ls =
    let inside = after open_line ls in (until close_line inside, after close_line inside)

after-append :
    (line : Str) (before rest : List Str)
    → contains before line ≡ false
    → after line (before ++ line ∷ rest) ≡ rest
unfolding after contains
after-append line [] rest h = rw (==-self line) refl
after-append line (l ∷ before) rest h = ground (arith, after-append line before rest)

until-append :
    (line : Str) (inside rest : List Str)
    → contains inside line ≡ false
    → until line (inside ++ line ∷ rest) ≡ inside
unfolding until contains
until-append line [] rest h = rw (==-self line) refl
until-append line (l ∷ inside) rest h = ground (arith, until-append line inside rest)

pub section_of-append :
    (open_line close_line : Str) (before inside rest : List Str)
    → contains before open_line ≡ false
    → contains inside close_line ≡ false
    → section_of open_line close_line (before ++ open_line ∷ (inside ++ close_line ∷ rest))
      ≡ (inside, rest)
unfolding section_of
section_of-append open_line close_line before inside rest h k =
    rw
      (
        after-append open_line before (inside ++ close_line ∷ rest) h,
        until-append close_line inside rest k,
        after-append close_line inside rest k,
      )
      refl
