-- ===== src/Codegen/Text/Utf8.antt =====
-- Go's string literals with characters outside ASCII, which a Go source holds in UTF-8.
use helios_permission_golang.Prelude.{
  ℕ, ◌+◌, ◌/◌, ◌%◌, ltb, if◌then◌else◌, Str, [], ◌∷◌, ◌++◌, String,
}
use Prim.Native.Char.{code}

-- The bytes of a code point below 65536.
abbrev encode_rune : ℕ → Str
encode_rune x =
    if ltb x 128
    then x ∷ []
    else if ltb x 2048
    then (192 + x / 64) ∷ (128 + x % 64) ∷ []
    else (224 + x / 4096) ∷ (128 + (x / 64) % 64) ∷ (128 + x % 64) ∷ []

unfoldable pub text : String → Str
text String.[] = []
text (String.◌∷◌ c s) = encode_rune (code c) ++ text s
