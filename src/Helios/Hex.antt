-- ===== src/Helios/Hex.antt =====
-- helios_permissions/client.go: `hex.EncodeToString`, which writes the signature.
use helios_permission_golang.Prelude.{
  ℕ, ◌+◌, ◌*◌, ◌/◌, ◌%◌, ◌<◌, Str, [], ◌∷◌, ◌≡◌, refl, arith, ltb, if◌then◌else◌, len,
}
use mathlib.Core.Path.{ap₂}

hex_digit : ℕ → ℕ
hex_digit d = if ltb d 10 then 48 + d else 87 + d

unfoldable pub encode_to_string : Str → Str
unfolding hex_digit
encode_to_string [] = []
encode_to_string (b ∷ bs) = hex_digit (b / 16) ∷ hex_digit (b % 16) ∷ encode_to_string bs

-- Every item is a byte.
abbrev pub AreBytes : Str → Type 0
AreBytes [] = Unit
AreBytes (b ∷ bs) = (b < 256) × AreBytes bs

pub len-encode_to_string : (bs : Str) → len (encode_to_string bs) ≡ 2 * len bs
unfolding encode_to_string
len-encode_to_string [] = refl
len-encode_to_string (b ∷ bs) = omega (arith, len-encode_to_string bs)

hex_digit-injective : (c d : ℕ) → c < 16 → d < 16 → hex_digit c ≡ hex_digit d → c ≡ d
unfolding hex_digit
hex_digit-injective c d p q e = ground arith

-- Two digests that are written alike are the same.
pub encode_to_string-injective :
    (bs cs : Str) → AreBytes bs → AreBytes cs → encode_to_string bs ≡ encode_to_string cs → bs ≡ cs
unfolding encode_to_string
encode_to_string-injective [] [] p q e = refl
encode_to_string-injective [] (c ∷ cs) p q e = cc
encode_to_string-injective (b ∷ bs) [] p q e = cc
encode_to_string-injective (b ∷ bs) (c ∷ cs) p q e =
    let high : b / 16 ≡ c / 16 = hex_digit-injective _ _ (omega arith) (omega arith) (cc) in
    let low : b % 16 ≡ c % 16 = hex_digit-injective _ _ (omega arith) (omega arith) (cc) in
    let rest : bs ≡ cs = encode_to_string-injective bs cs p.1 q.1 (cc) in ap₂ ◌∷◌ (omega arith) rest
