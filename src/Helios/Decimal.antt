-- ===== src/Helios/Decimal.antt =====
-- helios_permissions/client.go: `strconv.FormatInt(seconds, 10)`, which writes the timestamp.
use helios_permission_golang.Prelude.{
  ℕ, zero, suc, ℤ, pos, negsuc, ◌+◌, ◌-◌, ◌*◌, ◌/◌, ◌%◌, ◌≤◌, ◌<◌, Str, [], ◌∷◌, ◌++◌, ◌≡◌, refl,
  sym, ap, arith, ltb, if◌then◌else◌, Bool-cases, inl, inr,
}
use mathlib.Core.Path.{subst}

-- The digits of a number below ten to the power of the fuel.
digits : ℕ → ℕ → Str
digits zero n = []
digits (suc fuel) n =
    let higher = digits fuel (n / 10) in
    if ltb n 10 then (48 + n) ∷ [] else higher ++ (48 + n % 10) ∷ []

-- A number has at most as many digits as itself, and 0 has one.
unfoldable pub format_nat : ℕ → Str
unfolding digits
format_nat n = digits (suc n) n

unfoldable pub format_int : ℤ → Str
format_int (pos n) = format_nat n
format_int (negsuc n) = b'-' ∷ format_nat (suc n)

-- The value of a text of digits, after the value of those before it.
abbrev value_from : ℕ → Str → ℕ
value_from acc [] = acc
value_from acc (c ∷ s) = value_from (acc * 10 + (c - 48)) s

value_from-append :
    (acc : ℕ) (s : Str) (c : ℕ) → value_from acc (s ++ c ∷ []) ≡ value_from acc s * 10 + (c - 48)
value_from-append acc [] c = refl
value_from-append acc (d ∷ s) c = value_from-append (acc * 10 + (d - 48)) s c

digits-value : (fuel n : ℕ) → n < fuel → value_from 0 (digits fuel n) ≡ n
unfolding digits
digits-value zero n h = absurd (omega arith)
digits-value (suc fuel) n h = elim (Bool-cases (ltb n 10)) [
  | inl small ↦ rw small (ground arith)
  | inr large ↦
      rw
        (
          large,
          value_from-append 0 (digits fuel (n / 10)) (48 + n % 10),
          digits-value fuel (n / 10) (ground arith),
        )
        (omega arith)
]

pub format_nat-value : (n : ℕ) → value_from 0 (format_nat n) ≡ n
unfolding format_nat
format_nat-value n = digits-value (suc n) n (omega arith)

-- Every byte is at least "0".
abbrev pub AreDigits : Str → Type 0
AreDigits [] = Unit
AreDigits (c ∷ s) = (48 ≤ c) × AreDigits s

AreDigits-append : (s : Str) (c : ℕ) → AreDigits s → 48 ≤ c → AreDigits (s ++ c ∷ [])
AreDigits-append [] c h p = (p, tt)
AreDigits-append (d ∷ s) c h p = (h.0, AreDigits-append s c h.1 p)

digits-AreDigits : (fuel n : ℕ) → AreDigits (digits fuel n)
unfolding digits
digits-AreDigits zero n = tt
digits-AreDigits (suc fuel) n = elim (Bool-cases (ltb n 10)) [
  | inl small ↦ rw small (omega arith)
  | inr large ↦ rw large (
      AreDigits-append (digits fuel (n / 10)) (48 + n % 10) (digits-AreDigits fuel (n / 10))
        (omega arith))
]

format_nat-AreDigits : (n : ℕ) → AreDigits (format_nat n)
unfolding format_nat
format_nat-AreDigits n = digits-AreDigits (suc n) n

format_nat-injective : (a b : ℕ) → format_nat a ≡ format_nat b → a ≡ b
format_nat-injective a b e = cc (format_nat-value a, format_nat-value b, ap (value_from 0) e)

signed-ne : (a b : ℕ) → format_nat a ≡ b'-' ∷ format_nat b → ⊥
signed-ne a b e =
    let h : AreDigits (b'-' ∷ format_nat b) = subst AreDigits e (format_nat-AreDigits a) in
    omega arith

-- Two times that are written alike are the same.
pub format_int-injective : (a b : ℤ) → format_int a ≡ format_int b → a ≡ b
unfolding format_int
format_int-injective (pos a) (pos b) e = ap pos (format_nat-injective a b e)
format_int-injective (pos a) (negsuc b) e = absurd (signed-ne a (suc b) e)
format_int-injective (negsuc a) (pos b) e = absurd (signed-ne b (suc a) (sym e))
format_int-injective (negsuc a) (negsuc b) e =
    let same : suc a ≡ suc b = format_nat-injective _ _ (ground arith) in ap negsuc (omega arith)
