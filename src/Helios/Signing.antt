-- ===== src/Helios/Signing.antt =====
-- helios_permissions/client.go: what a request's signature vouches for.
use helios_permission_golang.Prelude.{
  ℕ, Str, Bool, false, if◌then◌else◌, Option, none, ◌>>=◌, nat_eq, some, [], ◌∷◌, ◌++◌, ◌≡◌, refl,
  ap, arith, ℤ, bytes, ◌==◌, lookup, len, len-append,
}
use mathlib.Core.List.{append_assoc}
use helios_permission_golang.Helios.{Request, Env, HeliosClient, path_of, payload, sign, request}
use helios_permission_golang.Helios.Decimal.{format_int, format_int-injective}
use helios_permission_golang.Helios.Hex.{encode_to_string}

append-injective : (s t u v : Str) → s ++ t ≡ u ++ v → len t ≡ len v → (s ≡ u) × (t ≡ v)
append-injective [] t [] v e h = (refl, e)
append-injective [] t (y ∷ u) v e h = absurd (omega (arith, len-append (y ∷ u) v, ap len e))
append-injective (x ∷ s) t [] v e h = absurd (omega (arith, len-append (x ∷ s) t, ap len e))
append-injective (x ∷ s) t (y ∷ u) v e h = ground (arith, append-injective s t u v)

append_cancel : (s t u : Str) → s ++ t ≡ s ++ u → t ≡ u
append_cancel [] t u e = e
append_cancel (x ∷ s) t u e = append_cancel s t u (ground arith)

abbrev get : Str
get = bytes "GET"

-- Of two timestamps with equally many digits, no two users or times have the same signed text.
pub payload-injective :
    (u v : Str) (a b : ℤ)
    → len (format_int a) ≡ len (format_int b)
    → payload get (path_of u) (format_int a) ≡ payload get (path_of v) (format_int b)
    → (u ≡ v) × (a ≡ b)
unfolding payload path_of
payload-injective u v a b h e =
    let whole = append_cancel get _ _ e in
    let (paths, times) = append-injective (path_of u) _ (path_of v) _ whole h in
    (append_cancel (bytes "/internal/permissions/") _ _ paths, format_int-injective a b times)

-- Nothing separates the path from the timestamp: the text `d` at the end of the user identifier and
-- at the start of the timestamp gives the same signature.
pub sign_shared :
    (E : Env) (c : HeliosClient) (u d timestamp : Str)
    → sign E c get (path_of (u ++ d)) timestamp ≡ sign E c get (path_of u) (d ++ timestamp)
unfolding sign payload path_of
sign_shared E c u d timestamp = simp append_assoc

module _ (E : Env) (c : HeliosClient) (seconds : ℤ) (u : Str) where
  -- The tenant is in the URL alone: requests for two tenants carry the same headers, the signature
  -- among them.
  pub headers_ignore_tenant :
      (t t' : Str) → (request E c seconds u t).headers ≡ (request E c seconds u t').headers
  unfolding request
  headers_ignore_tenant t t' = refl

-- A text without the text at its head.
abbrev pub after_head : Str → Str → Option Str
after_head [] s = some s
after_head (x ∷ p) [] = none
after_head (x ∷ p) (y ∷ s) = let rest = after_head p s in if nat_eq x y then rest else none

-- A text up to the first occurrence of a byte.
abbrev pub until : ℕ → Str → Str
until c [] = []
until c (x ∷ s) = let rest = until c s in if nat_eq x c then [] else x ∷ rest

-- What a server does with the secret, a request, and the URL that it is reached at: it takes the
-- path of the request from the URL, up to the query, and the timestamp from its header, and
-- compares the digest of method, path and timestamp with the signature in its header.
abbrev signs : (Str → Str → Str) → Str → Str → Option Str → Option Str → Option Str → Bool
signs hmac secret method (some path) (some timestamp) (some signature) =
    signature == encode_to_string (hmac secret (method ++ (path ++ timestamp)))
signs hmac secret method _ _ _ = false

abbrev pub accepts : (Str → Str → Str) → Str → Str → Request → Bool
accepts hmac secret base r =
    signs hmac secret r.method (do rest ← after_head base r.url; some (until b'?' rest))
      (lookup (bytes "x-timestamp") r.headers) (lookup (bytes "x-signature") r.headers)
