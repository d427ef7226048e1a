-- ===== src/Errors.antt =====
-- The errors of helios_permissions: `HeliosUnreachableError` of client.go, and the errors that the
-- constructors and the cache return. An error of a library is its text.
pub mod Text
use helios_permission_golang.Prelude.{ℕ, Str, Option, Bool, true, false}

-- The values of `HeliosUnreachableError.Reason`.
pub data Reason : Type 0 where
  request_build network non_2xx body_read body_parse : Reason

pub data Error : Type 0 where
  -- `&HeliosUnreachableError{StatusCode, Reason, Err}`
  unreachable : ℕ → Reason → Option Str → Error
  -- `errors.New(text)` and `fmt.Errorf` of a text alone
  message : Str → Error
  -- `fmt.Errorf("context: %w", err)` of a library's error
  wrapped : Str → Str → Error
  -- an error of go-redis, returned as it is
  redis_failed : Str → Error

-- `IsHeliosUnreachableError`: no error of the package wraps a `HeliosUnreachableError`.
unfoldable pub is_helios_unreachable_error : Error → Bool
is_helios_unreachable_error (unreachable status reason err) = true
is_helios_unreachable_error _ = false

-- A constructor's outcome: a value, an error, or a panic with its text.
pub data Result {ℓ} (A : Type ℓ) : Type ℓ where
  ok : A → Result A
  err : Error → Result A
  panic : Str → Result A

-- `if err != nil { return nil, err }`
abbrev pub and_then {ℓ κ} : {A : Type ℓ} {B : Type κ} → Result A → (A → Result B) → Result B
and_then (ok x) f = f x
and_then (err e) f = err e
and_then (panic text) f = panic text
