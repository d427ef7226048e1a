-- ===== src/Errors/Text.antt =====
-- The texts of errors: `HeliosUnreachableError.Error` of helios_permissions/client.go, and what
-- `errors.New` and `fmt.Errorf` make.
use helios_permission_golang.Prelude.{ℕ, Str, none, some, ◌++◌, bytes}
use helios_permission_golang.Errors.{
  Reason, request_build, network, non_2xx, body_read, body_parse, Error, unreachable, message,
  wrapped, redis_failed,
}
use helios_permission_golang.Helios.Decimal.{format_nat}

unfoldable pub reason_text : Reason → Str
reason_text request_build = bytes "request_build"
reason_text network = bytes "network"
reason_text non_2xx = bytes "non_2xx"
reason_text body_read = bytes "body_read"
reason_text body_parse = bytes "body_parse"

-- `fmt.Sprintf("helios unreachable (%s, status=%d)", e.Reason, e.StatusCode)`
unfoldable pub unreachable_text : ℕ → Reason → Str
unreachable_text status reason =
    bytes "helios unreachable ("
    ++ (reason_text reason ++ (bytes ", status=" ++ (format_nat status ++ bytes ")")))

unfoldable pub error_text : Error → Str
error_text (unreachable status reason none) = unreachable_text status reason
error_text (unreachable status reason (some err)) =
    unreachable_text status reason ++ (bytes ": " ++ err)
error_text (message m) = m
error_text (wrapped context err) = context ++ (bytes ": " ++ err)
error_text (redis_failed err) = err
