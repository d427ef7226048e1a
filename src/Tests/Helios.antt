-- ===== src/Tests/Helios.antt =====
-- Cases of helios_permissions_test/client_test.go.
use helios_permission_golang.Prelude.{
  Str, none, some, inl, [], ◌∷◌, ◌≡◌, ◌↔◌, refl, pos, bytes, ◌==◌, lookup, insert, delete,
}
use helios_permission_golang.Errors.{unreachable, network, non_2xx, body_parse, ok}
use helios_permission_golang.Helios.{
  Request, timed_client, with_defaults, new_helios_client, path_of, payload, not_a_member,
  read_limited, parse_body, by_status, resolve, sign, request, fetch_user_permissions,
}
use helios_permission_golang.Helios.Decimal.{format_nat, format_int}
use helios_permission_golang.Helios.Hex.{encode_to_string}
use helios_permission_golang.Helios.Laws.{Answers, resolve_iff}
use helios_permission_golang.Helios.Outcomes.{IsOutcome, IsTimed, fetch_user_permissions-IsOutcome}
use helios_permission_golang.Tests.World
use helios_permission_golang.Tests.World.{reply, client, options, active_member}

code : Unit {0}
unfolding bytes ◌==◌ lookup insert delete format_nat format_int encode_to_string timed_client
    with_defaults new_helios_client path_of payload read_limited parse_body by_status resolve sign
    request fetch_user_permissions World.unmarshal World.send
code = tt

timestamps : (format_int (pos 1700000000) ≡ bytes "1700000000") × (format_int (pos 0) ≡ bytes "0")
unfolding code
timestamps = (refl, refl)

hex : encode_to_string (0 ∷ 171 ∷ 255 ∷ []) ≡ bytes "00abff"
unfolding code
hex = refl

abbrev u1 : Str
u1 = bytes "u1"

abbrev t1 : Str
t1 = bytes "t1"

statuses :
    ((fetch_user_permissions World.network client u1 t1 (reply 200 (bytes "{active}") ∷ [])).0
      ≡ (some active_member, none))
    × ((fetch_user_permissions World.network client u1 t1 (reply 404 (bytes "gone") ∷ [])).0
        ≡ (some not_a_member, none))
    × ((fetch_user_permissions World.network client u1 t1 (reply 503 (bytes "down") ∷ [])).0
        ≡ (none, some (unreachable 503 non_2xx (some (bytes "body=down")))))
    × ((fetch_user_permissions World.network client u1 t1 (reply 200 (bytes "<html>") ∷ [])).0
        ≡ (none, some (unreachable 200 body_parse (some (bytes "syntax")))))
    × ((fetch_user_permissions World.network client u1 t1 []).0
        ≡ (none, some (unreachable 0 network (some (bytes "connection refused")))))
unfolding code
statuses = (refl, refl, refl, refl, refl)

built : new_helios_client options ≡ ok client
unfolding code
built = refl

abbrev sent : Request
sent = request World.network client (pos 1700000000) u1 t1

resolve_iff_example :
    (resolve World.network (reply 404 (bytes "gone")) ≡ (some not_a_member, none))
    ↔ Answers World.network (reply 404 (bytes "gone")) not_a_member
resolve_iff_example = resolve_iff World.network (reply 404 (bytes "gone")) not_a_member

fetch_user_permissions-IsOutcome_example :
    IsOutcome (fetch_user_permissions World.network client u1 t1 (reply 503 (bytes "down") ∷ [])).0
fetch_user_permissions-IsOutcome_example =
    fetch_user_permissions-IsOutcome World.network client u1 t1 (reply 503 (bytes "down") ∷ [])

options-IsTimed : IsTimed options
options-IsTimed = inl (λ h e. cc)
