-- ===== src/Tests/Factory.antt =====
-- helios_permissions/factory.go on connections that are a list of open URLs.
use helios_permission_golang.Prelude.{
  ◌≢◌, Bool, Str, true, if◌then◌else◌, none, some, List, [], ◌∷◌, pos, bytes, ◌==◌, ◌≡◌, ◌↔◌, refl,
}
use helios_permission_golang.Errors.{ok, err, wrapped}
use helios_permission_golang.Redis.{done}
use helios_permission_golang.Factory.{Driver, CreateOptions, missing_option, create, close}
use helios_permission_golang.Factory.Outcomes.{create_iff}
use helios_permission_golang.Factory.Described.{Uses, described}
use helios_permission_golang.Factory.Connections.{Ends, create-Ends}
use helios_permission_golang.Tests.Server.{server}

abbrev down : Str
down = bytes "redis://down"

abbrev up : Str
up = bytes "redis://up"

unfoldable without : Str → List Str → List Str
without url [] = []
without url (x ∷ urls) = let rest = without url urls in if x == url then rest else x ∷ rest

abbrev driver : Driver
driver = record {
  World = List Str;
  Handle = Str;
  Options = Str;
  parse_url = λ url. done url;
  new_redis_client = λ url w. (url, url ∷ w);
  ping = λ url w. if url == down then (some (bytes "refused"), w) else (none, w);
  close = λ url w. (none, without url w);
  commands = λ url. server;
  pages = 1000;
}

abbrev options : Str → CreateOptions driver
options url = record {
  helios_base_url = bytes "https://helios.svc";
  signature_shared_secret = bytes "secret";
  helios_source_service = [];
  redis_url = url;
  redis = none;
  cache_ttl_seconds = pos 0;
  stale_on_error = none;
  fetch_timeout = pos 0;
  http_client = none;
}

code : Unit {0}
unfolding create missing_option bytes ◌==◌ without close
code = tt

-- A client that does not answer is closed again.
down_is_closed :
    create driver (options down) []
    ≡ (err (wrapped (bytes "helios_permissions: Redis ping failed") (bytes "refused")), [])
unfolding code
down_is_closed = refl

create_iff_example :
    (create driver (options up) [] ≡ (ok (described driver (options up) up true), up ∷ [])) ↔ (
      (bytes "https://helios.svc" ≢ [])
      × (bytes "secret" ≢ [])
      × ((redis : Str) × (owns : Bool) × (w : List Str) × Uses driver (options up) [] redis owns w
          × (driver.ping redis w ≡ (none, up ∷ []))
          × (described driver (options up) up true ≡ described driver (options up) redis owns)))
create_iff_example =
    create_iff driver (options up) [] (up ∷ []) (described driver (options up) up true)

create-Ends_example : Ends driver (options down) [] (create driver (options down) [])
create-Ends_example = create-Ends driver (options down) []
