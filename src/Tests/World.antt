-- ===== src/Tests/World.antt =====
-- A network that hands out prepared replies, with a clock that stands still, for the tests.
use helios_permission_golang.Prelude.{
  ℕ, ◌+◌, ◌%◌, Str, true, if◌then◌else◌, none, some, List, [], ◌∷◌, pos, bytes, ◌==◌, len,
}
use helios_permission_golang.Permission
use helios_permission_golang.Helios.{
  HttpClient, Request, Reply, failed, response, MembershipResolution, Decoded, invalid, decoded,
  Env, HeliosClientOptions, HeliosClient,
}

abbrev pub active_member : MembershipResolution
active_member = record {
  status = bytes "active";
  role = bytes "VIEWER";
  permissions = some (Permission.zeta_billing_view ∷ []);
  is_active = true;
  expires_at = none;
  reason = [];
}

unfoldable pub unmarshal : Str → Decoded
unmarshal body =
    if body == bytes "{active}" then decoded active_member else invalid (bytes "syntax")

-- The length of the key and the message stands for their digest.
abbrev pub digest : Str → Str → Str
digest key text = (len key + len text) % 256 ∷ []

unfoldable pub send : HttpClient → Request → List Reply → Reply × List Reply
send client req [] = (failed (bytes "connection refused"), [])
send client req (reply ∷ replies) = (reply, replies)

abbrev pub network : Env
network = record {
  World = List Reply;
  now = λ w. pos 1700000000;
  hmac_sha256 = digest;
  refuse_url = λ url. none;
  send = send;
  unmarshal = unmarshal;
}

abbrev pub reply : ℕ → Str → Reply
reply status body = response (record { status_code = status; body = body; broken = none })

abbrev pub options : HeliosClientOptions
options = record {
  base_url = bytes "https://helios.svc";
  signature_shared_secret = bytes "secret";
  source_service = [];
  http_client = none;
  fetch_timeout = pos 0;
}

abbrev pub client : HeliosClient
client = record {
  base_url = bytes "https://helios.svc";
  signature_shared_secret = bytes "secret";
  source_service = bytes "helios-permissions-go";
  http_client = record { timeout = pos 2000000000 };
}
