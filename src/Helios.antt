-- ===== src/Helios.antt =====
-- helios_permissions/client.go: the client of the endpoint `GET /internal/permissions/:userId`.
pub mod Decimal
pub mod Hex
pub mod Laws
pub mod Outcomes
pub mod Signing
use helios_permission_golang.Prelude.{
  ℕ, ltb, ◌*◌, Str, Bool, true, false, ◌||◌, if◌then◌else◌, Option, none, some, List, [], ◌∷◌, ◌++◌,
  ℤ, pos, is_positive, Table, insert, bytes, ◌==◌, nat_eq, leb, len, take,
}
use helios_permission_golang.Errors.{
  Error, unreachable, request_build, network, non_2xx, body_read, body_parse, Result, ok, panic,
}
use helios_permission_golang.Cache.{Slice}
use helios_permission_golang.Roles.{Role}
use helios_permission_golang.Duration.{second}
use Decimal.{format_int}
use Hex.{encode_to_string}

-- `http.Client`, of which the package sets and reads the timeout.
pub record HttpClient : Type 0 where
  pub timeout : ℤ

pub record Request : Type 0 where
  pub method : Str
  pub url : Str
  pub headers : Table Str

-- The body is what the stream delivers, with the error that breaks it off, if one does.
pub record Response : Type 0 where
  pub status_code : ℕ
  pub body : Str
  pub broken : Option Str

pub data Reply : Type 0 where
  failed : Str → Reply
  response : Response → Reply

-- An instant is its RFC 3339 text.
pub record MembershipResolution : Type 0 where
  pub status : Str
  pub role : Role
  pub permissions : Slice
  pub is_active : Bool
  pub expires_at : Option Str
  pub reason : Str

pub data Decoded : Type 0 where
  invalid : Str → Decoded
  decoded : MembershipResolution → Decoded

-- What client.go takes from the network and the libraries: the clock in seconds, HMAC-SHA256 by
-- key and message, the refusal of a URL by `http.NewRequestWithContext`, the exchange of
-- `http.Client.Do`, and `json.Unmarshal` into a `MembershipResolution`.
pub record Env : Type 1 where
  pub World : Type 0
  pub now : World → ℤ
  pub hmac_sha256 : Str → Str → Str
  pub refuse_url : Str → Option Str
  pub send : HttpClient → Request → World → Reply × World
  pub unmarshal : Str → Decoded

pub record HeliosClientOptions : Type 0 where
  pub base_url : Str
  pub signature_shared_secret : Str
  pub source_service : Str
  pub http_client : Option HttpClient
  pub fetch_timeout : ℤ

-- The options after the defaults. `Now` is `Env.now`.
pub record HeliosClient : Type 0 where
  pub base_url : Str
  pub signature_shared_secret : Str
  pub source_service : Str
  pub http_client : HttpClient

abbrev pub or_default : Str → Str → Str
or_default default s = if s == [] then default else s

-- An injected `http.Client` is changed in place, so the client holds what its owner sees.
unfoldable pub timed_client : Option HttpClient → ℤ → HttpClient
unfolding is_positive
timed_client none timeout =
    if is_positive timeout
    then record { timeout = timeout }
    else record { timeout = pos (2 * second) }
timed_client (some client) timeout =
    if is_positive timeout then record { timeout = timeout } else client

unfoldable pub with_defaults : HeliosClientOptions → HeliosClient
unfolding timed_client
with_defaults opts = record {
  base_url = opts.base_url;
  signature_shared_secret = opts.signature_shared_secret;
  source_service = or_default (bytes "helios-permissions-go") opts.source_service;
  http_client = timed_client opts.http_client opts.fetch_timeout;
}

unfoldable pub new_helios_client : HeliosClientOptions → Result HeliosClient
new_helios_client opts =
    if opts.base_url == []
    then panic (bytes "helios_permissions: HeliosClientOptions.BaseURL is required")
    else if opts.signature_shared_secret == []
    then panic (bytes "helios_permissions: HeliosClientOptions.SignatureSharedSecret is required")
    else ok (with_defaults opts)

-- `fmt.Sprintf("/internal/permissions/%s", userID)`
unfoldable pub path_of : Str → Str
path_of user_id = bytes "/internal/permissions/" ++ user_id

-- `io.ReadAll(io.LimitReader(resp.Body, n))`: the break is met only below the limit.
unfoldable pub read_limited : ℕ → Response → Str × Option Str
read_limited n resp =
    if leb n (len resp.body) then (take n resp.body, none) else (resp.body, resp.broken)

-- `1 << 20`
abbrev pub body_limit : ℕ
body_limit = 1048576

-- The text that is signed.
unfoldable pub payload : Str → Str → Str → Str
payload method path timestamp = method ++ (path ++ timestamp)

abbrev pub not_a_member : MembershipResolution
not_a_member = record {
  status = bytes "not_a_member";
  role = [];
  permissions = none;
  is_active = false;
  expires_at = none;
  reason = [];
}

module _ (E : Env) where
  -- The body of a 2xx response.
  unfoldable pub parse_body : ℕ → Str × Option Str → Option MembershipResolution × Option Error
  parse_body status (body, some err) = (none, some (unreachable status body_read (some err)))
  parse_body status (body, none) = elim (E.unmarshal body) [
    | invalid err ↦ (none, some (unreachable status body_parse (some err)))
    | decoded resolution ↦ (some resolution, none)
  ]

  -- The tests on the status. The body is read up to one of two limits, by the branch.
  unfoldable pub by_status :
      ℕ → Str × Option Str → Str × Option Str → Option MembershipResolution × Option Error
  unfolding parse_body
  by_status status excerpt whole =
      if nat_eq status 404
      then (some not_a_member, none)
      else if ltb status 200 || leb 300 status
      then (none, some (unreachable status non_2xx (some (bytes "body=" ++ excerpt.0))))
      else parse_body status whole

  unfoldable pub resolve : Reply → Option MembershipResolution × Option Error
  unfolding by_status read_limited
  resolve (failed err) = (none, some (unreachable 0 network (some err)))
  resolve (response resp) =
      by_status resp.status_code (read_limited 4096 resp) (read_limited body_limit resp)

module _ (E : Env) (c : HeliosClient) where
  unfoldable pub sign : Str → Str → Str → Str
  sign method path timestamp =
      encode_to_string (E.hmac_sha256 c.signature_shared_secret (payload method path timestamp))

  -- The request at a given time.
  unfoldable pub request : ℤ → Str → Str → Request
  request seconds user_id tenant_id =
      let path = path_of user_id in
      let timestamp = format_int seconds in
      record {
        method = bytes "GET";
        url = c.base_url ++ (path ++ (bytes "?tenantId=" ++ tenant_id));
        headers = insert (bytes "Accept") (bytes "application/json") (
            insert (bytes "x-timestamp") timestamp (
              insert (bytes "x-signature") (sign (bytes "GET") path timestamp)
                (insert (bytes "x-source-service") c.source_service [])));
      }

  unfoldable pub fetch_user_permissions :
      Str → Str → E.World → (Option MembershipResolution × Option Error) × E.World
  unfolding resolve
  fetch_user_permissions user_id tenant_id w =
      let req = request (E.now w) user_id tenant_id in
      elim (E.refuse_url req.url) [
        | some err ↦ ((none, some (unreachable 0 request_build (some err))), w)
        | none ↦ let (reply, w') = E.send c.http_client req w in (resolve E reply, w')
      ]
