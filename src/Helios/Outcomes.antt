-- ===== src/Helios/Outcomes.antt =====
-- helios_permissions/client.go: every outcome of `FetchUserPermissions` and of the constructor.
use helios_permission_golang.Prelude.{
  ℕ, ◌≤◌, ◌<◌, ltb, leb, nat_eq, Str, true, ◌||◌, Option, none, some, [], ◌≡◌, ◌≢◌, ◌↔◌, ◌⊎◌, inl,
  inr, refl, arith, ℤ, is_positive, bytes, ==_iff, Option-cases, Bool-cases,
}
use helios_permission_golang.Errors.{
  Error, Reason, unreachable, request_build, network, non_2xx, body_read, body_parse, ok,
}
use helios_permission_golang.Helios.{
  Env, HttpClient, HeliosClientOptions, HeliosClient, Reply, failed, response, MembershipResolution,
  Decoded, invalid, decoded, timed_client, with_defaults, new_helios_client, read_limited,
  body_limit, parse_body, by_status, resolve, request, fetch_user_permissions,
}

-- When each reason is given: what `StatusCode` beside it may be.
abbrev pub Fits : ℕ → Reason → Type 0
Fits status request_build = status ≡ 0
Fits status network = status ≡ 0
Fits status non_2xx = (status ≢ 404) × ((status < 200) ⊎ (300 ≤ status))
Fits status body_read = (200 ≤ status) × (status < 300)
Fits status body_parse = (200 ≤ status) × (status < 300)

-- A resolution without an error, or an error of the right kind without a resolution.
pub data IsOutcome : Option MembershipResolution × Option Error → Type 0 where
  found : (m : MembershipResolution) → IsOutcome (some m, none)
  refused :
      (status : ℕ) (reason : Reason) (text : Str)
      → Fits status reason
      → IsOutcome (none, some (unreachable status reason (some text)))

module _ (E : Env) where
  parse_body-IsOutcome :
      (status : ℕ) (whole : Str × Option Str)
      → 200 ≤ status
      → status < 300
      → IsOutcome (parse_body E status whole)
  unfolding parse_body
  parse_body-IsOutcome status (body, some text) low high = refused status body_read text (low, high)
  parse_body-IsOutcome status (body, none) low high = decoding (E.unmarshal body) refl
    where
      decoding : (d : Decoded) → E.unmarshal body ≡ d → IsOutcome (parse_body E status (body, none))
      decoding (invalid text) e = rw (e, parse_body) (refused status body_parse text (low, high))
      decoding (decoded m) e = rw (e, parse_body) (found m)

  by_status-IsOutcome :
      (status : ℕ) (excerpt whole : Str × Option Str) → IsOutcome (by_status E status excerpt whole)
  unfolding by_status
  by_status-IsOutcome status excerpt whole = elim (Bool-cases (nat_eq status 404)) [
    | inl gone ↦ rw gone (found _)
    | inr other ↦ elim (Bool-cases (ltb status 200 || leb 300 status)) [
      | inl bad ↦ rw (other, bad) (refused status non_2xx _ (ground arith))
      | inr good ↦
          rw (other, good) (parse_body-IsOutcome status whole (ground arith) (ground arith))
    ]
  ]

  resolve-IsOutcome : (reply : Reply) → IsOutcome (resolve E reply)
  unfolding resolve
  resolve-IsOutcome (failed text) = refused 0 network text refl
  resolve-IsOutcome (response r) =
      by_status-IsOutcome r.status_code (read_limited 4096 r) (read_limited body_limit r)

  -- Whatever the network does, `fetch_user_permissions` returns a resolution and no error, or no
  -- resolution and a `HeliosUnreachableError` whose status is 0 before a response came, outside 2xx
  -- and not 404 for "non_2xx", and 2xx for a body that cannot be read or parsed.
  pub fetch_user_permissions-IsOutcome :
      (c : HeliosClient) (u t : Str) (w : E.World) → IsOutcome (fetch_user_permissions E c u t w).0
  unfolding fetch_user_permissions
  fetch_user_permissions-IsOutcome c u t w =
      elim (Option-cases (E.refuse_url (request E c (E.now w) u t).url)) [
        | inr (text, e) ↦ rw (e, fetch_user_permissions) (refused 0 request_build text refl)
        | inl e ↦
            rw (e, fetch_user_permissions)
              (resolve-IsOutcome (E.send c.http_client (request E c (E.now w) u t) w).0)
      ]

-- The constructor returns a client exactly when the base URL and the secret are not empty, and
-- panics otherwise; the client is the options with their defaults.
pub new_helios_client_iff :
    (opts : HeliosClientOptions) (c : HeliosClient)
    → (new_helios_client opts ≡ ok c)
      ↔ ((opts.base_url ≢ []) × (opts.signature_shared_secret ≢ []) × (with_defaults opts ≡ c))
unfolding new_helios_client
new_helios_client_iff opts c = (
  λ e. ground (arith, ==_iff opts.base_url [], ==_iff opts.signature_shared_secret []),
  λ h. ground (arith, ==_iff opts.base_url [], ==_iff opts.signature_shared_secret []),
)

-- The options give a positive timeout, or a `http.Client` without one is not injected.
abbrev pub IsTimed : HeliosClientOptions → Type 0
IsTimed opts =
    ((h : HttpClient) → opts.http_client ≡ some h → is_positive h.timeout ≡ true)
    ⊎ (is_positive opts.fetch_timeout ≡ true)

timed_client-positive :
    (injected : Option HttpClient) (timeout : ℤ)
    → ((h : HttpClient) → injected ≡ some h → is_positive h.timeout ≡ true)
      ⊎ (is_positive timeout ≡ true)
    → is_positive (timed_client injected timeout).timeout ≡ true
unfolding timed_client
timed_client-positive none timeout h = ground arith
timed_client-positive (some client) timeout (inl own) = ground (arith, own client refl)
timed_client-positive (some client) timeout (inr given) = ground arith

-- A client that was built names a source service, and has a positive timeout unless a `http.Client`
-- with none was injected and no positive `FetchTimeout` was given.
pub new_helios_client-defaults :
    (opts : HeliosClientOptions) (c : HeliosClient)
    → new_helios_client opts ≡ ok c
    → IsTimed opts
    → (c.source_service ≢ []) × (is_positive c.http_client.timeout ≡ true)
unfolding with_defaults bytes
new_helios_client-defaults opts c e timed =
    let same = ((new_helios_client_iff opts c).0 e).2 in
    rw (← same) (
      ground (arith, ==_iff opts.source_service []),
      timed_client-positive opts.http_client opts.fetch_timeout timed,
    )
