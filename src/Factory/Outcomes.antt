-- ===== src/Factory/Outcomes.antt =====
-- helios_permissions/factory.go: when `Create` succeeds, and with what.
use helios_permission_golang.Prelude.{
  ◌∷◌, ◌≢◌, true, Str, Bool, false, Option, none, some, [], ◌==◌, ◌≡◌, ◌↔◌, refl, sym, ap, ◌∙◌,
  arith,
}
use mathlib.Core.Path.{subst}
use helios_permission_golang.Errors.{Error, ok, err, panic, Result}
use helios_permission_golang.Redis.{Fallible, failed, done, new_redis_permission_cache, with_client}
use helios_permission_golang.Helios.{new_helios_client, with_defaults}
use helios_permission_golang.Client.{new_client, with_cache}
use helios_permission_golang.Factory.{
  Driver, CreateOptions, Created, opened, missing_option, wire, connect, finish, after_ping,
  after_connect, after_check, create,
}
use helios_permission_golang.Factory.Described.{
  helios_options, described, Uses, injected, opened_here, defaults-described, coerced-ttl_of,
  default-stale_of,
}

IsOk : {A : Type 1} → Result A → Type 0
IsOk (ok x) = Unit
IsOk (err e) = ⊥
IsOk (panic text) = ⊥

failure-not-ok :
    {A : Type 1} {W : Type 0} {e : Error} {w : W} (r : A) (w' : W)
    → ◌≡◌ {A = Result A × W} (err e, w) (ok r, w')
    → ⊥
unfolding IsOk
failure-not-ok r w' e = subst (λ x. IsOk x) (sym (ap (λ p. p.0) e)) tt

module _ (D : Driver) (opts : CreateOptions D) where
  base_present : missing_option D opts ≡ none → (opts.helios_base_url == []) ≡ false
  unfolding missing_option
  base_present e = ground arith

  secret_present : missing_option D opts ≡ none → (opts.signature_shared_secret == []) ≡ false
  unfolding missing_option
  secret_present e = ground arith

  helios_made :
      missing_option D opts ≡ none
      → new_helios_client (helios_options D opts) ≡ ok (with_defaults (helios_options D opts))
  unfolding new_helios_client
  helios_made e = rw (base_present e) (rw (secret_present e) refl)

  pub wire-described :
      (redis : D.Handle) (owns : Bool)
      → missing_option D opts ≡ none
      → wire D opts redis owns ≡ ok (described D opts redis owns)
  unfolding wire described new_redis_permission_cache with_client new_client with_cache ◌==◌
  wire-described redis owns e =
      rw
        (
          helios_made e,
          defaults-described D opts,
          coerced-ttl_of D opts opts.cache_ttl_seconds,
          default-stale_of D opts opts.stale_on_error,
        )
        refl

  from_ping :
      (redis : D.Handle) (owns : Bool) (answer : Option Str × D.World) (w' : D.World)
      (r : Created D)
      → missing_option D opts ≡ none
      → after_ping D opts redis owns answer ≡ (ok r, w')
      → (answer ≡ (none, w')) × (r ≡ described D opts redis owns)
  from_ping redis owns (some text, w) w' r complete e = absurd (failure-not-ok r w' e)
  from_ping redis owns (none, w) w' r complete e =
      let made : ◌≡◌ {A = Result (Created D) × D.World} (ok (described D opts redis owns), w)
          (ok r, w') =
        sym (ap (λ x. finish D redis owns x w) (wire-described redis owns complete)) ∙ e in
      (cc, cc)

  from_connect :
      (found : Fallible (D.Handle × Bool) × D.World) (w' : D.World) (r : Created D)
      → missing_option D opts ≡ none
      → after_connect D opts found ≡ (ok r, w')
      → (redis : D.Handle) × (owns : Bool) × (w'' : D.World) × (found ≡ (done (redis, owns), w''))
        × (D.ping redis w'' ≡ (none, w'))
        × (r ≡ described D opts redis owns)
  from_connect (failed text, w) w' r complete e = absurd (failure-not-ok r w' e)
  from_connect (done (redis, owns), w) w' r complete e =
      let (answer, made) = from_ping redis owns (D.ping redis w) w' r complete e in
      (redis, owns, w, refl, answer, made)

  from_check :
      (w w' : D.World) (r : Created D) (missing : Option Str)
      → missing_option D opts ≡ missing
      → after_check D opts missing w ≡ (ok r, w')
      → (missing_option D opts ≡ none)
        × ((redis : D.Handle) × (owns : Bool) × (w'' : D.World) × (connect D opts.redis_url
                opts.redis w
              ≡ (done (redis, owns), w''))
            × (D.ping redis w'' ≡ (none, w'))
            × (r ≡ described D opts redis owns))
  from_check w w' r (some text) known e = absurd (failure-not-ok r w' e)
  from_check w w' r none known e =
      (known, from_connect (connect D opts.redis_url opts.redis w) w' r known e)

  is_given : (s : Str) → (s == []) ≡ false → s ≢ []
  unfolding ◌==◌
  is_given [] e same = absurd cc
  is_given (x ∷ s) e same = absurd cc

  given_test : (s : Str) → s ≢ [] → (s == []) ≡ false
  unfolding ◌==◌
  given_test [] h = absurd (h refl)
  given_test (x ∷ s) h = refl

  url_present : opts.redis ≡ none → missing_option D opts ≡ none → (opts.redis_url == []) ≡ false
  unfolding missing_option
  url_present is e = ground (arith, is)

  opened-Uses :
      (w w'' : D.World) (redis : D.Handle) (owns : Bool) (parsed : Fallible D.Options)
      → opts.redis ≡ none
      → opts.redis_url ≢ []
      → D.parse_url opts.redis_url ≡ parsed
      → opened D parsed w ≡ (done (redis, owns), w'')
      → Uses D opts w redis owns w''
  opened-Uses w w'' redis owns (failed text) is url parse e = absurd cc
  opened-Uses w w'' redis owns (done options) is url parse e =
      let p : (D.new_redis_client options w).0 ≡ redis = cc in
      let q : true ≡ owns = cc in
      let r : (D.new_redis_client options w).1 ≡ w'' = cc in
      rw⁻¹ (p, q, r) (opened_here options is url parse)

  connect-Uses :
      (w w'' : D.World) (redis : D.Handle) (owns : Bool) (o : Option D.Handle)
      → opts.redis ≡ o
      → missing_option D opts ≡ none
      → connect D opts.redis_url o w ≡ (done (redis, owns), w'')
      → Uses D opts w redis owns w''
  connect-Uses w w'' redis owns (some client) is complete e =
      let p : client ≡ redis = cc in
      let q : false ≡ owns = cc in
      let r : w ≡ w'' = cc in
      subst (λ v. Uses D opts w redis owns v) r (rw⁻¹ (p, q) (injected client is))
  connect-Uses w w'' redis owns none is complete e =
      opened-Uses w w'' redis owns (D.parse_url opts.redis_url) is
        (is_given opts.redis_url (url_present is complete)) refl e

  Uses-connect :
      {w w'' : D.World} {redis : D.Handle} {owns : Bool}
      → Uses D opts w redis owns w''
      → connect D opts.redis_url opts.redis w ≡ (done (redis, owns), w'')
  Uses-connect (injected redis is) = rw is refl
  Uses-connect (opened_here options is url parse) = rw (is, parse) refl

  Uses-complete :
      {w w'' : D.World} {redis : D.Handle} {owns : Bool}
      → opts.helios_base_url ≢ []
      → opts.signature_shared_secret ≢ []
      → Uses D opts w redis owns w''
      → missing_option D opts ≡ none
  unfolding missing_option
  Uses-complete base secret (injected redis is) =
      rw (given_test _ base, given_test _ secret, is) refl
  Uses-complete base secret (opened_here options is url parse) =
      rw (given_test _ base, given_test _ secret, is, given_test _ url) refl

  -- Create succeeds exactly when the base URL and the secret are given, a Redis client is injected,
  -- or none is and the URL is given and parses, and that client answers the PING; the result is
  -- then the described D opts one, which owns the Redis client exactly if it was opened here.
  pub create_iff :
      (w w' : D.World) (r : Created D)
      → (create D opts w ≡ (ok r, w')) ↔ (
          (opts.helios_base_url ≢ [])
          × (opts.signature_shared_secret ≢ [])
          × ((redis : D.Handle) × (owns : Bool) × (w'' : D.World) × Uses D opts w redis owns w''
              × (D.ping redis w'' ≡ (none, w'))
              × (r ≡ described D opts redis owns)))
  unfolding create
  create_iff w w' r = (
    λ e.
        let (complete, (redis, owns, w'', found, answer, made)) =
          from_check w w' r (missing_option D opts) refl e in
        (
          is_given _ (base_present complete),
          is_given _ (secret_present complete),
          (
            redis,
            owns,
            w'',
            connect-Uses w w'' redis owns opts.redis refl complete found,
            answer,
            made,
          ),
        ),
    λ (base, secret, (redis, owns, w'', uses, answer, made)).
        let complete = Uses-complete base secret uses in
        rw complete (
          rw (Uses-connect uses)
            (rw answer (rw (wire-described redis owns complete) (rw made refl)))),
  )
