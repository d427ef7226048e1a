-- ===== src/Factory/Connections.antt =====
-- helios_permissions/factory.go: who closes the Redis client, when `Create` fails and at `Close`.
use helios_permission_golang.Prelude.{Str, Bool, true, false, Option, none, some, ◌≡◌, refl, arith}
use helios_permission_golang.Errors.{Error, ok, err, Result}
use helios_permission_golang.Redis.{Fallible, failed, done}
use helios_permission_golang.Factory.{
  Driver, CreateOptions, Created, missing_option, wire, opened, connect, finish, after_ping,
  after_connect, after_check, create, close,
}
use helios_permission_golang.Factory.Outcomes.{wire-described}
use helios_permission_golang.Factory.Described.{described}

module _ (D : Driver) (opts : CreateOptions D) (w : D.World) where
  -- How a failed `Create` leaves the connections.
  pub data Leaves : D.World → Type 0 where
    untouched : Leaves w
    pinged : (redis : D.Handle) → opts.redis ≡ some redis → Leaves (D.ping redis w).1
    closed :
        (options : D.Options)
        → opts.redis ≡ none
        → D.parse_url opts.redis_url ≡ done options
        → Leaves
            (D.close
              (D.new_redis_client options w).0
              (D.ping (D.new_redis_client options w).0 (D.new_redis_client options w).1).1).1

  -- A result, or an error after which the connections are as given.
  pub data Ends : Result (Created D) × D.World → Type 1 where
    succeeds : (r : Created D) (w' : D.World) → Ends (ok r, w')
    fails : (e : Error) (w' : D.World) → Leaves w' → Ends (err e, w')

  finish-Ends :
      (redis : D.Handle) (owns : Bool) (w' : D.World)
      → missing_option D opts ≡ none
      → Ends (finish D redis owns (wire D opts redis owns) w')
  finish-Ends redis owns w' complete =
      rw (wire-described D opts redis owns complete) (succeeds (described D opts redis owns) w')

  injected-Ends :
      (redis : D.Handle) (answer : Option Str × D.World)
      → missing_option D opts ≡ none
      → Leaves answer.1
      → Ends (after_ping D opts redis false answer)
  injected-Ends redis (some e, w') complete left = fails _ w' left
  injected-Ends redis (none, w') complete left = finish-Ends redis false w' complete

  owned-Ends :
      (redis : D.Handle) (answer : Option Str × D.World)
      → missing_option D opts ≡ none
      → Leaves (D.close redis answer.1).1
      → Ends (after_ping D opts redis true answer)
  owned-Ends redis (some e, w') complete left = fails _ _ left
  owned-Ends redis (none, w') complete left = finish-Ends redis true w' complete

  opened-Ends :
      (parsed : Fallible D.Options)
      → missing_option D opts ≡ none
      → opts.redis ≡ none
      → D.parse_url opts.redis_url ≡ parsed
      → Ends (after_connect D opts (opened D parsed w))
  opened-Ends (failed e) complete own parse = fails _ w untouched
  opened-Ends (done options) complete own parse =
      let (redis, w') = D.new_redis_client options w in
      owned-Ends redis (D.ping redis w') complete (closed options own parse)

  connect-Ends :
      (injected : Option D.Handle)
      → missing_option D opts ≡ none
      → opts.redis ≡ injected
      → Ends (after_connect D opts (connect D opts.redis_url injected w))
  connect-Ends (some redis) complete given =
      injected-Ends redis (D.ping redis w) complete (pinged redis given)
  connect-Ends none complete own = opened-Ends (D.parse_url opts.redis_url) complete own refl

  check-Ends :
      (missing : Option Str) → missing_option D opts ≡ missing → Ends (after_check D opts missing w)
  check-Ends (some text) known = fails _ w untouched
  check-Ends none complete = connect-Ends opts.redis complete refl

  -- Create never panics; where it fails, it has opened no connection, or it has closed the one that
  -- it opened, and an injected client it has at most pinged.
  pub create-Ends : Ends (create D opts w)
  unfolding create
  create-Ends = check-Ends (missing_option D opts) refl

-- After a first Close, another returns no error and does nothing; Close of a result over an
-- injected client never does anything.
pub close_once :
    (D : Driver) (r : Created D) (was : Bool) (w w' : D.World)
    → (close D r (close D r was w).1 w' ≡ (none, true, w'))
      × (r.owns_redis ≡ false → close D r was w ≡ (none, true, w))
unfolding close
close_once D r true w w' = (refl, λ e. refl)
close_once D r false w w' = (ground arith, λ e. ground arith)
