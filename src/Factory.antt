-- ===== src/Factory.antt =====
-- helios_permissions/factory.go: `Create`, which wires the layers and owns the Redis connection
-- that it opens.
pub mod Described
pub mod Outcomes
pub mod Connections
use helios_permission_golang.Prelude.{
  ℕ, Str, Bool, true, false, if◌then◌else◌, ◌&&◌, Option, none, some, [], ℤ, bytes, ◌==◌,
}
use helios_permission_golang.Errors.{Error, message, wrapped, and_then, Result, ok, err, panic}
use helios_permission_golang.Redis.{
  Fallible, failed, done, RedisClient, new_redis_permission_cache, redis_cache,
}
use helios_permission_golang.Helios.{
  HttpClient, HeliosClient, HeliosClientOptions, new_helios_client,
}
use helios_permission_golang.Client.{PermissionClient, new_client}

-- What factory.go takes from go-redis: URL parsing, opening a client, PING, `Close`, and the
-- commands of a client, with the pages after which a sweep is one that does not return.
pub record Driver : Type 1 where
  pub World : Type 0
  pub Handle : Type 0
  pub Options : Type 0
  pub parse_url : Str → Fallible Options
  pub new_redis_client : Options → World → Handle × World
  pub ping : Handle → World → Option Str × World
  pub close : Handle → World → Option Str × World
  pub commands : Handle → RedisClient
  pub pages : ℕ

module _ (D : Driver) where
  pub record CreateOptions : Type 0 where
    pub helios_base_url : Str
    pub signature_shared_secret : Str
    pub helios_source_service : Str
    pub redis_url : Str
    pub redis : Option D.Handle
    pub cache_ttl_seconds : ℤ
    pub stale_on_error : Option Bool
    pub fetch_timeout : ℤ
    pub http_client : Option HttpClient

  -- `Result` of factory.go; `owns_redis` is what its `Close` has captured.
  pub record Created : Type 1 where
    pub client : PermissionClient
    pub redis : D.Handle
    pub helios : HeliosClient
    pub owns_redis : Bool

  abbrev is_missing : Option D.Handle → Bool
  is_missing none = true
  is_missing (some h) = false

  -- The checks of the required options: the first one that fails.
  unfoldable pub missing_option : CreateOptions → Option Str
  missing_option opts =
      if opts.helios_base_url == []
      then some (bytes "helios_permissions: CreateOptions.HeliosBaseURL is required")
      else if opts.signature_shared_secret == []
      then some (bytes "helios_permissions: CreateOptions.SignatureSharedSecret is required")
      else if is_missing opts.redis && opts.redis_url == []
      then some (
          bytes
            "helios_permissions: one of CreateOptions.Redis or CreateOptions.RedisURL is required")
      else none

  -- The three layers over a Redis client that answered.
  unfoldable pub wire : CreateOptions → D.Handle → Bool → Result Created
  wire opts redis owns =
      and_then
        (new_redis_permission_cache (record {
          client = some (D.commands redis);
          ttl_seconds = opts.cache_ttl_seconds;
          key_prefix = [];
        }))
        (λ cache.
          and_then
            (new_helios_client (record {
              base_url = opts.helios_base_url;
              signature_shared_secret = opts.signature_shared_secret;
              source_service = opts.helios_source_service;
              http_client = opts.http_client;
              fetch_timeout = opts.fetch_timeout;
            }))
            (λ helios.
              and_then
                (new_client (record {
                  cache = some (redis_cache cache D.pages);
                  helios = some helios;
                  stale_on_error = opts.stale_on_error;
                }))
                (λ client.
                  ok (record {
                    client = client;
                    redis = redis;
                    helios = helios;
                    owns_redis = owns;
                  }))))

  -- The injected client, or one that is opened from the URL and owned.
  abbrev pub opened : Fallible D.Options → D.World → Fallible (D.Handle × Bool) × D.World
  opened (failed e) w = (failed e, w)
  opened (done options) w =
      let (redis, w') = D.new_redis_client options w in (done (redis, true), w')

  abbrev pub connect : Str → Option D.Handle → D.World → Fallible (D.Handle × Bool) × D.World
  connect url (some redis) w = (done (redis, false), w)
  connect url none w = opened (D.parse_url url) w

  abbrev pub close_owned : D.Handle → Bool → D.World → D.World
  close_owned redis true w = (D.close redis w).1
  close_owned redis false w = w

  abbrev pub finish : D.Handle → Bool → Result Created → D.World → Result Created × D.World
  finish redis owns (ok created) w = (ok created, w)
  finish redis owns (err e) w = (err e, close_owned redis owns w)
  finish redis owns (panic text) w = (panic text, w)

  abbrev pub after_ping :
      CreateOptions → D.Handle → Bool → Option Str × D.World → Result Created × D.World
  after_ping opts redis owns (some e, w) =
      (err (wrapped (bytes "helios_permissions: Redis ping failed") e), close_owned redis owns w)
  after_ping opts redis owns (none, w) = finish redis owns (wire opts redis owns) w

  abbrev pub after_connect :
      CreateOptions → Fallible (D.Handle × Bool) × D.World → Result Created × D.World
  after_connect opts (failed e, w) =
      (err (wrapped (bytes "helios_permissions: parse RedisURL") e), w)
  after_connect opts (done (redis, owns), w) = after_ping opts redis owns (D.ping redis w)

  abbrev pub after_check : CreateOptions → Option Str → D.World → Result Created × D.World
  after_check opts (some text) w = (err (message text), w)
  after_check opts none w = after_connect opts (connect opts.redis_url opts.redis w)

  unfoldable pub create : CreateOptions → D.World → Result Created × D.World
  create opts w = after_check opts (missing_option opts) w

  -- `Close`, which captures whether it was called before.
  unfoldable pub close : Created → Bool → D.World → Option Str × Bool × D.World
  close r true w = (none, true, w)
  close r false w =
      if r.owns_redis
      then (let (failure, w') = D.close r.redis w in (failure, true, w'))
      else (none, true, w)
