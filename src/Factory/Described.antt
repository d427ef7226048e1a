-- ===== src/Factory/Described.antt =====
-- helios_permissions/factory.go: the client that `Create` describes, with the defaults that the
-- comments on its options state.
use helios_permission_golang.Prelude.{
  zero, suc, ℤ, pos, negsuc, is_positive, bytes, ◌∷◌, ◌≢◌, true, Str, Bool, false, Option, none,
  some, [], ◌==◌, ◌≡◌, refl,
}
use helios_permission_golang.Redis.{done, redis_cache, coerced_ttl}
use helios_permission_golang.Helios.{
  HttpClient, HeliosClient, timed_client, or_default, HeliosClientOptions, with_defaults,
}
use helios_permission_golang.Client.{stale_or_default}
use helios_permission_golang.Factory.{Driver, CreateOptions, Created}

module _ (D : Driver) (opts : CreateOptions D) where
  abbrev pub helios_options : HeliosClientOptions
  helios_options = record {
    base_url = opts.helios_base_url;
    signature_shared_secret = opts.signature_shared_secret;
    source_service = opts.helios_source_service;
    http_client = opts.http_client;
    fetch_timeout = opts.fetch_timeout;
  }

  -- The defaults that the comments on the options state.
  abbrev pub timeout_of : Option HttpClient → ℤ → HttpClient
  timeout_of none (pos zero) = record { timeout = pos 2000000000 }
  timeout_of none (pos (suc n)) = record { timeout = pos (suc n) }
  timeout_of none (negsuc n) = record { timeout = pos 2000000000 }
  timeout_of (some client) (pos zero) = client
  timeout_of (some client) (pos (suc n)) = record { timeout = pos (suc n) }
  timeout_of (some client) (negsuc n) = client

  abbrev pub ttl_of : ℤ → ℤ
  ttl_of (pos n) = pos n
  ttl_of (negsuc n) = pos 0

  abbrev pub source_of : Str → Str
  source_of [] = bytes "helios-permissions-go"
  source_of (x ∷ s) = x ∷ s

  abbrev pub stale_of : Option Bool → Bool
  stale_of none = true
  stale_of (some b) = b

  abbrev pub described_helios : HeliosClient
  described_helios = record {
    base_url = opts.helios_base_url;
    signature_shared_secret = opts.signature_shared_secret;
    source_service = source_of opts.helios_source_service;
    http_client = timeout_of opts.http_client opts.fetch_timeout;
  }

  -- The client that `Create` describes: a Redis cache with the default prefix over the Redis
  -- client, and the Helios client with its defaults.
  unfoldable pub described : D.Handle → Bool → Created D
  described redis owns = record {
    client = record {
      cache =
          redis_cache
            (record {
              rdb = D.commands redis;
              ttl = ttl_of opts.cache_ttl_seconds;
              key_prefix = bytes "helios:perms:";
            })
            D.pages;
      helios = described_helios;
      stale_on_error = stale_of opts.stale_on_error;
    };
    redis = redis;
    helios = described_helios;
    owns_redis = owns;
  }

  -- The Redis client that `Create` pings, whether it owns it, and the state before the PING: the
  -- injected one, which it does not own, or one that it opens from the URL.
  pub data Uses (w : D.World) : D.Handle → Bool → D.World → Type 0 where
    injected : (redis : D.Handle) → opts.redis ≡ some redis → Uses w redis false w
    opened_here :
        (options : D.Options)
        → opts.redis ≡ none
        → opts.redis_url ≢ []
        → D.parse_url opts.redis_url ≡ done options
        → Uses w (D.new_redis_client options w).0 true (D.new_redis_client options w).1

  timed-timeout_of : (o : Option HttpClient) (t : ℤ) → timed_client o t ≡ timeout_of o t
  unfolding timed_client is_positive
  timed-timeout_of none (pos zero) = refl
  timed-timeout_of none (pos (suc n)) = refl
  timed-timeout_of none (negsuc n) = refl
  timed-timeout_of (some client) (pos zero) = refl
  timed-timeout_of (some client) (pos (suc n)) = refl
  timed-timeout_of (some client) (negsuc n) = refl

  default-source_of : (s : Str) → or_default (bytes "helios-permissions-go") s ≡ source_of s
  unfolding ◌==◌
  default-source_of [] = refl
  default-source_of (x ∷ s) = refl

  pub defaults-described : with_defaults helios_options ≡ described_helios
  unfolding with_defaults
  defaults-described =
      rw
        (
          timed-timeout_of opts.http_client opts.fetch_timeout,
          default-source_of opts.helios_source_service,
        )
        refl

  pub coerced-ttl_of : (n : ℤ) → coerced_ttl n ≡ ttl_of n
  coerced-ttl_of (pos n) = refl
  coerced-ttl_of (negsuc n) = refl

  pub default-stale_of : (o : Option Bool) → stale_or_default o ≡ stale_of o
  unfolding stale_or_default
  default-stale_of none = refl
  default-stale_of (some b) = refl
