-- ===== src/Config/Reading.antt =====
-- What Load returns, against each setting read on its own.
use auctioneer.Base.{ℕ, ◌*◌, ◌≡◌, refl, ap, Option, none, some, List, [], ◌∷◌, pos}
use auctioneer.Text.{codes}
use auctioneer.Config.{
  Env, Config, ConfigError, Loaded, load, keep, checked, get_env, get_env_int, get_env_int64,
  get_env_duration, int_val, int64_val, dur_val, parse_level, split_addrs, second, minute,
  millisecond,
}

-- The first error of a list of settings.
abbrev pub first_of : List (Option ConfigError) → Option ConfigError
first_of [] = none
first_of (none ∷ es) = first_of es
first_of (some e ∷ es) = some e

-- The errors are kept from the left.
keep_all : Option ConfigError → List (Option ConfigError) → Option ConfigError
keep_all err [] = err
keep_all err (e ∷ es) = keep_all (keep err e) es

keep_all-some : (x : ConfigError) (es : List (Option ConfigError)) → keep_all (some x) es ≡ some x
unfolding keep_all
keep_all-some x [] = refl
keep_all-some x (e ∷ es) = keep_all-some x es

keep_all-first_of : (es : List (Option ConfigError)) → keep_all none es ≡ first_of es
unfolding keep_all
keep_all-first_of [] = refl
keep_all-first_of (none ∷ es) = keep_all-first_of es
keep_all-first_of (some x ∷ es) = keep_all-some x es

-- The result without an error, where there is an address.
abbrev pub with_address : Config → Loaded
with_address cfg = checked none cfg

module _ (part_of : ℕ → ℕ → ℕ → ℕ) (env : Env) where
  -- Each setting as it is read on its own.
  abbrev pub settings : Config
  settings = record {
    grpc_address = get_env env (codes "AUCTION_GRPC_ADDR") (codes ":8081");
    http_address = get_env env (codes "AUCTION_HTTP_ADDR") (codes ":8080");
    redis_addresses = split_addrs (get_env env (codes "REDIS_ADDRS") (codes "127.0.0.1:6379"));
    redis_password = get_env env (codes "REDIS_PASSWORD") [];
    redis_db = (get_env_int env (codes "REDIS_DB") (pos 0)).0;
    redis_pool_size = (get_env_int env (codes "REDIS_POOL_SIZE") (pos 256)).0;
    bid_idempotency_ttl =
        (get_env_duration part_of env (codes "BID_IDEMPOTENCY_TTL") (pos (10 * minute))).0;
    default_auction_duration =
        (get_env_duration part_of env (codes "DEFAULT_AUCTION_DURATION") (pos (10 * minute))).0;
    stream_read_count = (get_env_int env (codes "STREAM_READ_COUNT") (pos 256)).0;
    max_in_flight_bids = (get_env_int env (codes "MAX_INFLIGHT_BIDS") (pos 100000)).0;
    max_ws_queue_depth = (get_env_int env (codes "MAX_WS_QUEUE_DEPTH") (pos 2048)).0;
    breaker_failure_threshold = (get_env_int env (codes "BREAKER_FAILURE_THRESHOLD") (pos 20)).0;
    breaker_open_for =
        (get_env_duration part_of env (codes "BREAKER_OPEN_FOR") (pos (500 * millisecond))).0;
    log_level = parse_level (get_env env (codes "LOG_LEVEL") (codes "info"));
    graceful_shutdown_timeout =
        (get_env_duration part_of env (codes "GRACEFUL_SHUTDOWN_TIMEOUT") (pos (10 * second))).0;
    gogc = (get_env_int env (codes "GOGC") (pos 100)).0;
    go_mem_limit_bytes = (get_env_int64 env (codes "GOMEMLIMIT_BYTES") (pos 0)).0;
  }

  -- The errors of the numbers and durations, in the order of the fields.
  abbrev pub errors : List (Option ConfigError)
  errors =
      (get_env_int env (codes "REDIS_DB") (pos 0)).1
      ∷ (get_env_int env (codes "REDIS_POOL_SIZE") (pos 256)).1
      ∷ (get_env_duration part_of env (codes "BID_IDEMPOTENCY_TTL") (pos (10 * minute))).1
      ∷ (get_env_duration part_of env (codes "DEFAULT_AUCTION_DURATION") (pos (10 * minute))).1
      ∷ (get_env_int env (codes "STREAM_READ_COUNT") (pos 256)).1
      ∷ (get_env_int env (codes "MAX_INFLIGHT_BIDS") (pos 100000)).1
      ∷ (get_env_int env (codes "MAX_WS_QUEUE_DEPTH") (pos 2048)).1
      ∷ (get_env_int env (codes "BREAKER_FAILURE_THRESHOLD") (pos 20)).1
      ∷ (get_env_duration part_of env (codes "BREAKER_OPEN_FOR") (pos (500 * millisecond))).1
      ∷ (get_env_duration part_of env (codes "GRACEFUL_SHUTDOWN_TIMEOUT") (pos (10 * second))).1
      ∷ (get_env_int env (codes "GOGC") (pos 100)).1
      ∷ (get_env_int64 env (codes "GOMEMLIMIT_BYTES") (pos 0)).1
      ∷ []

  -- Load fails with the error of the first number or duration, in the order of the fields, that
  -- cannot be read; else it fails if there is no address; else it returns each setting as it is
  -- read on its own, whatever the others are.
  pub load-first_error : load part_of env ≡ checked (first_of errors) settings
  unfolding load int_val dur_val int64_val keep_all
  load-first_error = ap (λ e. checked e settings) (keep_all-first_of errors)
