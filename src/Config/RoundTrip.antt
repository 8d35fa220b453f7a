-- ===== src/Config/RoundTrip.antt =====
-- An environment that is written out from a configuration.
use auctioneer.Base.{Bool-cases, inl, inr, ℕ, ◌*◌, ◌≡◌, refl, ap, sym, ◌∙◌, none, [], pos}
use auctioneer.Text.{codes, bytes_eq_iff, bytes_eq}
use auctioneer.Text.Map.{get}
use auctioneer.Config.Addresses.{joined, split_addrs-joined}
use auctioneer.Config.{
  second, millisecond, minute, Config, loaded, load, checked, get_env, get_env_int, get_env_int64,
  get_env_duration, parse_level, split_addrs,
}
use auctioneer.Config.Reading.{first_of, errors, settings, load-first_error}
use auctioneer.Config.Variables.{
  get_env_set, get_env_int-print_int, get_env_int64-print_int, get_env_duration-print_ns, env_of,
  IsSettable, level_of_name, joined-ne-nil, with_addresses,
}

module _ (part_of : ℕ → ℕ → ℕ → ℕ) (cfg : Config) (h : IsSettable cfg) where
  grpc_address_read :
      get_env (env_of cfg) (codes "AUCTION_GRPC_ADDR") (codes ":8081") ≡ cfg.grpc_address
  unfolding get bytes_eq
  grpc_address_read = get_env_set (env_of cfg) _ cfg.grpc_address _ refl h.grpc_address

  http_address_read :
      get_env (env_of cfg) (codes "AUCTION_HTTP_ADDR") (codes ":8080") ≡ cfg.http_address
  unfolding get bytes_eq
  http_address_read = get_env_set (env_of cfg) _ cfg.http_address _ refl h.http_address

  redis_addresses_read :
      split_addrs (get_env (env_of cfg) (codes "REDIS_ADDRS") (codes "127.0.0.1:6379"))
      ≡ cfg.redis_addresses
  unfolding get bytes_eq
  redis_addresses_read =
      ap split_addrs (
        get_env_set (env_of cfg) _ (joined cfg.redis_addresses) _ refl
          (joined-ne-nil cfg.redis_addresses h.some_address h.redis_addresses))
      ∙ split_addrs-joined cfg.redis_addresses h.some_address h.redis_addresses

  redis_password_read : get_env (env_of cfg) (codes "REDIS_PASSWORD") [] ≡ cfg.redis_password
  unfolding get get_env bytes_eq
  redis_password_read = elim (Bool-cases (bytes_eq cfg.redis_password [])) [
    | inl e ↦ rw e (sym ((bytes_eq_iff cfg.redis_password []).0 e))
    | inr e ↦ rw e refl
  ]

  redis_db_read : get_env_int (env_of cfg) (codes "REDIS_DB") (pos 0) ≡ (cfg.redis_db, none)
  unfolding get bytes_eq
  redis_db_read = get_env_int-print_int (env_of cfg) _ cfg.redis_db _ refl h.redis_db

  redis_pool_size_read :
      get_env_int (env_of cfg) (codes "REDIS_POOL_SIZE") (pos 256) ≡ (cfg.redis_pool_size, none)
  unfolding get bytes_eq
  redis_pool_size_read =
      get_env_int-print_int (env_of cfg) _ cfg.redis_pool_size _ refl h.redis_pool_size

  bid_idempotency_ttl_read :
      get_env_duration part_of (env_of cfg) (codes "BID_IDEMPOTENCY_TTL") (pos (10 * minute))
      ≡ (cfg.bid_idempotency_ttl, none)
  unfolding get bytes_eq
  bid_idempotency_ttl_read =
      get_env_duration-print_ns (env_of cfg) _ part_of cfg.bid_idempotency_ttl _ refl
        h.bid_idempotency_ttl

  default_auction_duration_read :
      get_env_duration part_of (env_of cfg) (codes "DEFAULT_AUCTION_DURATION") (pos (10 * minute))
      ≡ (cfg.default_auction_duration, none)
  unfolding get bytes_eq
  default_auction_duration_read =
      get_env_duration-print_ns (env_of cfg) _ part_of cfg.default_auction_duration _ refl
        h.default_auction_duration

  stream_read_count_read :
      get_env_int (env_of cfg) (codes "STREAM_READ_COUNT") (pos 256) ≡ (cfg.stream_read_count, none)
  unfolding get bytes_eq
  stream_read_count_read =
      get_env_int-print_int (env_of cfg) _ cfg.stream_read_count _ refl h.stream_read_count

  max_in_flight_bids_read :
      get_env_int (env_of cfg) (codes "MAX_INFLIGHT_BIDS") (pos 100000)
      ≡ (cfg.max_in_flight_bids, none)
  unfolding get bytes_eq
  max_in_flight_bids_read =
      get_env_int-print_int (env_of cfg) _ cfg.max_in_flight_bids _ refl h.max_in_flight_bids

  max_ws_queue_depth_read :
      get_env_int (env_of cfg) (codes "MAX_WS_QUEUE_DEPTH") (pos 2048)
      ≡ (cfg.max_ws_queue_depth, none)
  unfolding get bytes_eq
  max_ws_queue_depth_read =
      get_env_int-print_int (env_of cfg) _ cfg.max_ws_queue_depth _ refl h.max_ws_queue_depth

  breaker_failure_threshold_read :
      get_env_int (env_of cfg) (codes "BREAKER_FAILURE_THRESHOLD") (pos 20)
      ≡ (cfg.breaker_failure_threshold, none)
  unfolding get bytes_eq
  breaker_failure_threshold_read =
      get_env_int-print_int (env_of cfg) _ cfg.breaker_failure_threshold _ refl
        h.breaker_failure_threshold

  breaker_open_for_read :
      get_env_duration part_of (env_of cfg) (codes "BREAKER_OPEN_FOR") (pos (500 * millisecond))
      ≡ (cfg.breaker_open_for, none)
  unfolding get bytes_eq
  breaker_open_for_read =
      get_env_duration-print_ns (env_of cfg) _ part_of cfg.breaker_open_for _ refl
        h.breaker_open_for

  log_level_read :
      parse_level (get_env (env_of cfg) (codes "LOG_LEVEL") (codes "info")) ≡ cfg.log_level
  unfolding get bytes_eq
  log_level_read = level_of_name cfg.log_level _ (env_of cfg) _ refl

  graceful_shutdown_timeout_read :
      get_env_duration part_of (env_of cfg) (codes "GRACEFUL_SHUTDOWN_TIMEOUT") (pos (10 * second))
      ≡ (cfg.graceful_shutdown_timeout, none)
  unfolding get bytes_eq
  graceful_shutdown_timeout_read =
      get_env_duration-print_ns (env_of cfg) _ part_of cfg.graceful_shutdown_timeout _ refl
        h.graceful_shutdown_timeout

  gogc_read : get_env_int (env_of cfg) (codes "GOGC") (pos 100) ≡ (cfg.gogc, none)
  unfolding get bytes_eq
  gogc_read = get_env_int-print_int (env_of cfg) _ cfg.gogc _ refl h.gogc

  go_mem_limit_bytes_read :
      get_env_int64 (env_of cfg) (codes "GOMEMLIMIT_BYTES") (pos 0) ≡ (cfg.go_mem_limit_bytes, none)
  unfolding get bytes_eq
  go_mem_limit_bytes_read =
      get_env_int64-print_int (env_of cfg) _ cfg.go_mem_limit_bytes _ refl h.go_mem_limit_bytes

  settings_read :
      checked (first_of (errors part_of (env_of cfg))) (settings part_of (env_of cfg))
      ≡ checked none cfg
  settings_read =
      rw
        (
          grpc_address_read, http_address_read, redis_addresses_read, redis_password_read,
          redis_db_read, redis_pool_size_read, bid_idempotency_ttl_read,
          default_auction_duration_read, stream_read_count_read, max_in_flight_bids_read,
          max_ws_queue_depth_read, breaker_failure_threshold_read, breaker_open_for_read,
          log_level_read, graceful_shutdown_timeout_read, gogc_read, go_mem_limit_bytes_read,
        )
        refl

  -- Load reads a configuration back from the environment that spells it out: numbers in decimal,
  -- durations as nanoseconds with the unit `ns`, addresses with commas between them. (Numbers and
  -- durations have 64 bits, the listening addresses are not empty, and there is a Redis address;
  -- no Redis address is empty, holds a comma, or starts or ends with a space.)
  pub load-env_of : load part_of (env_of cfg) ≡ loaded cfg
  load-env_of =
      load-first_error part_of (env_of cfg) ∙ settings_read ∙ with_addresses cfg h.some_address
