-- ===== src/Config/Variables.antt =====
-- The variables of a configuration, and how one of them is read back.
use auctioneer.Base.{
  ℕ, ◌≡◌, ◌≢◌, refl, Option, none, some, List, [], ◌∷◌, ◌++◌, ℤ, pos, negsuc, InInt64, All,
}
use auctioneer.Text.{Bytes, codes, bytes_eq, ne→bytes_eq}
use auctioneer.Text.Map.{Map, get}
use auctioneer.Text.Decimal.{print_int, digits-ne-nil}
use auctioneer.Text.Parse.{parse_int-print_int}
use auctioneer.Text.Space.{to_lower}
use auctioneer.Text.Duration.RoundTrip.{print_ns, parse_duration-print_ns}
use auctioneer.Config.Addresses.{joined, IsAddress}
use auctioneer.Config.{
  Env, Config, Level, level_debug, level_info, level_warn, level_error, loaded, checked, get_env,
  get_env_int, get_env_int64, get_env_duration, parse_level,
}

abbrev pub level_name : Level → Bytes
level_name level_debug = codes "debug"
level_name level_info = codes "info"
level_name level_warn = codes "warn"
level_name level_error = codes "error"

-- The variables of a configuration.
abbrev pub table : Config → Map Bytes
table cfg =
    (codes "AUCTION_GRPC_ADDR", cfg.grpc_address)
    ∷ (codes "AUCTION_HTTP_ADDR", cfg.http_address)
    ∷ (codes "REDIS_ADDRS", joined cfg.redis_addresses)
    ∷ (codes "REDIS_PASSWORD", cfg.redis_password)
    ∷ (codes "REDIS_DB", print_int cfg.redis_db)
    ∷ (codes "REDIS_POOL_SIZE", print_int cfg.redis_pool_size)
    ∷ (codes "BID_IDEMPOTENCY_TTL", print_ns cfg.bid_idempotency_ttl)
    ∷ (codes "DEFAULT_AUCTION_DURATION", print_ns cfg.default_auction_duration)
    ∷ (codes "STREAM_READ_COUNT", print_int cfg.stream_read_count)
    ∷ (codes "MAX_INFLIGHT_BIDS", print_int cfg.max_in_flight_bids)
    ∷ (codes "MAX_WS_QUEUE_DEPTH", print_int cfg.max_ws_queue_depth)
    ∷ (codes "BREAKER_FAILURE_THRESHOLD", print_int cfg.breaker_failure_threshold)
    ∷ (codes "BREAKER_OPEN_FOR", print_ns cfg.breaker_open_for)
    ∷ (codes "LOG_LEVEL", level_name cfg.log_level)
    ∷ (codes "GRACEFUL_SHUTDOWN_TIMEOUT", print_ns cfg.graceful_shutdown_timeout)
    ∷ (codes "GOGC", print_int cfg.gogc)
    ∷ (codes "GOMEMLIMIT_BYTES", print_int cfg.go_mem_limit_bytes)
    ∷ []

abbrev pub or_unset : Option Bytes → Bytes
or_unset none = []
or_unset (some v) = v

abbrev pub env_of : Config → Env
env_of cfg key = or_unset (get key (table cfg))

-- A configuration that can be written out: numbers and durations have 64 bits, and an empty text
-- would stand for the default.
pub record IsSettable (cfg : Config) : Type 0 where
  pub grpc_address : cfg.grpc_address ≢ []
  pub http_address : cfg.http_address ≢ []
  pub some_address : cfg.redis_addresses ≢ []
  pub redis_addresses : All IsAddress cfg.redis_addresses
  pub redis_db : InInt64 cfg.redis_db
  pub redis_pool_size : InInt64 cfg.redis_pool_size
  pub bid_idempotency_ttl : InInt64 cfg.bid_idempotency_ttl
  pub default_auction_duration : InInt64 cfg.default_auction_duration
  pub stream_read_count : InInt64 cfg.stream_read_count
  pub max_in_flight_bids : InInt64 cfg.max_in_flight_bids
  pub max_ws_queue_depth : InInt64 cfg.max_ws_queue_depth
  pub breaker_failure_threshold : InInt64 cfg.breaker_failure_threshold
  pub breaker_open_for : InInt64 cfg.breaker_open_for
  pub graceful_shutdown_timeout : InInt64 cfg.graceful_shutdown_timeout
  pub gogc : InInt64 cfg.gogc
  pub go_mem_limit_bytes : InInt64 cfg.go_mem_limit_bytes

pub print_int-ne-nil : (z : ℤ) → print_int z ≢ []
unfolding print_int
print_int-ne-nil (pos n) e = digits-ne-nil n e
print_int-ne-nil (negsuc n) e = cc

pub append-ne-nil : (s t : Bytes) → s ≢ [] → s ++ t ≢ []
append-ne-nil [] t ne e = absurd (ne refl)
append-ne-nil (c ∷ s) t ne e = cc

module _ (env : Env) (key : Bytes) where
  pub get_env_set : (v fallback : Bytes) → env key ≡ v → v ≢ [] → get_env env key fallback ≡ v
  unfolding get_env
  get_env_set v fallback e ne = rw (get_env, e, ne→bytes_eq v [] ne) refl

  pub get_env_int-print_int :
      (z fallback : ℤ)
      → env key ≡ print_int z
      → InInt64 z
      → get_env_int env key fallback ≡ (z, none)
  unfolding get_env_int
  get_env_int-print_int z fallback e h =
      rw
        (get_env_int, e, ne→bytes_eq (print_int z) [] (print_int-ne-nil z), parse_int-print_int z h)
        refl

  pub get_env_int64-print_int :
      (z fallback : ℤ)
      → env key ≡ print_int z
      → InInt64 z
      → get_env_int64 env key fallback ≡ (z, none)
  unfolding get_env_int64
  get_env_int64-print_int z fallback e h =
      rw
        (
          get_env_int64,
          e,
          ne→bytes_eq (print_int z) [] (print_int-ne-nil z),
          parse_int-print_int z h,
        )
        refl

  pub get_env_duration-print_ns :
      (part_of : ℕ → ℕ → ℕ → ℕ) (z fallback : ℤ)
      → env key ≡ print_ns z
      → InInt64 z
      → get_env_duration part_of env key fallback ≡ (z, none)
  unfolding get_env_duration
  get_env_duration-print_ns part_of z fallback e h =
      let ne = append-ne-nil (print_int z) (codes "ns") (print_int-ne-nil z) in
      rw (get_env_duration, e, ne→bytes_eq (print_ns z) [] ne, parse_duration-print_ns part_of z h)
        refl

pub level_of_name :
    (l : Level) (fallback : Bytes) (env : Env) (key : Bytes)
    → env key ≡ level_name l
    → parse_level (get_env env key fallback) ≡ l
unfolding parse_level to_lower bytes_eq get_env
level_of_name level_debug fallback env key e = rw (get_env, e) refl
level_of_name level_info fallback env key e = rw (get_env, e) refl
level_of_name level_warn fallback env key e = rw (get_env, e) refl
level_of_name level_error fallback env key e = rw (get_env, e) refl

pub joined-ne-nil : (addrs : List Bytes) → addrs ≢ [] → All IsAddress addrs → joined addrs ≢ []
joined-ne-nil [] ne h = absurd (ne refl)
joined-ne-nil (a ∷ []) ne (h, _) = h.not_empty
joined-ne-nil (a ∷ b ∷ rest) ne (h, _) = append-ne-nil a _ h.not_empty

pub with_addresses : (cfg : Config) → cfg.redis_addresses ≢ [] → checked none cfg ≡ loaded cfg
with_addresses cfg ne = go cfg.redis_addresses refl
  where
    go : (addrs : List Bytes) → cfg.redis_addresses ≡ addrs → checked none cfg ≡ loaded cfg
    go [] e = absurd (ne e)
    go (a ∷ addrs) e = rw e refl
