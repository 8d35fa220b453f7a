-- ===== src/Config.antt =====
-- internal/config/config.go. The environment gives the value of each variable, and the empty text
-- for one that is not set. An `int` has 64 bits.
pub mod Reading
pub mod Addresses
pub mod Variables
pub mod RoundTrip
mod Tests
use auctioneer.Base.{
  ℕ, ◌*◌, Bool, true, false, Option, none, some, List, [], ◌∷◌, if◌then◌else◌, ℤ, pos,
}
use auctioneer.Text.{Bytes, codes, bytes_eq}
use auctioneer.Text.Parse.{Parsed, ok, syntax, out_of_range, parse_int}
use auctioneer.Text.Space.{trim_space, to_lower, split}
use auctioneer.Text.Duration.{parse_duration}

abbrev pub Env : Type 0
Env = Bytes → Bytes

-- slog.Level
pub data Level : Type 0 where
  level_debug level_info level_warn level_error : Level

pub record Config : Type 0 where
  pub grpc_address : Bytes
  pub http_address : Bytes
  pub redis_addresses : List Bytes
  pub redis_password : Bytes
  pub redis_db : ℤ
  pub redis_pool_size : ℤ
  pub bid_idempotency_ttl : ℤ
  pub default_auction_duration : ℤ
  pub stream_read_count : ℤ
  pub max_in_flight_bids : ℤ
  pub max_ws_queue_depth : ℤ
  pub breaker_failure_threshold : ℤ
  pub breaker_open_for : ℤ
  pub log_level : Level
  pub graceful_shutdown_timeout : ℤ
  pub gogc : ℤ
  pub go_mem_limit_bytes : ℤ

-- The errors of Load: a variable whose value ParseInt refuses, by its syntax or its range, or that
-- ParseDuration refuses; or no address.
pub data Cause : Type 0 where
  invalid_syntax value_out_of_range invalid_duration : Cause

pub data ConfigError : Type 0 where
  in_variable : Bytes → Cause → ConfigError
  no_redis_address : ConfigError

pub data Loaded : Type 0 where
  loaded : Config → Loaded
  failed : ConfigError → Loaded

abbrev pub second : ℕ
second = 1000000000

abbrev pub millisecond : ℕ
millisecond = 1000000

abbrev pub minute : ℕ
minute = 60 * second

-- The trimmed parts that are not empty.
unfoldable pub non_empty : List Bytes → List Bytes
non_empty [] = []
non_empty (p ∷ parts) =
    let rest = non_empty parts in let q = trim_space p in if bytes_eq q [] then rest else q ∷ rest

unfoldable pub split_addrs : Bytes → List Bytes
unfolding non_empty
split_addrs raw = non_empty (split b',' raw)

unfoldable pub get_env : Env → Bytes → Bytes → Bytes
get_env env key fallback = if bytes_eq (env key) [] then fallback else env key

-- Go's pair of a value and an error.
abbrev pub or_in : Bytes → Parsed ℤ → ℤ × Option ConfigError
or_in key (ok v) = (v, none)
or_in key syntax = (pos 0, some (in_variable key invalid_syntax))
or_in key (out_of_range v) = (pos 0, some (in_variable key value_out_of_range))

-- strconv.Atoi accepts and refuses what ParseInt does.
unfoldable pub get_env_int : Env → Bytes → ℤ → ℤ × Option ConfigError
get_env_int env key fallback =
    if bytes_eq (env key) [] then (fallback, none) else or_in key (parse_int (env key))

unfoldable pub get_env_int64 : Env → Bytes → ℤ → ℤ × Option ConfigError
get_env_int64 env key fallback =
    if bytes_eq (env key) [] then (fallback, none) else or_in key (parse_int (env key))

unfoldable pub parse_level : Bytes → Level
parse_level raw =
    if bytes_eq (to_lower raw) (codes "debug")
    then level_debug
    else if bytes_eq (to_lower raw) (codes "warn")
    then level_warn
    else if bytes_eq (to_lower raw) (codes "error")
    then level_error
    else level_info

-- `if err == nil { err = e }`
abbrev pub keep : Option ConfigError → Option ConfigError → Option ConfigError
keep none e = e
keep (some err) e = some err

unfoldable pub int_val : Env → Bytes → ℤ → Option ConfigError → ℤ × Option ConfigError
unfolding get_env_int
int_val env key fallback err = let (v, e) = get_env_int env key fallback in (v, keep err e)

unfoldable pub int64_val : Env → Bytes → ℤ → Option ConfigError → ℤ × Option ConfigError
unfolding get_env_int64
int64_val env key fallback err = let (v, e) = get_env_int64 env key fallback in (v, keep err e)

-- What Load returns, behind the settings.
abbrev pub checked : Option ConfigError → Config → Loaded
checked (some e) cfg = failed e
checked none cfg = elim cfg.redis_addresses [ [] ↦ failed no_redis_address | a ∷ rest ↦ loaded cfg ]

unfoldable pub redis_addr_from_env : Env → Bytes
unfolding split_addrs
redis_addr_from_env env =
    if bytes_eq (env (codes "REDIS_ADDR")) []
    then elim (split_addrs (env (codes "REDIS_ADDRS"))) [ [] ↦ [] | a ∷ rest ↦ a ]
    else env (codes "REDIS_ADDR")

module _ (part_of : ℕ → ℕ → ℕ → ℕ) where
  abbrev pub duration_or_in : Bytes → Option ℤ → ℤ × Option ConfigError
  duration_or_in key (some v) = (v, none)
  duration_or_in key none = (pos 0, some (in_variable key invalid_duration))

  unfoldable pub get_env_duration : Env → Bytes → ℤ → ℤ × Option ConfigError
  get_env_duration env key fallback =
      if bytes_eq (env key) []
      then (fallback, none)
      else duration_or_in key (parse_duration part_of (env key))

  unfoldable pub dur_val : Env → Bytes → ℤ → Option ConfigError → ℤ × Option ConfigError
  unfolding get_env_duration
  dur_val env key fallback err = let (v, e) = get_env_duration env key fallback in (v, keep err e)

  -- Load. The first error of the settings is kept, and the others are read all the same.
  unfoldable pub load : Env → Loaded
  unfolding int_val dur_val int64_val get_env split_addrs parse_level
  load env =
      let (redis_db, err_1) = int_val env (codes "REDIS_DB") (pos 0) none in
      let (redis_pool_size, err_2) = int_val env (codes "REDIS_POOL_SIZE") (pos 256) err_1 in
      let (bid_idempotency_ttl, err_3) =
        dur_val env (codes "BID_IDEMPOTENCY_TTL") (pos (10 * minute)) err_2 in
      let (default_auction_duration, err_4) =
        dur_val env (codes "DEFAULT_AUCTION_DURATION") (pos (10 * minute)) err_3 in
      let (stream_read_count, err_5) = int_val env (codes "STREAM_READ_COUNT") (pos 256) err_4 in
      let (max_in_flight_bids, err_6) =
        int_val env (codes "MAX_INFLIGHT_BIDS") (pos 100000) err_5 in
      let (max_ws_queue_depth, err_7) = int_val env (codes "MAX_WS_QUEUE_DEPTH") (pos 2048) err_6 in
      let (breaker_failure_threshold, err_8) =
        int_val env (codes "BREAKER_FAILURE_THRESHOLD") (pos 20) err_7 in
      let (breaker_open_for, err_9) =
        dur_val env (codes "BREAKER_OPEN_FOR") (pos (500 * millisecond)) err_8 in
      let (graceful_shutdown_timeout, err_10) =
        dur_val env (codes "GRACEFUL_SHUTDOWN_TIMEOUT") (pos (10 * second)) err_9 in
      let (gogc, err_11) = int_val env (codes "GOGC") (pos 100) err_10 in
      let (go_mem_limit_bytes, err_12) = int64_val env (codes "GOMEMLIMIT_BYTES") (pos 0) err_11 in
      checked err_12 (record {
        grpc_address = get_env env (codes "AUCTION_GRPC_ADDR") (codes ":8081");
        http_address = get_env env (codes "AUCTION_HTTP_ADDR") (codes ":8080");
        redis_addresses = split_addrs (get_env env (codes "REDIS_ADDRS") (codes "127.0.0.1:6379"));
        redis_password = get_env env (codes "REDIS_PASSWORD") [];
        redis_db = redis_db;
        redis_pool_size = redis_pool_size;
        bid_idempotency_ttl = bid_idempotency_ttl;
        default_auction_duration = default_auction_duration;
        stream_read_count = stream_read_count;
        max_in_flight_bids = max_in_flight_bids;
        max_ws_queue_depth = max_ws_queue_depth;
        breaker_failure_threshold = breaker_failure_threshold;
        breaker_open_for = breaker_open_for;
        log_level = parse_level (get_env env (codes "LOG_LEVEL") (codes "info"));
        graceful_shutdown_timeout = graceful_shutdown_timeout;
        gogc = gogc;
        go_mem_limit_bytes = go_mem_limit_bytes;
      })
