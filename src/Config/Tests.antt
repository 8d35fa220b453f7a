-- ===== src/Config/Tests.antt =====
-- A configuration that is written out, and environments with and without errors.
use auctioneer.Base.{ℕ, ◌*◌, ◌/◌, ◌^◌, ◌≡◌, refl, [], ◌∷◌, pos, negsuc, arith, if◌then◌else◌}
use auctioneer.Text.{codes, bytes_eq, bytes_eq→ne}
use auctioneer.Text.Space.{trim_space, to_lower, split}
use auctioneer.Text.Split.{split_n}
use auctioneer.Text.Parse.{parse_int}
use auctioneer.Config.{
  Env, Config, level_warn, loaded, failed, in_variable, invalid_syntax, load, get_env_int,
  get_env_int64, get_env_duration, parse_level, split_addrs, redis_addr_from_env,
}
use auctioneer.Config.Addresses.{IsAddress}
use auctioneer.Config.Variables.{IsSettable, env_of}
use auctioneer.Config.RoundTrip.{load-env_of}

-- A fraction, rounded down.
abbrev part_of : ℕ → ℕ → ℕ → ℕ
part_of f unit k = f * unit / 10 ^ k

abbrev config : Config
config = record {
  grpc_address = codes ":9";
  http_address = codes ":8";
  redis_addresses = codes "r1" ∷ codes "r2" ∷ [];
  redis_password = [];
  redis_db = pos 3;
  redis_pool_size = pos 16;
  bid_idempotency_ttl = pos 60000000000;
  default_auction_duration = pos 5000000000;
  stream_read_count = pos 10;
  max_in_flight_bids = pos 2;
  max_ws_queue_depth = pos 4;
  breaker_failure_threshold = negsuc 0;
  breaker_open_for = pos 1000000;
  log_level = level_warn;
  graceful_shutdown_timeout = pos 0;
  gogc = pos 100;
  go_mem_limit_bytes = pos 0;
}

r1 : IsAddress (codes "r1")
unfolding bytes_eq trim_space
r1 = record {
  not_empty = bytes_eq→ne _ _ refl;
  one_part = (omega arith, (omega arith, tt));
  trimmed = refl;
}

r2 : IsAddress (codes "r2")
unfolding bytes_eq trim_space
r2 = record {
  not_empty = bytes_eq→ne _ _ refl;
  one_part = (omega arith, (omega arith, tt));
  trimmed = refl;
}

config-IsSettable : IsSettable config
unfolding bytes_eq
config-IsSettable = record {
  grpc_address = bytes_eq→ne _ _ refl;
  http_address = bytes_eq→ne _ _ refl;
  some_address = λ e. cc;
  redis_addresses = (r1, (r2, tt));
  redis_db = omega arith;
  redis_pool_size = omega arith;
  bid_idempotency_ttl = omega arith;
  default_auction_duration = omega arith;
  stream_read_count = omega arith;
  max_in_flight_bids = omega arith;
  max_ws_queue_depth = omega arith;
  breaker_failure_threshold = omega arith;
  breaker_open_for = omega arith;
  graceful_shutdown_timeout = omega arith;
  gogc = omega arith;
  go_mem_limit_bytes = omega arith;
}

load-env_of_example : load part_of (env_of config) ≡ loaded config
load-env_of_example = load-env_of part_of config config-IsSettable

-- Two variables with errors, of which the second in this list comes first in Load.
abbrev wrong : Env
wrong key =
    if bytes_eq key (codes "GOGC")
    then codes "off"
    else if bytes_eq key (codes "REDIS_DB")
    then codes "1x"
    else []

wrong_fails : load part_of wrong ≡ failed (in_variable (codes "REDIS_DB") invalid_syntax)
unfolding load bytes_eq get_env_int get_env_int64 get_env_duration parse_int
wrong_fails = refl

-- Spaces and empty parts go, and letters count in either case.
tests_of_parts :
    (split_addrs (codes " r1, ,r2 ") ≡ codes "r1" ∷ codes "r2" ∷ [])
    × (parse_level (codes "WARN") ≡ level_warn)
    × (redis_addr_from_env (λ key. codes "r1,r2") ≡ codes "r1,r2")
unfolding split_addrs split split_n parse_level trim_space to_lower bytes_eq redis_addr_from_env
tests_of_parts = (refl, refl, refl)
