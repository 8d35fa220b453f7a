-- ===== src/Process/Tests.antt =====
-- The start with nothing set in the environment.
use auctioneer.Base.{
  ℕ, Bool, leb_ℤ, ◌&&◌, ◌*◌, ◌/◌, ◌^◌, ◌<◌, ◌≡◌, refl, true, false, [], ◌∷◌, map, pos, length,
  arith,
}
use auctioneer.Text.{codes, bytes_eq}
use auctioneer.Text.Space.{trim_space, to_lower, split}
use auctioneer.Text.Split.{split_n}
use auctioneer.Config.{
  Env, Config, level_info, load, loaded, get_env, get_env_int, get_env_int64, get_env_duration,
  split_addrs, parse_level,
}
use auctioneer.Engine.Redis.Simple
use auctioneer.Engine.Redis.Simple.{simple}
use auctioneer.Engine.Router.{
  Options, RedisClient, RedisRouter, shard, options_of, panicked, new_client, new_clients,
  new_redis_router, close,
}
use auctioneer.Transport.Grpc.{Api}
use auctioneer.Transport.Grpc.Start.{first_server}
use auctioneer.Transport.Grpc.Calls.{IsConsistent}
use auctioneer.Process.{App}
use auctioneer.Process.Start.{addr_of}
use auctioneer.Process.Serving.{serving_main}
use auctioneer.Process.Boot.{boot, serves, boot-serves}

abbrev part_of : ℕ → ℕ → ℕ → ℕ
part_of f unit k = f * unit / 10 ^ k

abbrev nothing_set : Env
nothing_set key = []

abbrev defaults : Config
defaults = record {
  grpc_address = codes ":8081";
  http_address = codes ":8080";
  redis_addresses = codes "127.0.0.1:6379" ∷ [];
  redis_password = [];
  redis_db = pos 0;
  redis_pool_size = pos 256;
  bid_idempotency_ttl = pos 600000000000;
  default_auction_duration = pos 600000000000;
  stream_read_count = pos 256;
  max_in_flight_bids = pos 100000;
  max_ws_queue_depth = pos 2048;
  breaker_failure_threshold = pos 20;
  breaker_open_for = pos 500000000;
  log_level = level_info;
  graceful_shutdown_timeout = pos 10000000000;
  gogc = pos 100;
  go_mem_limit_bytes = pos 0;
}

loads_defaults : load part_of nothing_set ≡ loaded defaults
unfolding load get_env_int get_env_int64 get_env_duration get_env split_addrs split split_n
    trim_space parse_level to_lower bytes_eq
loads_defaults = refl

-- A client needs a size of its pool that is not negative and fits an int32.
abbrev makes : Options → Bool
makes o = leb_ℤ (pos 0) o.pool_size && leb_ℤ o.pool_size (pos 2147483647)

boot-serves_example :
    (app : App simple) × (api : Api) × (boot simple part_of makes
        (λ i. Simple.empty)
        nothing_set
        true
      ≡ serves app (serving_main (first_server api)))
    × (map addr_of app.router.clients ≡ defaults.redis_addresses)
    × (shard app.store.client_count (codes "a1") < length app.router.clients)
    × (leb_ℤ app.dispatcher.stream_count (pos 0) ≡ false)
    × (api.max_in_flight ≡ 100000)
    × IsConsistent (first_server api)
boot-serves_example =
    boot-serves simple part_of makes (λ i. Simple.empty) nothing_set defaults (codes "a1") 100000
      loads_defaults (refl, tt) (omega arith) refl

abbrev client : RedisClient
client = record { options = options_of (codes "127.0.0.1:6379") [] (pos 0) (pos 8); closes = 0 }

abbrev router : RedisRouter
router = record { clients = client ∷ []; closed = false }

-- Closing a second time closes no client again.
closes_once : close (close router) ≡ close router
unfolding close
closes_once = refl

-- A pool size that does not fit an int32 is loaded all the same, and redis.NewClient panics.
new_redis_router_panics :
    new_redis_router makes (codes "127.0.0.1:6379" ∷ []) [] (pos 0) (pos 2147483648) ≡ panicked
unfolding new_redis_router new_clients new_client trim_space bytes_eq
new_redis_router_panics = refl
