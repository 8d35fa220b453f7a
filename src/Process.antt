-- ===== src/Process.antt =====
-- cmd/server/main.go: the parts that `main` makes from the configuration, up to the servers.
pub mod Start
pub mod Delivery
pub mod Auction
pub mod CatchUp
pub mod Serving
pub mod Boot
mod Tests
pub mod DeliveryTests
mod AuctionTests
use auctioneer.Base.{ℕ, Bool, ℤ, length}
use auctioneer.Config
use auctioneer.Config.{Env, Config, ConfigError, Loaded, loaded, failed}
use auctioneer.Engine.Redis.{Redis}
use auctioneer.Engine.Router.{
  Options, RedisRouter, Made, panicked, no_clients, made, new_redis_router,
}
use auctioneer.Engine.Store.{RedisStore, new_redis_store}
use auctioneer.Engine.Service.{Service, new_service}
use auctioneer.Engine.Dispatcher.{EventDispatcher, new_event_dispatcher}

module _ (R : Redis) where
  open R use {Db}

  -- The limits of the hub and of the gRPC server are kept as they are configured.
  pub record App : Type 0 where
    pub router : RedisRouter
    pub store : RedisStore R
    pub service : Service
    pub dispatcher : EventDispatcher
    pub max_ws_queue_depth : ℤ
    pub max_in_flight_bids : ℤ

  -- `main` ends with status 1, panics, or goes on to its servers.
  pub data Started : Type 0 where
    config_failed : ConfigError → Started
    router_failed router_panicked : Started
    started : App → Started

  -- `dbs` is what the Redis servers hold.
  unfoldable pub parts : (ℕ → Db) → Config → RedisRouter → App
  unfolding new_redis_store
  parts dbs cfg router = record {
    router = router;
    store =
        new_redis_store R (length router.clients) dbs cfg.bid_idempotency_ttl
          cfg.breaker_failure_threshold cfg.breaker_open_for;
    service = new_service cfg.default_auction_duration;
    dispatcher = new_event_dispatcher cfg.stream_read_count;
    max_ws_queue_depth = cfg.max_ws_queue_depth;
    max_in_flight_bids = cfg.max_in_flight_bids;
  }

  abbrev pub with_router : (ℕ → Db) → Config → Made RedisRouter → Started
  with_router dbs cfg panicked = router_panicked
  with_router dbs cfg no_clients = router_failed
  with_router dbs cfg (made router) = started (parts dbs cfg router)

  abbrev pub with_config : (Options → Bool) → (ℕ → Db) → Loaded → Started
  with_config makes dbs (failed e) = config_failed e
  with_config makes dbs (loaded cfg) = with_router dbs cfg (
      new_redis_router makes cfg.redis_addresses cfg.redis_password cfg.redis_db
        cfg.redis_pool_size)

  -- `makes` says for which options redis.NewClient gives a client.
  unfoldable pub start : (ℕ → ℕ → ℕ → ℕ) → (Options → Bool) → (ℕ → Db) → Env → Started
  start part_of makes dbs env = with_config makes dbs (Config.load part_of env)
