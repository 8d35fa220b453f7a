-- ===== src/Process/Boot.antt =====
-- cmd/server/main.go from its first line to its select: the parts, the metrics and the gRPC server.
use auctioneer.Base.{
  ℕ, ◌<◌, ◌^◌, ◌≡◌, refl, Bool, true, false, Option, none, some, [], map, pos, length, leb_ℤ,
}
use auctioneer.Text.{Bytes, bytes_eq}
use auctioneer.Config.{Env, Config, loaded, load}
use auctioneer.Engine.Redis.{Redis}
use auctioneer.Engine.Router.{Options, shard}
use auctioneer.Obs.{Registry, new_metrics, must_register, metric_names, no_metrics}
use auctioneer.Transport.Grpc.{Api, Metrics}
use auctioneer.Transport.Grpc.Start
use auctioneer.Transport.Grpc.Start.{
  new_server, first_server, new_server-IsConsistent, listen_failed, panicked, listening,
}
use auctioneer.Transport.Grpc.Calls.{IsConsistent}
use auctioneer.Process
use auctioneer.Process.{App, Started, config_failed, router_failed, router_panicked, started}
use auctioneer.Process.Start.{addr_of, MakesFor, start-ready}
use auctioneer.Process.Serving.{Main, serving_main}

module _ (R : Redis) where
  open R use {Db}

  -- `main` ends with status 1, panics, or comes to its select.
  pub data Booted : Type 0 where
    exits panics : Booted
    serves : App R → Main → Booted

  unfoldable pub with_server : App R → Start.Started → Booted
  with_server app listen_failed = exits
  with_server app panicked = panics
  with_server app (listening api streams) = serves app (serving_main (first_server api))

  unfoldable pub with_metrics : Bool → App R → Option (Metrics × Registry) → Booted
  unfolding with_server
  with_metrics listens app none = panics
  with_metrics listens app (some (metrics, reg)) =
      with_server app (new_server listens app.max_in_flight_bids metrics)

  unfoldable pub with_parts : Bool → Started R → Booted
  unfolding with_metrics
  with_parts listens (config_failed e) = exits
  with_parts listens router_failed = exits
  with_parts listens router_panicked = panics
  with_parts listens (started app) = with_metrics listens app (new_metrics [])

  -- `makes` says for which options redis.NewClient gives a client, `listens` whether the gRPC address
  -- can be listened on.
  unfoldable pub boot : (ℕ → ℕ → ℕ → ℕ) → (Options → Bool) → (ℕ → Db) → Env → Bool → Booted
  unfolding with_parts
  boot part_of makes dbs env listens = with_parts listens (Process.start R part_of makes dbs env)

  metrics_made : new_metrics [] ≡ some (no_metrics, metric_names)
  unfolding new_metrics must_register bytes_eq
  metrics_made = refl

  -- Once Load has returned a configuration with a limit of calls that is not negative, redis.NewClient
  -- gives a client for each of its Redis addresses, and the gRPC address can be listened on, `main` comes to its select: the router has one client for each Redis
  -- address of the configuration, in their order, the store finds a client of the router for every
  -- auction, the dispatcher reads a positive number of entries, and the gRPC server has room for the
  -- configured number of calls, with consistent counters. (There are fewer than 2^32 addresses.)
  pub boot-serves :
      (part_of : ℕ → ℕ → ℕ → ℕ) (makes : Options → Bool) (dbs : ℕ → Db) (env : Env) (cfg : Config)
      (auction_id : Bytes) (n : ℕ)
      → load part_of env ≡ loaded cfg
      → MakesFor makes cfg.redis_addresses cfg.redis_password cfg.redis_db cfg.redis_pool_size
      → length cfg.redis_addresses < 2 ^ 32
      → cfg.max_in_flight_bids ≡ pos n
      → (app : App R) × (api : Api) × (boot part_of makes dbs env true
          ≡ serves app (serving_main (first_server api)))
        × (map addr_of app.router.clients ≡ cfg.redis_addresses)
        × (shard app.store.client_count auction_id < length app.router.clients)
        × (leb_ℤ app.dispatcher.stream_count (pos 0) ≡ false)
        × (api.max_in_flight ≡ n)
        × IsConsistent (first_server api)
  unfolding boot with_parts with_metrics with_server
  boot-serves part_of makes dbs env cfg auction_id n e ok few limit =
      let (app, made, clients, found, count, same) =
        start-ready R part_of makes dbs env cfg auction_id e ok few in
      let (api, listens, room, consistent) = new_server-IsConsistent n no_metrics refl refl in
      (
        app,
        api,
        rw (made, metrics_made, same, limit, listens) refl,
        clients,
        found,
        count,
        room,
        consistent,
      )
