-- ===== src/Lib.antt =====
-- The auction engine of apps/api, a Go server on Redis, and what is proved about it.
--
-- A call of PlaceBid passes four parts. The gRPC server (internal/transport/grpc/server.go) bounds the
-- calls that are inside, and turns errors into status codes. The service (internal/engine/service.go)
-- checks the request and fills in an auction's default end. The store (internal/engine/redis_store.go)
-- asks the circuit breaker (breaker.go), finds the Redis client of the auction by CRC-32, runs the Lua
-- script `bidScript` on it, and decodes the script's answer. The script remembers its answers by bid id,
-- keeps the auction's hash, and announces accepted bids on a stream. Beside that, the dispatcher
-- (dispatcher.go) reads the streams and hands the events to the WebSocket hub (internal/transport/ws),
-- which passes them to the subscribers and drops the slow ones.
--
-- Files, with what they model below apps/api/internal:
--   Base, Base/*          numbers, integers with wrap-around, lists: names the parts share
--   Text, Text/*          strings as lists of bytes, strconv, strings, time.ParseDuration, maps with
--                         string keys
--   Lua, Lua/Numbers      the script language's numbers: tostring ("%.14g") and tonumber on doubles
--   Config                internal/config/config.go: Load and its helpers (Config/Variables writes one out)
--   Engine/Types          engine/types.go and the errors
--   Engine/Breaker        engine/breaker.go; its atomic accesses one by one (Breaker/Atomic)
--   Engine/Redis          the operations of Redis that the code uses, as an interface with their laws;
--                         Redis/Simple is an instance that runs
--   Engine/Keys           stateKey, idemKey, eventsKey
--   Engine/Spec           what an auction is and what a bid does to it, independent of the code
--   Engine/Script         bidScript, and its runs against Spec (Script/Refinement)
--   Engine/Codec          decodeCachedResult
--   Engine/Router         RedisRouter
--   Engine/Store          RedisStore: CreateAuction, PlaceBid, BreakerOpen (Store/* by subject)
--   Engine/Events         RedisStore.ReadEvents, eventFromStream; what XREAD answers, by documented laws
--                         (Events/Streams), and one that runs (Events/Simple)
--   Engine/Service        engine/service.go
--   Engine/Dispatcher     one tick of EventDispatcher.Run; runs of ticks (Dispatcher/Runs)
--   Obs                   obs/metrics.go: the registration of the metrics
--   Process               cmd/server/main.go (below apps/api): what main makes from the configuration,
--                         up to its select (Process/Boot), and from there to its end (Process/Serving);
--                         Process/Delivery joins the dispatcher, the hub and the handler, and
--                         Process/Auction and Process/CatchUp join them with the store
--   Bench/LoadTest        bench/loadtest/main.go (below apps/api)
--   Transport/Grpc        transport/grpc/server.go
--   Transport/Ws/Hub      transport/ws/hub.go, and the client of handler.go
--   Transport/Ws/Handler  transport/ws/handler.go: connections and their goroutines
--
-- State is passed explicitly. A store keeps one database for each Redis client. What the outside
-- decides about a call is an argument: the clock readings, and whether the call is delivered, its
-- request is lost, its reply is lost, or the Redis client sends its command again. A script runs in
-- one step, as Redis runs it; it keeps the writes before an error. The hub's `Run` is a sequence of
-- steps, and a step in which it would wait for itself has no result. What other goroutines send on its
-- channels during a step counts as sent before it: the room is the same, and only the order of the
-- entries in the channel can differ. The channels of its clients are buffered; for a queue depth of 0
-- the model says nothing, since there a send needs a waiting receiver. Strings are bytes. An int64 is
-- the integer it holds, and conversions and sums that can leave its range wrap around explicitly; so
-- do the breaker's int32 counters.
--
-- Overlapping goroutines are schedules: lists that say who makes the next step. The steps of a WebSocket
-- client are the events of its two pumps, and those of the breaker its atomic accesses and clock
-- readings; those of a gRPC call its gauge, its select, its counters and its token; those of the load
-- test the sends of its producer and what its workers do. What a library or the clock gives is part of
-- the step.
--
-- Every recursion follows a list, or counts down. `digits n` has fuel n + 1, and `exponent` in Lua has
-- fuel n: both are enough, since a number is divided by ten, or compared with a power of ten, in each
-- round. Trimming, splitting and reading a duration have the number of bytes as fuel, and each round
-- takes a byte or more. A double is exact below 2 ^ 53, and Lua prints 14 digits, hence the bound of 14
-- digits in the theorems about the script.
--
-- For which options redis.NewClient gives a client, and for which it panics, is an argument.
--
-- Remembered answers expire in a step of their own, in which Redis deletes them (Store/Expiry); the other
-- theorems on a repeated bid speak of the time in which its answer is remembered.
--
-- Not modelled: the channel of a client when the queue depth is 0, the encoding of messages as JSON
-- (an argument), the floating-point arithmetic of a fractional duration (an argument), deadlines,
-- logs, the values of the latencies, and the dispatch lag. GracefulStop and Shutdown are the
-- libraries': their steps do what is documented. In the store each method of the breaker is one step.
-- The load test's throughput, the benchmark, the generated protocol code and the dashboard are left
-- aside.
pub mod Base
pub mod Text
pub mod Lua
pub mod Engine
pub mod Config
pub mod Transport
pub mod Obs
pub mod Process
pub mod Bench
