-- ===== src/Process/Serving/Tests.antt =====
-- A server with one call inside gets a signal, lets one more in, and its HTTP server fails meanwhile.
use auctioneer.Base.{◌≡◌, ◌≢◌, refl, ◌==◌, ==_refl, true, none, some, List, [], ◌∷◌, pos, arith}
use auctioneer.Text.{codes}
use auctioneer.Text.Map.{is_some}
use auctioneer.Engine.Router.{shard}
use auctioneer.Transport.Grpc.{enter, leave}
use auctioneer.Transport.Grpc.Calls.{
  Server, begins, arrives, acquires, releases, observes, leaves, IsConsistent, left,
}
use auctioneer.Transport.Grpc.Calls
use auctioneer.Process.Serving.{
  Origin, from_http, Main, selects, ended, serving_main, is_sending, Step, calls, returns, sends,
  signalled, stops, grpc_stopped, http_stopped, step, steps, send_err, serve_returns, sends_err,
  on_signal, graceful_stop_called, graceful_stop_returns, shutdown_returns, call_step, readyz,
}
use auctioneer.Process.Serving.Ends.{main-ends, goroutine, Drains}

-- A server with room for two calls, and none inside.
abbrev server : Server
server = record {
  api = record {
    max_in_flight = 2;
    inflight = 0;
    metrics = record {
      accepted = 0;
      rejected = 0;
      error = 0;
      overloaded = 0;
      latencies = 0;
      in_flight = pos 0;
      redis_breaker_open = 0;
    };
  };
  begun = 0;
  entered = 0;
  served = 0;
  refused = 0;
  closing = 0;
  observed = 0;
  turned_away = 0;
}

server-IsConsistent : IsConsistent server
server-IsConsistent = record { tokens = refl; bounded = omega arith; gauge = refl; counted = refl }

abbrev acts : List Step
acts =
    calls begins
    ∷ calls arrives
    ∷ calls acquires
    ∷ signalled
    ∷ calls begins
    ∷ returns from_http
    ∷ stops
    ∷ calls releases
    ∷ calls arrives
    ∷ sends from_http
    ∷ calls acquires
    ∷ calls observes
    ∷ calls releases
    ∷ calls leaves
    ∷ calls observes
    ∷ calls leaves
    ∷ grpc_stopped
    ∷ http_stopped
    ∷ []

unfoldable last : Main
unfolding steps
last = elim (steps acts (serving_main server)) [ none ↦ serving_main server | some m ↦ m ]

runs : steps acts (serving_main server) ≡ some last
unfolding last steps step Calls.step enter leave serving_main call_step on_signal
    graceful_stop_called serve_returns sends_err send_err graceful_stop_returns shutdown_returns
runs = refl

main-ends_example :
    ((o : Origin) → is_sending (goroutine o last) ≡ true → is_some (step (sends o) last) ≡ true)
    × (last.phase ≢ selects → Drains last)
    × (last.phase ≡ ended
        → (left last.calls ≡ 0)
          × (last.calls.api.inflight ≡ 0)
          × (last.calls.api.metrics.in_flight ≡ pos 0)
          × (last.calls.api.metrics.overloaded ≡ last.calls.turned_away))
main-ends_example = main-ends server acts last server-IsConsistent runs

-- Two clients, of which only that of "health" answers.
half_down : (readyz 2 (λ i. i == shard 2 (codes "health"))).0 ≡ 200
unfolding readyz
half_down = rw (==_refl (shard 2 (codes "health"))) refl
