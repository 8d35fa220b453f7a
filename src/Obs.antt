-- ===== src/Obs.antt =====
-- internal/obs/metrics.go: the metrics at their start, and their registration. A registry is the names
-- that it has; as Prometheus documents, MustRegister panics (`none`) on a name that is there already.
-- The counter of dropped clients is a field of the hub, and the other values are those that the
-- handlers of transport/grpc/server.go change.
mod Tests
use auctioneer.Base.{Bool, true, false, Option, none, some, List, [], ◌∷◌, ◌++◌, pos}
use auctioneer.Text.{Bytes, codes}
use auctioneer.Text.Map.{contains}
use auctioneer.Transport.Grpc.{Metrics}

abbrev pub Registry : Type 0
Registry = List Bytes

-- In the order of the registration.
abbrev pub metric_names : List Bytes
metric_names =
    codes "auction_bid_requests_total"
    ∷ codes "auction_bid_latency_seconds"
    ∷ codes "auction_inflight_bids"
    ∷ codes "auction_redis_breaker_open"
    ∷ codes "auction_ws_dropped_clients_total"
    ∷ codes "auction_stream_dispatch_lag_ms"
    ∷ []

unfoldable pub must_register : List Bytes → Registry → Option Registry
must_register [] reg = some reg
must_register (name ∷ names) reg = elim (contains name reg) [
  | true ↦ none
  | false ↦ must_register names (reg ++ name ∷ [])
]

abbrev pub no_metrics : Metrics
no_metrics = record {
  accepted = 0;
  rejected = 0;
  error = 0;
  overloaded = 0;
  latencies = 0;
  in_flight = pos 0;
  redis_breaker_open = 0;
}

unfoldable pub new_metrics : Registry → Option (Metrics × Registry)
unfolding must_register
new_metrics reg = elim (must_register metric_names reg) [
  | none ↦ none
  | some reg' ↦ some (no_metrics, reg')
]
