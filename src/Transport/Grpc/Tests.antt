-- ===== src/Transport/Grpc/Tests.antt =====
-- The handlers over the store on the running Redis, and overlapping calls.
use auctioneer.Base.{◌≡◌, refl, Bool, some, List, [], ◌∷◌, arith, ℤ, pos, ◌<ℤ◌, suc}
use auctioneer.Text.{Bytes, codes}
use auctioneer.Engine.Redis.Simple
use auctioneer.Engine.Redis.Simple.{simple}
use auctioneer.Engine.Store.{RedisStore, delivered, Clock, breaker_open}
use auctioneer.Engine.Service.{redis_store}
use auctioneer.Transport.Grpc.{
  Api, Metrics, failure, invalid_argument, PlaceBidMessage, place_bid, end_of,
}
use auctioneer.Transport.Grpc.Calls.{
  Server, Event, begins, arrives, acquires, releases, counts, observes, steps, IsConsistent,
  steps-IsConsistent,
}
use auctioneer.Transport.Grpc.Codes.{
  counted, place_bid-counts_once, place_bid-invalid, end_of-wraps,
}

abbrev store : RedisStore simple
store = record {
  client_count = 1;
  dbs = λ i. Simple.empty;
  idem_ttl = pos 600000000000;
  breaker = record {
    failure_threshold = pos 3;
    open_for_ns = pos 1000000000;
    consecutive_fails = pos 0;
    open_until_ns = pos 0;
  };
}

abbrev clock : Clock
clock = record { at_allow = pos 1000; now_ms = pos 1000; at_fail = pos 1000 }

abbrev metrics : Metrics
metrics = record {
  accepted = 0;
  rejected = 0;
  error = 0;
  overloaded = 0;
  latencies = 0;
  in_flight = pos 0;
  redis_breaker_open = 0;
}

abbrev idle : Api
idle = record { max_in_flight = 2; inflight = 0; metrics = metrics }

abbrev busy : Api
busy = record { max_in_flight = 2; inflight = 2; metrics = record metrics { in_flight = pos 2 } }

abbrev nameless : PlaceBidMessage
nameless = record { auction_id = codes "a"; bid_id = codes "b"; user_id = []; amount_cents = pos 5 }

abbrev is_open : RedisStore simple → Bool
is_open = breaker_open simple (pos 1000)

place_bid-counts_once_example :
    let a' : Api =
      (place_bid (redis_store simple) is_open (delivered, clock) nameless (idle, store)).1.0 in
    (counted a'.metrics ≡ suc (counted idle.metrics))
    × (a'.metrics.latencies ≡ suc idle.metrics.latencies)
    × (a'.metrics.in_flight ≡ idle.metrics.in_flight)
    × (a'.inflight ≡ idle.inflight)
    × (a'.max_in_flight ≡ idle.max_in_flight)
place_bid-counts_once_example =
    place_bid-counts_once (redis_store simple) is_open (delivered, clock) nameless idle store

place_bid-invalid_example :
    (text : Bytes) × ((place_bid
        (redis_store simple)
        is_open
        (delivered, clock)
        nameless
        (idle, store)).0
      ≡ failure (record { code = invalid_argument; text = text }))
    × ((place_bid (redis_store simple) is_open (delivered, clock) nameless (idle, store)).1.1
        ≡ store)
place_bid-invalid_example =
    place_bid-invalid (redis_store simple) is_open (delivered, clock) nameless idle store
      (omega arith) (λ valid. valid.user_id refl)

end_of-wraps_example : (t : ℤ) × (end_of (pos 7) (pos 9223372037) ≡ some t) × (t <ℤ pos 7)
end_of-wraps_example = end_of-wraps (pos 7) 9223372037 (omega arith) (omega arith)

abbrev quiet : Server
quiet = record {
  api = idle;
  begun = 0;
  entered = 0;
  served = 0;
  refused = 0;
  closing = 0;
  observed = 0;
  turned_away = 0;
}

-- Of three calls that come to the select of a server for two, one is turned away, while another gives
-- its token back.
abbrev three_calls : List Event
three_calls =
    begins ∷ begins ∷ begins ∷ arrives ∷ arrives ∷ acquires ∷ arrives ∷ acquires ∷ acquires
    ∷ releases ∷ counts ∷ observes ∷ []

steps-IsConsistent_example : IsConsistent (steps three_calls quiet)
steps-IsConsistent_example =
    steps-IsConsistent three_calls quiet
      (record { tokens = refl; bounded = omega arith; gauge = refl; counted = refl })
