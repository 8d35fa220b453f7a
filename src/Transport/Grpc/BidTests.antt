-- ===== src/Transport/Grpc/BidTests.antt =====
-- The first bid of the tests of the store, sent to the handler.
use auctioneer.Base.{◌≡◌, refl, Bool, pos, arith, if◌then◌else◌}
use auctioneer.Text.{bytes_eq, bytes_eq→ne}
use auctioneer.Engine.Types.{PlaceBidResult}
use auctioneer.Engine.Redis.Simple.{simple}
use auctioneer.Engine.Store.{RedisStore, delivered, breaker_open}
use auctioneer.Engine.Store.Bids.{Applied}
use auctioneer.Engine.Store.Tests.{store, auction, first, first_ready, id}
use auctioneer.Engine.Service.{redis_store}
use auctioneer.Engine.Service.Checks.{IsValid}
use auctioneer.Transport.Grpc.{Api, PlaceBidMessage, reply, bid_request, place_bid}
use auctioneer.Transport.Grpc.Bids.{response_of, place_bid-served}

abbrev msg : PlaceBidMessage
msg = record {
  auction_id = id;
  bid_id = first.bid_id;
  user_id = first.user_id;
  amount_cents = first.amount_cents;
}

msg-IsValid : IsValid (bid_request msg)
unfolding bytes_eq
msg-IsValid = record {
  auction_id = bytes_eq→ne _ _ refl;
  bid_id = bytes_eq→ne _ _ refl;
  user_id = bytes_eq→ne _ _ refl;
  amount = omega arith;
}

abbrev api : Api
api = record {
  max_in_flight = 2;
  inflight = 1;
  metrics = record {
    accepted = 4;
    rejected = 0;
    error = 0;
    overloaded = 0;
    latencies = 0;
    in_flight = pos 1;
    redis_breaker_open = 0;
  };
}

abbrev is_open : RedisStore simple → Bool
is_open = breaker_open simple (pos 1000)

place_bid-served_example :
    (result : PlaceBidResult) × ((place_bid
        (redis_store simple)
        is_open
        (delivered, first.clock)
        msg
        (api, store)).0
      ≡ reply (response_of result))
    × Applied simple store first.clock
        (bid_request msg)
        auction
        result
        (place_bid (redis_store simple) is_open (delivered, first.clock) msg (api, store)).1.1
    × ((place_bid
          (redis_store simple)
          is_open
          (delivered, first.clock)
          msg
          (api, store)).1.0.metrics.accepted
        ≡ (if result.accepted then 5 else 4))
place_bid-served_example =
    place_bid-served simple store first.clock msg auction is_open api (omega arith) msg-IsValid
      first_ready
