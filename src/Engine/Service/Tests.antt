-- ===== src/Engine/Service/Tests.antt =====
-- The service over the store on the running Redis.
use auctioneer.Base.{◌≡◌, ◌⊎◌, refl, pos}
use auctioneer.Text.{codes, bytes_eq}
use auctioneer.Engine.Types.{PlaceBidRequest, Error, invalid_amount, err}
use auctioneer.Engine.Redis.Simple
use auctioneer.Engine.Redis.Simple.{simple}
use auctioneer.Engine.Store.{RedisStore, delivered, Clock}
use auctioneer.Engine.Service.{Service, redis_store, place_bid}
use auctioneer.Engine.Service.Checks.{IsValid, Fault, place_bid-checks}

abbrev store : RedisStore simple
store = record {
  client_count = 1;
  dbs = λ i. Simple.empty;
  idem_ttl = pos 600000000000;
  breaker = record {
    failure_threshold = pos 3;
    open_for_ns = pos 1000000000;
    consecutive_fails = pos 0;
    open_until_ns = pos 0;
  };
}

abbrev clock : Clock
clock = record { at_allow = pos 1000; now_ms = pos 1000; at_fail = pos 1000 }

abbrev worthless : PlaceBidRequest
worthless = record {
  auction_id = codes "a";
  bid_id = codes "b";
  user_id = codes "u";
  amount_cents = pos 0;
}

refuses_zero :
    place_bid (redis_store simple) (delivered, clock) worthless store ≡ (err invalid_amount, store)
unfolding place_bid bytes_eq
refuses_zero = refl

place_bid-checks_example :
    (IsValid worthless
      × (place_bid (redis_store simple) (delivered, clock) worthless store
          ≡ (redis_store simple).place_bid (delivered, clock) worthless store))
    ⊎ ((fault : Error) × Fault worthless fault
        × (place_bid (redis_store simple) (delivered, clock) worthless store ≡ (err fault, store)))
place_bid-checks_example = place_bid-checks (redis_store simple) (delivered, clock) store worthless

abbrev service : Service
service = record { default_duration = pos 300000000000 }
