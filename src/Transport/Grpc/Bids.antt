-- ===== src/Transport/Grpc/Bids.antt =====
-- A bid on its whole way: the handler, the service, the store, and the script on Redis.
use auctioneer.Base.{arith, suc, ◌<◌, ◌≡◌, refl, Bool, lt→ltb, inl, inr, if◌then◌else◌}
use auctioneer.Engine.Types.{PlaceBidResult}
use auctioneer.Engine.Spec.{Auction}
use auctioneer.Engine.Redis.{Redis}
use auctioneer.Engine.Store
use auctioneer.Engine.Store.{RedisStore, delivered, Clock}
use auctioneer.Engine.Store.Bids.{IsReady, Applied, place_bid-refines}
use auctioneer.Engine.Service
use auctioneer.Engine.Service.{redis_store}
use auctioneer.Engine.Service.Checks.{
  IsValid, place_bid-checks, no_auction, no_bid, no_user, bad_amount,
}
use auctioneer.Transport.Grpc.{
  Api, reply, PlaceBidMessage, PlaceBidResponse, respond, bid_request, place_bid,
}

-- The response with the fields of a result.
abbrev pub response_of : PlaceBidResult → PlaceBidResponse
response_of res = record {
  accepted = res.accepted;
  duplicate = res.duplicate;
  reason = res.reason;
  current_price_cents = res.current_price;
  winner_user_id = res.winner_user_id;
  version = res.version;
  event_id = res.event_id;
  server_ts_ms = res.server_unix_milli;
}

module _ (R : Redis) (s : RedisStore R) (c : Clock) (msg : PlaceBidMessage) (a : Auction) where
  valid-passes :
      IsValid (bid_request msg)
      → Service.place_bid (redis_store R) (delivered, c) (bid_request msg) s
        ≡ Store.place_bid R delivered c (bid_request msg) s
  valid-passes v = elim (place_bid-checks (redis_store R) (delivered, c) s (bid_request msg)) [
    | inl (_, passed) ↦ passed
    | inr (_, no_auction e, _) ↦ absurd (v.auction_id e)
    | inr (_, no_bid _ e, _) ↦ absurd (v.bid_id e)
    | inr (_, no_user _ _ e, _) ↦ absurd (v.user_id e)
    | inr (_, bad_amount _ _ _ e, _) ↦ absurd (omega (arith, v.amount, e))
  ]

  -- A valid bid that finds a token, and whose call to Redis goes well, is answered by the handler
  -- with the specification's verdict and counts as accepted if it is that; the auction, the
  -- remembered answer and the event stream are then those of the specification. (The store meets
  -- the conditions of `Engine.Store.Bids.place_bid-refines`.)
  pub place_bid-served :
      (breaker_open : RedisStore R → Bool) (api : Api)
      → api.inflight < api.max_in_flight
      → IsValid (bid_request msg)
      → IsReady R s c (bid_request msg) a
      → (result : PlaceBidResult) × ((place_bid
            (redis_store R)
            breaker_open
            (delivered, c)
            msg
            (api, s)).0
          ≡ reply (response_of result))
        × Applied R s c
            (bid_request msg)
            a
            result
            (place_bid (redis_store R) breaker_open (delivered, c) msg (api, s)).1.1
        × ((place_bid (redis_store R) breaker_open (delivered, c) msg (api, s)).1.0.metrics.accepted
            ≡ (if result.accepted then suc api.metrics.accepted else api.metrics.accepted))
  unfolding place_bid respond
  place_bid-served breaker_open api room valid ready =
      let (result, answered, applied) = place_bid-refines R s c (bid_request msg) a ready in
      rw (lt→ltb api.inflight api.max_in_flight room, valid-passes valid, answered)
        (result, refl, applied, ground arith)
