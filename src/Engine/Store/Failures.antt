-- ===== src/Engine/Store/Failures.antt =====
-- The calls that change no database.
use auctioneer.Base.{◌≡◌, ◌∙◌, refl, ap, true, some, none, [], pos, arith}
use auctioneer.Text.{Bytes, codes}
use auctioneer.Lua.Numbers.{IsExact, tonumber-print_int}
use auctioneer.Engine.Types.{PlaceBidRequest, err, message, redis_breaker_open}
use auctioneer.Engine.Breaker
use auctioneer.Engine.Breaker.{CircuitBreaker}
use auctioneer.Engine.Breaker.Behaviour.{allow-is_open}
use auctioneer.Engine.Redis.{Redis}
use auctioneer.Engine.Keys.{idem_key, state_key}
use auctioneer.Engine.Codec.{decode_cached_result}
use auctioneer.Engine.Codec.RoundTrip.{decode_cached_result-encode}
use auctioneer.Engine.Script.{script_args, run, fresh, encode}
use auctioneer.Engine.Store.{RedisStore, Link, delivered, Clock, for_auction, place_bid}
use auctioneer.Engine.Store.Shards.{for_auction-with_db}
use auctioneer.Engine.Store.Bids.{ran, place_bid-err}

module _ (R : Redis) (s : RedisStore R) (c : Clock) (req : PlaceBidRequest) where
  -- While the breaker is open a bid fails at once, whatever the network would do, and the store is
  -- as it was.
  pub place_bid-breaker_open :
      (link : Link)
      → Breaker.is_open c.at_allow s.breaker ≡ true
      → place_bid R link c req s ≡ (err redis_breaker_open, s)
  unfolding place_bid
  place_bid-breaker_open link e = rw ((allow-is_open c.at_allow s.breaker).1 e)

  missing_answer : Bytes
  missing_answer =
      encode (codes "0") (codes "auction_not_found") (some (pos 0)) [] (some (pos 0)) []
        (some c.now_ms)

  ran_missing :
      IsExact c.now_ms
      → R.hget (for_auction R s req.auction_id) (idem_key req.auction_id) req.bid_id ≡ none
      → R.hget (for_auction R s req.auction_id) (state_key req.auction_id) (codes "status") ≡ none
      → ran R s c req ≡ (some (codes "ERR", missing_answer), for_auction R s req.auction_id)
  unfolding run script_args missing_answer
  ran_missing now_fits new missing =
      rw (run, new, fresh, missing, tonumber-print_int c.now_ms (omega arith))

  missing_reason :
      IsExact c.now_ms → (decode_cached_result missing_answer).reason ≡ codes "auction_not_found"
  unfolding missing_answer
  missing_reason now_fits =
      ap (λ r. r.reason)
        (decode_cached_result-encode (codes "0") (codes "auction_not_found") [] [] (pos 0) (pos 0)
          c.now_ms (omega arith) (omega arith) tt tt (omega arith) (omega arith) now_fits)

  -- A bid that is not remembered, for an auction whose hash has no status, is an error with the text
  -- "auction_not_found", if the breaker lets it through: the database stays as it is, and the breaker
  -- counts neither a success nor a failure. (The time has at most 14 digits.)
  pub place_bid-not_found :
      (Breaker.allow c.at_allow s.breaker).1 ≡ true
      → IsExact c.now_ms
      → R.hget (for_auction R s req.auction_id) (idem_key req.auction_id) req.bid_id ≡ none
      → R.hget (for_auction R s req.auction_id) (state_key req.auction_id) (codes "status") ≡ none
      → ((place_bid R delivered c req s).0 ≡ err (message (codes "auction_not_found")))
        × (for_auction R (place_bid R delivered c req s).1 req.auction_id
            ≡ for_auction R s req.auction_id)
        × ((place_bid R delivered c req s).1.breaker ≡ (Breaker.allow c.at_allow s.breaker).0)
  place_bid-not_found allowed now_fits new missing =
      rw
        (place_bid-err R s c req allowed missing_answer
          (ap (λ o. o.0) (ran_missing now_fits new missing)))
        (
          ap (λ r. err (message r)) (missing_reason now_fits),
          for_auction-with_db R s req.auction_id (ran R s c req).1
              ∙ ap (λ o. o.1) (ran_missing now_fits new missing),
          refl,
        )
