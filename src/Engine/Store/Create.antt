-- ===== src/Engine/Store/Create.antt =====
-- `CreateAuction` on the store.
use auctioneer.Base.{◌≡◌, refl, true, none, []}
use auctioneer.Text.{Bytes, bytes_eq, bytes_eq_refl}
use auctioneer.Engine.Types.{CreateAuctionRequest}
use auctioneer.Engine.Redis.{Redis}
use auctioneer.Engine.Keys.{state_key, idem_key, events_key}
use auctioneer.Engine.Keys.Distinct.{state_key-ne-idem_key}
use auctioneer.Engine.Spec.{Auction}
use auctioneer.Engine.Script.Represents.{Holds}
use auctioneer.Engine.Store.{
  RedisStore, delivered, for_auction, create_auction, create_fields, unix_milli,
}
use auctioneer.Engine.Store.Shards.{for_auction-with_db}

-- The auction as it is created.
abbrev pub created : CreateAuctionRequest → Auction
created req = record {
  is_open = true;
  end_at = unix_milli req.end_at;
  price = req.opening_price_cents;
  winner = [];
  version = 0;
}

module _ (R : Redis) (s : RedisStore R) (req : CreateAuctionRequest) where
  Holds-created :
      Holds R
        (R.hset (for_auction R s req.auction_id) (state_key req.auction_id) (create_fields req))
        req.auction_id
        (created req)
  unfolding create_fields bytes_eq
  Holds-created = record {
    status = rw (R.hget-hset, bytes_eq_refl (state_key req.auction_id));
    end_at = rw (R.hget-hset, bytes_eq_refl (state_key req.auction_id));
    price = rw (R.hget-hset, bytes_eq_refl (state_key req.auction_id));
    winner = rw (R.hget-hset, bytes_eq_refl (state_key req.auction_id));
    version = rw (R.hget-hset, bytes_eq_refl (state_key req.auction_id));
  }

  -- If its call succeeds, after CreateAuction the hash holds a fresh auction, whatever it held before: an auction that has
  -- bids loses its price, winner and version. The answers that are remembered for its bids and its
  -- event stream stay.
  pub create_auction-resets :
      ((create_auction R delivered req s).0 ≡ none)
      × Holds R
          (for_auction R (create_auction R delivered req s).1 req.auction_id)
          req.auction_id
          (created req)
      × ((bid_id : Bytes)
          → R.hget
              (for_auction R (create_auction R delivered req s).1 req.auction_id)
              (idem_key req.auction_id)
              bid_id
            ≡ R.hget (for_auction R s req.auction_id) (idem_key req.auction_id) bid_id)
      × (R.stream
            (for_auction R (create_auction R delivered req s).1 req.auction_id)
            (events_key req.auction_id)
          ≡ R.stream (for_auction R s req.auction_id) (events_key req.auction_id))
  unfolding create_auction
  create_auction-resets = rw (for_auction-with_db R s req.auction_id _) (
    refl,
    Holds-created,
    λ bid_id. rw (R.hget-hset, state_key-ne-idem_key req.auction_id req.auction_id),
    R.stream-hset _ _ _ _,
  )
