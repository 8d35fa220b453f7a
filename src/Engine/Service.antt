-- ===== src/Engine/Service.antt =====
-- internal/engine/service.go: the interface `Store`, and the checks in front of it.
pub mod Checks
mod Tests
use auctioneer.Base.{ℕ, ◌*◌, Bool, Option, none, some, [], if◌then◌else◌, ℤ, pos, ◌+ℤ◌, leb_ℤ}
use auctioneer.Text.{Bytes, bytes_eq}
use auctioneer.Engine.Types.{
  PlaceBidRequest, PlaceBidResult, CreateAuctionRequest, Error, invalid_auction_id, invalid_bid_id,
  invalid_user_id, invalid_amount, Result, err,
}
use auctioneer.Engine.Breaker.{millisecond}
use auctioneer.Engine.Redis.{Redis}
use auctioneer.Engine.Store.{
  RedisStore, Link, Clock, create_auction as redis_create_auction, place_bid as redis_place_bid,
}

-- The interface's methods that the service calls, over a state `S`; `E` is what the outside decides
-- about one call.
pub record Store (E S : Type 0) : Type 0 where
  pub create_auction : E → CreateAuctionRequest → S → Option Error × S
  pub place_bid : E → PlaceBidRequest → S → Result PlaceBidResult × S

abbrev pub redis_store : (R : Redis) → Store (Link × Clock) (RedisStore R)
redis_store R = record {
  create_auction = λ e req s. redis_create_auction R e.0 req s;
  place_bid = λ e req s. redis_place_bid R e.0 e.1 req s;
}

-- Nanoseconds.
pub record Service : Type 0 where
  pub default_duration : ℤ

unfoldable pub new_service : ℤ → Service
new_service default_duration = record {
  default_duration =
      if leb_ℤ default_duration (pos 0)
      then pos (10 * 60 * 1000 * millisecond)
      else default_duration;
}

-- `time.Now().UTC().Add(s.defaultDuration)` for the zero time.
end_or_default : Option ℤ → Service → ℤ → Option ℤ
end_or_default none svc now = some (now +ℤ svc.default_duration)
end_or_default (some t) svc now = some t

module _ {E S : Type 0} (store : Store E S) where
  unfoldable pub create_auction : Service → ℤ → E → CreateAuctionRequest → S → Option Error × S
  unfolding end_or_default
  create_auction svc now e req s =
      if bytes_eq req.auction_id []
      then (some invalid_auction_id, s)
      else store.create_auction e (record req { end_at = end_or_default req.end_at svc now }) s

  unfoldable pub place_bid : E → PlaceBidRequest → S → Result PlaceBidResult × S
  place_bid e req s =
      if bytes_eq req.auction_id []
      then (err invalid_auction_id, s)
      else if bytes_eq req.bid_id []
      then (err invalid_bid_id, s)
      else if bytes_eq req.user_id []
      then (err invalid_user_id, s)
      else if leb_ℤ req.amount_cents (pos 0)
      then (err invalid_amount, s)
      else store.place_bid e req s
