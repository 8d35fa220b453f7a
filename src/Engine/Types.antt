-- ===== src/Engine/Types.antt =====
-- internal/engine/types.go, and the errors of the package. An int64 is the integer that it holds.
use auctioneer.Base.{Bool, Option, ℤ}
use auctioneer.Text.{Bytes, codes}

pub record PlaceBidRequest : Type 0 where
  pub auction_id : Bytes
  pub bid_id : Bytes
  pub user_id : Bytes
  pub amount_cents : ℤ

pub record PlaceBidResult : Type 0 where
  pub accepted : Bool
  pub duplicate : Bool
  pub reason : Bytes
  pub current_price : ℤ
  pub winner_user_id : Bytes
  pub version : ℤ
  pub event_id : Bytes
  pub server_unix_milli : ℤ

-- `end_at` is in nanoseconds since 1970; `time.Time`'s zero value is `none`.
pub record CreateAuctionRequest : Type 0 where
  pub auction_id : Bytes
  pub opening_price_cents : ℤ
  pub end_at : Option ℤ

pub record AuctionEvent : Type 0 where
  pub id : Bytes
  pub auction_id : Bytes
  pub bid_id : Bytes
  pub user_id : Bytes
  pub amount_cents : ℤ
  pub version : ℤ
  pub server_unix_milli : ℤ

-- The errors that callers tell apart, those made by `errors.New` and `fmt.Errorf`, and those that
-- the Redis client returns, with their texts.
pub data Error : Type 0 where
  invalid_auction_id invalid_bid_id invalid_user_id invalid_amount : Error
  redis_breaker_open : Error
  deadline_exceeded : Error
  message : Bytes → Error
  from_redis : Bytes → Error

-- Go's pair of a result and an error.
pub data Result {ℓ} (A : Type ℓ) : Type ℓ where
  ok : A → Result A
  err : Error → Result A

-- `err.Error()`.
pub error_text : Error → Bytes
error_text invalid_auction_id = codes "auction_id is required"
error_text invalid_bid_id = codes "bid_id is required"
error_text invalid_user_id = codes "user_id is required"
error_text invalid_amount = codes "amount must be > 0"
error_text redis_breaker_open = codes "redis breaker is open"
error_text deadline_exceeded = codes "context deadline exceeded"
error_text (message text) = text
error_text (from_redis text) = text
