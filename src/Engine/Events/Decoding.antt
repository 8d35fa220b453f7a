-- ===== src/Engine/Events/Decoding.antt =====
-- An accepted bid is read back from the stream as it was placed.
use auctioneer.Base.{◌≡◌, ℤ, pos, InInt64}
use auctioneer.Text.{Bytes, bytes_eq}
use auctioneer.Text.Parse.{parse_int64-print_int}
use auctioneer.Engine.Types.{PlaceBidRequest}
use auctioneer.Engine.Spec.{Auction}
use auctioneer.Engine.Script.Refinement.{event}
use auctioneer.Engine.Events.{val, event_from_stream}

-- The event that the script announces for a bid decodes to that bid, with the version it got and the
-- time of the script.
pub event_from_stream-event :
    (id : Bytes) (req : PlaceBidRequest) (a : Auction) (now : ℤ)
    → InInt64 req.amount_cents
    → InInt64 (pos a.version)
    → InInt64 now
    → event_from_stream (id, event req a now) ≡ record {
      id = id;
      auction_id = req.auction_id;
      bid_id = req.bid_id;
      user_id = req.user_id;
      amount_cents = req.amount_cents;
      version = pos a.version;
      server_unix_milli = now;
    }
unfolding event_from_stream val bytes_eq
event_from_stream-event id req a now amount version time = rw (
  parse_int64-print_int req.amount_cents amount,
  parse_int64-print_int (pos a.version) version,
  parse_int64-print_int now time,
)
