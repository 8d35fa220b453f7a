-- ===== src/Engine/Spec.antt =====
-- What an auction promises, with no word of Redis: the specification that the script implements.
pub mod Play
use auctioneer.Base.{
  ℕ, suc, ◌+◌, ◌<◌, ◌^◌, Bool, true, false, if◌then◌else◌, List, [], ◌∷◌, ℤ, pos, abs, leb_ℤ,
}
use auctioneer.Text.{Bytes, codes}
use auctioneer.Lua.Numbers.{IsExact}

-- `end_at` is in milliseconds since 1970.
pub record Auction : Type 0 where
  pub is_open : Bool
  pub end_at : ℤ
  pub price : ℤ
  pub winner : Bytes
  pub version : ℕ

pub data Verdict : Type 0 where
  accepted bid_too_low auction_ended auction_closed : Verdict

unfoldable pub judge : Auction → ℤ → ℤ → Verdict
judge a amount now =
    if a.is_open
    then (if leb_ℤ a.end_at now
        then auction_ended
        else if leb_ℤ amount a.price
        then bid_too_low
        else accepted)
    else auction_closed

-- The auction behind a bid of `user` that was judged so.
unfoldable pub settle : Auction → Bytes → ℤ → Verdict → Auction
settle a user amount accepted = record a { price = amount; winner = user; version = suc a.version }
settle a user amount bid_too_low = a
settle a user amount auction_ended = record a { is_open = false }
settle a user amount auction_closed = a

unfoldable pub place : Auction → Bytes → ℤ → ℤ → Auction
unfolding judge settle
place a user amount now = settle a user amount (judge a amount now)

abbrev pub reason : Verdict → Bytes
reason accepted = codes "accepted"
reason bid_too_low = codes "bid_too_low"
reason auction_ended = codes "auction_ended"
reason auction_closed = codes "auction_closed"

abbrev pub is_accepted : Verdict → Bool
is_accepted accepted = true
is_accepted bid_too_low = false
is_accepted auction_ended = false
is_accepted auction_closed = false

-- The numbers of an auction that Lua keeps exactly, with room for one more version.
pub record IsPlain (a : Auction) : Type 0 where
  pub end_at : abs a.end_at < 2 ^ 53
  pub price : IsExact a.price
  pub version : a.version + 1 < 10 ^ 14
