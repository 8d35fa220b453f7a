-- ===== src/Engine/Codec.antt =====
-- `decodeCachedResult`.
pub mod RoundTrip
mod Tests
use auctioneer.Base.{ℕ, Bool, List, [], ◌∷◌, ◌++◌, ◌-◌, ℤ, length, get_or, replicate}
use auctioneer.Text.{Bytes, codes, bytes_eq}
use auctioneer.Text.Split.{split_n}
use auctioneer.Text.Parse.{parse_int64}
use auctioneer.Engine.Types.{PlaceBidResult}

-- The loop that appends empty parts until there are seven.
pad : List Bytes → List Bytes
pad parts = parts ++ replicate (7 - length parts) []

from_parts : List Bytes → PlaceBidResult
from_parts parts = record {
  accepted = bytes_eq (get_or parts 0 []) (codes "1");
  duplicate = Bool.false;
  reason = get_or parts 1 [];
  current_price = parse_int64 (get_or parts 2 []);
  winner_user_id = get_or parts 3 [];
  version = parse_int64 (get_or parts 4 []);
  event_id = get_or parts 5 [];
  server_unix_milli = parse_int64 (get_or parts 6 []);
}

unfoldable pub decode_cached_result : Bytes → PlaceBidResult
unfolding pad from_parts
decode_cached_result encoded = from_parts (pad (split_n b'|' 6 encoded))
