-- ===== src/Engine/Codec/Tests.antt =====
-- The cases of TestDecodeCachedResult, and the round trip at one of them.
use auctioneer.Base.{◌≡◌, refl, false, [], pos, some, arith}
use auctioneer.Text.{codes, bytes_eq}
use auctioneer.Engine.Types.{PlaceBidResult}
use auctioneer.Engine.Script.{encode}
use auctioneer.Engine.Codec.{decode_cached_result}
use auctioneer.Text.Split.{split_n}
use auctioneer.Text.Parse.{parse_int64}
use auctioneer.Engine.Codec.RoundTrip.{
  decode_cached_result-encode, decode_cached_result-cuts_winner,
}

abbrev refused : PlaceBidResult
refused = record {
  accepted = false;
  duplicate = false;
  reason = codes "bid_too_low";
  current_price = pos 100;
  winner_user_id = [];
  version = pos 2;
  event_id = [];
  server_unix_milli = pos 1710000000000;
}

decodes_refused : decode_cached_result (codes "0|bid_too_low|100||2||1710000000000") ≡ refused
unfolding decode_cached_result split_n parse_int64 bytes_eq
decodes_refused = refl

decode_cached_result-encode_example :
    decode_cached_result (
      encode
        (codes "0")
        (codes "bid_too_low")
        (some (pos 100))
        []
        (some (pos 2))
        []
        (some (pos 1710000000000)))
    ≡ record refused { accepted = bytes_eq (codes "0") (codes "1") }
decode_cached_result-encode_example =
    decode_cached_result-encode (codes "0") (codes "bid_too_low") [] [] (pos 100) (pos 2)
      (pos 1710000000000) (omega arith) (omega arith) (omega arith) (omega arith) (omega arith)
      (omega arith) (omega arith)

-- The bidder `u|7` of version 3 comes back as `u` of version 7.
decode_cached_result-cuts_winner_example :
    let decoded : PlaceBidResult = decode_cached_result (
      encode
        (codes "1")
        (codes "accepted")
        (some (pos 100))
        (codes "u|7")
        (some (pos 3))
        (codes "5-0")
        (some (pos 1710000000000))) in
    (decoded.winner_user_id ≡ codes "u") × (decoded.version ≡ parse_int64 (codes "7"))
decode_cached_result-cuts_winner_example =
    decode_cached_result-cuts_winner (codes "1") (codes "accepted") (codes "u") (codes "7")
      (codes "5-0") (pos 100) (pos 3) (pos 1710000000000) (omega arith) (omega arith) (omega arith)
      (omega arith) (omega arith)
