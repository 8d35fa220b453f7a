-- ===== src/Engine/Codec/RoundTrip.antt =====
-- `decodeCachedResult` behind the script's `encode`.
use auctioneer.Base.{◌≡◌, refl, false, [], ◌∷◌, ◌++◌, arith, Lacks, append_assoc, ℤ, some}
use auctioneer.Text.{Bytes, codes, bytes_eq}
use auctioneer.Text.Decimal.{print_int-Lacks}
use auctioneer.Text.Parse.{parse_int64, parse_int64-print_int}
use auctioneer.Text.Split.{split_n, split_n-join, split_n_last}
use auctioneer.Lua.{tostring}
use auctioneer.Lua.Numbers.{IsExact, tostring-exact}
use auctioneer.Engine.Types.{PlaceBidResult}
use auctioneer.Engine.Script.{encode}
use auctioneer.Engine.Codec.{decode_cached_result}

tostring-Lacks : (z : ℤ) → IsExact z → Lacks b'|' (tostring (some z))
tostring-Lacks z h = rw (tostring-exact z h) (print_int-Lacks z)

parse_int64-tostring : (z : ℤ) → IsExact z → parse_int64 (tostring (some z)) ≡ z
parse_int64-tostring z h = rw (tostring-exact z h) (parse_int64-print_int z (omega arith))

-- The seven parts of a text that `encode` wrote, whatever its numbers are; the last part may hold
-- bars.
pub split_n-encode :
    (flag reason price winner version event now : Bytes)
    → Lacks b'|' flag
    → Lacks b'|' reason
    → Lacks b'|' price
    → Lacks b'|' winner
    → Lacks b'|' version
    → Lacks b'|' event
    → split_n b'|' 6 (
        flag
        ++ b'|'
          ∷ (reason
              ++ b'|'
                ∷ (price ++ b'|' ∷ (winner ++ b'|' ∷ (version ++ b'|' ∷ (event ++ b'|' ∷ now))))))
      ≡ flag ∷ reason ∷ price ∷ winner ∷ version ∷ event ∷ now ∷ []
split_n-encode flag reason price winner version event now hf hr hp hw hv he = rw (
  split_n-join b'|' 5 flag _ hf,
  split_n-join b'|' 4 reason _ hr,
  split_n-join b'|' 3 price _ hp,
  split_n-join b'|' 2 winner _ hw,
  split_n-join b'|' 1 version _ hv,
  split_n-join b'|' 0 event _ he,
  split_n_last,
)

-- Decoding what the script encoded gives every part back, where no text holds a bar and no number
-- has more than 14 digits.
pub decode_cached_result-encode :
    (flag reason winner event : Bytes) (price version now : ℤ)
    → Lacks b'|' flag
    → Lacks b'|' reason
    → Lacks b'|' winner
    → Lacks b'|' event
    → IsExact price
    → IsExact version
    → IsExact now
    → decode_cached_result (encode flag reason (some price) winner (some version) event (some now))
      ≡ record {
        accepted = bytes_eq flag (codes "1");
        duplicate = false;
        reason = reason;
        current_price = price;
        winner_user_id = winner;
        version = version;
        event_id = event;
        server_unix_milli = now;
      }
unfolding decode_cached_result encode
decode_cached_result-encode flag reason winner event price version now hf hr hw he hp hv hn = rw (
  split_n-encode flag reason (tostring (some price)) winner (tostring (some version)) event
      (tostring (some now)) hf hr (tostring-Lacks price hp) hw (tostring-Lacks version hv) he,
  parse_int64-tostring price hp,
  parse_int64-tostring version hv,
  parse_int64-tostring now hn,
)

-- A winner's name that holds a bar is cut at its first one, and the text behind that bar is read as
-- the version. (Behind it there is no second bar, the texts before it hold none, and the price has at
-- most 14 digits.)
pub decode_cached_result-cuts_winner :
    (flag reason front back event : Bytes) (price version now : ℤ)
    → Lacks b'|' flag
    → Lacks b'|' reason
    → Lacks b'|' front
    → Lacks b'|' back
    → IsExact price
    → let decoded : PlaceBidResult =
        decode_cached_result (
          encode flag reason (some price) (front ++ b'|' ∷ back) (some version) event (some now)) in
      (decoded.winner_user_id ≡ front) × (decoded.version ≡ parse_int64 back)
unfolding decode_cached_result encode
decode_cached_result-cuts_winner flag reason front back event price version now hf hr hw hb hp =
    rw
      (
        append_assoc front (b'|' ∷ back),
        split_n-join b'|' 5 flag _ hf,
        split_n-join b'|' 4 reason _ hr,
        split_n-join b'|' 3 (tostring (some price)) _ (tostring-Lacks price hp),
        split_n-join b'|' 2 front _ hw,
        split_n-join b'|' 1 back _ hb,
      )
      (refl, refl)
