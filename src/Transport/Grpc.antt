-- ===== src/Transport/Grpc.antt =====
-- internal/transport/grpc/server.go: the handlers of the gRPC service. A call of PlaceBid has two
-- points that other calls may come between: where it takes a token of the semaphore, and where it
-- ends. Prometheus metrics are the numbers that they count, and the latency histogram is the number of its
-- observations.
pub mod Calls
pub mod Codes
pub mod Bids
pub mod Start
mod Tests
mod BidTests
use auctioneer.Base.{
  ℕ, zero, suc, ◌+◌, ◌-◌, ◌*◌, ◌^◌, Bool, true, false, Option, none, some, if◌then◌else◌, ltb, ℤ,
  pos, negsuc, ◌+ℤ◌, wrap64,
}
use auctioneer.Text.{Bytes, codes}
use auctioneer.Engine.Types.{
  PlaceBidRequest, PlaceBidResult, CreateAuctionRequest, Error, error_text, Result, ok, err,
}
use auctioneer.Engine.Service
use auctioneer.Engine.Service.{Store, Service}

pub record Metrics : Type 0 where
  pub accepted : ℕ
  pub rejected : ℕ
  pub error : ℕ
  pub overloaded : ℕ
  -- How many latencies were observed.
  pub latencies : ℕ
  pub in_flight : ℤ
  pub redis_breaker_open : ℕ

-- `inflight` is the number of tokens in the channel `inflightSem`, `max_in_flight` its capacity.
pub record Api : Type 0 where
  pub max_in_flight : ℕ
  pub inflight : ℕ
  pub metrics : Metrics

pub data Code : Type 0 where
  deadline_exceeded resource_exhausted unavailable invalid_argument internal : Code

pub record Status : Type 0 where
  pub code : Code
  pub text : Bytes

pub data Response {ℓ} (A : Type ℓ) : Type ℓ where
  reply : A → Response A
  failure : Status → Response A

-- The messages of auction.proto; a response has the fields of the engine's result.
pub record PlaceBidMessage : Type 0 where
  pub auction_id : Bytes
  pub bid_id : Bytes
  pub user_id : Bytes
  pub amount_cents : ℤ

pub record CreateAuctionMessage : Type 0 where
  pub auction_id : Bytes
  pub opening_price_cents : ℤ
  pub duration_sec : ℤ

pub record PlaceBidResponse : Type 0 where
  pub accepted : Bool
  pub duplicate : Bool
  pub reason : Bytes
  pub current_price_cents : ℤ
  pub winner_user_id : Bytes
  pub version : ℤ
  pub event_id : Bytes
  pub server_ts_ms : ℤ

unfoldable pub code_of : Error → Code
code_of Error.deadline_exceeded = deadline_exceeded
code_of Error.redis_breaker_open = unavailable
code_of Error.invalid_auction_id = invalid_argument
code_of Error.invalid_bid_id = invalid_argument
code_of Error.invalid_user_id = invalid_argument
code_of Error.invalid_amount = invalid_argument
code_of (Error.message text) = internal
code_of (Error.from_redis text) = internal

-- InFlightBids.Inc()
abbrev pub inc_in_flight : Api → Api
inc_in_flight a = record a {
  metrics = record a.metrics { in_flight = a.metrics.in_flight +ℤ pos 1 };
}

-- The select: `true` with a token, `false` in its default.
abbrev pub acquire : Api → Api × Bool
acquire a =
    if ltb a.inflight a.max_in_flight
    then (record a { inflight = suc a.inflight }, true)
    else (a, false)

abbrev pub count_overloaded : Api → Api
count_overloaded a = record a {
  metrics = record a.metrics { overloaded = suc a.metrics.overloaded };
}

-- The deferred calls: the token's release, the latency, and InFlightBids.Dec().
abbrev pub release : Api → Api
release a = record a { inflight = a.inflight - 1 }

abbrev pub observe : Api → Api
observe a = record a { metrics = record a.metrics { latencies = suc a.metrics.latencies } }

abbrev pub dec_in_flight : Api → Api
dec_in_flight a = record a {
  metrics = record a.metrics { in_flight = a.metrics.in_flight +ℤ negsuc 0 };
}

-- The first lines of a call that no other call comes between: its token, if it gets one.
unfoldable pub enter : Api → Api × Bool
enter a = acquire (inc_in_flight a)

-- The deferred calls of a call with a token, and of one without.
unfoldable pub leave : Api → Api
leave a = dec_in_flight (observe (release a))

leave_without_token : Api → Api
leave_without_token a = dec_in_flight (observe a)

unfoldable pub overloaded : Api → Response PlaceBidResponse × Api
unfolding leave_without_token
overloaded a = (
  failure (record { code = resource_exhausted; text = codes "server overloaded" }),
  leave_without_token (count_overloaded a),
)

-- From the service's result to the response, with the counters; `breaker_open` is what the
-- function `breakerOpen` says.
unfoldable pub respond :
    Result PlaceBidResult → Bool → Metrics → Response PlaceBidResponse × Metrics
unfolding code_of
respond (err e) breaker_open m = (
  failure (record { code = code_of e; text = error_text e }),
  record m { error = suc m.error; redis_breaker_open = if breaker_open then 1 else 0 },
)
respond (ok res) breaker_open m = (
  reply (record {
    accepted = res.accepted;
    duplicate = res.duplicate;
    reason = res.reason;
    current_price_cents = res.current_price;
    winner_user_id = res.winner_user_id;
    version = res.version;
    event_id = res.event_id;
    server_ts_ms = res.server_unix_milli;
  }),
  if res.accepted
      then record m { accepted = suc m.accepted }
      else record m { rejected = suc m.rejected },
)

abbrev pub bid_request : PlaceBidMessage → PlaceBidRequest
bid_request req = record {
  auction_id = req.auction_id;
  bid_id = req.bid_id;
  user_id = req.user_id;
  amount_cents = req.amount_cents;
}

-- The end of the auction for a duration in seconds, in nanoseconds; int64 arithmetic wraps around.
unfoldable pub end_of : ℤ → ℤ → Option ℤ
end_of now (pos zero) = none
end_of now (pos (suc n)) = some (now +ℤ wrap64 (pos (suc n * 1000000000)))
end_of now (negsuc n) = none

module _ {E S : Type 0} (store : Store E S) (breaker_open : S → Bool) where
  -- The handler of PlaceBid for a call that no other call comes between.
  unfoldable pub place_bid : E → PlaceBidMessage → Api × S → Response PlaceBidResponse × (Api × S)
  unfolding enter leave overloaded respond
  place_bid e req (a, s) =
      let (a', admitted) = enter a in
      let (result, s') = Service.place_bid store e (bid_request req) s in
      let (response, m) = respond result (breaker_open s') a'.metrics in
      let (refusal, a'') = overloaded a' in
      if admitted then (response, (leave (record a' { metrics = m }), s')) else (refusal, (a'', s))

  create_reply : Option Error → Response (Unit {0})
  create_reply none = reply tt
  create_reply (some e) = failure (record { code = invalid_argument; text = error_text e })

  unfoldable pub create_auction :
      Service → ℤ → ℤ → E → CreateAuctionMessage → S → Response (Unit {0}) × S
  unfolding create_reply end_of
  create_auction svc now service_now e req s =
      let (failed, s') =
        Service.create_auction store svc service_now e
          (record {
            auction_id = req.auction_id;
            opening_price_cents = req.opening_price_cents;
            end_at = end_of now req.duration_sec;
          })
          s in
      (create_reply failed, s')
