-- ===== src/Transport/Grpc/Codes.antt =====
-- What the handlers answer, and what they count.
use auctioneer.Base.{
  ℕ, zero, suc, ◌+◌, ◌*◌, ◌^◌, ◌≤◌, ◌<◌, ◌≡◌, refl, ap, ◌∙◌, Bool, some, arith, ltb, le→ltb, lt→ltb,
  ℤ, pos, negsuc, ◌+ℤ◌, ◌<ℤ◌, +ℤ_parts, wrap64, Bool-cases, inl, inr,
}
use auctioneer.Text.{Bytes, codes}
use auctioneer.Engine.Types.{PlaceBidResult, Error, error_text, Result, ok, err}
use auctioneer.Engine.Service
use auctioneer.Engine.Service.{Store, Service}
use auctioneer.Engine.Service.Checks.{
  IsValid, Fault, place_bid-checks, no_auction, no_bid, no_user, bad_amount,
}
use auctioneer.Transport.Grpc.{
  Api, Metrics, resource_exhausted, invalid_argument, Response, failure, PlaceBidMessage,
  PlaceBidResponse, code_of, respond, bid_request, end_of, place_bid,
}

-- The calls that were counted under some outcome.
abbrev pub counted : Metrics → ℕ
counted m = m.accepted + m.rejected + m.error + m.overloaded

respond-counts :
    (r : Result PlaceBidResult) (b : Bool) (m : Metrics)
    → (counted (respond r b m).1 ≡ suc (counted m))
      × ((respond r b m).1.in_flight ≡ m.in_flight)
      × ((respond r b m).1.latencies ≡ m.latencies)
unfolding respond
respond-counts (err e) b m = (omega arith, refl, refl)
respond-counts (ok res) b m = (ground arith, ground arith, ground arith)

back : (z : ℤ) → z +ℤ pos 1 +ℤ negsuc 0 ≡ z
unfolding ◌+ℤ◌
back z = ground arith

module _ {E S : Type 0} (store : Store E S) (breaker_open : S → Bool) where
  -- A call that finds all tokens taken is refused without reaching the engine, and gives back what
  -- it counted as in flight.
  pub place_bid-overloaded :
      (e : E) (req : PlaceBidMessage) (a : Api) (s : S)
      → a.max_in_flight ≤ a.inflight
      → place_bid store breaker_open e req (a, s) ≡ (
        failure (record { code = resource_exhausted; text = codes "server overloaded" }),
        (
          record a {
            metrics = record a.metrics {
              overloaded = suc a.metrics.overloaded;
              latencies = suc a.metrics.latencies;
            };
          },
          s,
        ),
      )
  unfolding place_bid
  place_bid-overloaded e req a s full =
      rw (le→ltb a.inflight a.max_in_flight full, back a.metrics.in_flight)

  -- Every call counts exactly one outcome and one latency, and leaves the tokens and the in-flight gauge as it found
  -- them, whichever way it ends.
  pub place_bid-counts_once :
      (e : E) (req : PlaceBidMessage) (a : Api) (s : S)
      → let a' : Api = (place_bid store breaker_open e req (a, s)).1.0 in
        (counted a'.metrics ≡ suc (counted a.metrics))
        × (a'.metrics.latencies ≡ suc a.metrics.latencies)
        × (a'.metrics.in_flight ≡ a.metrics.in_flight)
        × (a'.inflight ≡ a.inflight)
        × (a'.max_in_flight ≡ a.max_in_flight)
  unfolding place_bid
  place_bid-counts_once e req a s =
      let (r, s') = Service.place_bid store e (bid_request req) s in
      let m = record a.metrics { in_flight = a.metrics.in_flight +ℤ pos 1 } in
      elim (Bool-cases (ltb a.inflight a.max_in_flight)) [
        | inl room ↦ rw room (
          (respond-counts r (breaker_open s') m).0,
          ap suc (respond-counts r (breaker_open s') m).2,
          ap (λ z. z +ℤ negsuc 0) (respond-counts r (breaker_open s') m).1
              ∙ back a.metrics.in_flight,
          omega arith,
          refl,
        )
        | inr full ↦ rw full (omega arith, refl, back a.metrics.in_flight, refl, refl)
      ]

  -- If there is a token, a bid with an empty id or an amount that is not positive is an invalid
  -- argument, and the engine's store is as before.
  pub place_bid-invalid :
      (e : E) (req : PlaceBidMessage) (a : Api) (s : S)
      → a.inflight < a.max_in_flight
      → ¬ IsValid (bid_request req)
      → (text : Bytes) × ((place_bid store breaker_open e req (a, s)).0
          ≡ failure (record { code = invalid_argument; text = text }))
        × ((place_bid store breaker_open e req (a, s)).1.1 ≡ s)
  unfolding place_bid
  place_bid-invalid e req a s room bad = elim (place_bid-checks store e s (bid_request req)) [
    | inl (valid, _) ↦ absurd (bad valid)
    | inr (fault, why, eq) ↦ (
      error_text fault,
      rw (lt→ltb a.inflight a.max_in_flight room, eq) (answered fault why),
      rw (lt→ltb a.inflight a.max_in_flight room, eq),
    )
  ]
    where
      answered :
          (fault : Error)
          → Fault (bid_request req) fault
          → ◌≡◌ {A = Response PlaceBidResponse}
              (failure (record { code = code_of fault; text = error_text fault }))
              (failure (record { code = invalid_argument; text = error_text fault }))
      answered fault (no_auction x) = unfold code_of in refl
      answered fault (no_bid x y) = unfold code_of in refl
      answered fault (no_user x y z) = unfold code_of in refl
      answered fault (bad_amount x y z w) = unfold code_of in refl

-- The end of an auction is the given positive number of seconds from now, if that many nanoseconds
-- fit an int64.
pub end_of-exact :
    (now : ℤ) (sec : ℕ)
    → 0 < sec
    → sec * 1000000000 < 2 ^ 63
    → end_of now (pos sec) ≡ some (now +ℤ pos (sec * 1000000000))
unfolding end_of wrap64
end_of-exact now zero h _ = absurd (omega arith)
end_of-exact now (suc n) _ fits = ground arith

-- A number of seconds that is from 2 ^ 63 up to 2 ^ 64 nanoseconds wraps around: the end lies before
-- now, so the auction that was asked to last some centuries has ended when it is created.
pub end_of-wraps :
    (now : ℤ) (sec : ℕ)
    → 2 ^ 63 ≤ sec * 1000000000
    → sec * 1000000000 < 2 ^ 64
    → (t : ℤ) × (end_of now (pos sec) ≡ some t) × (t <ℤ now)
unfolding end_of wrap64
end_of-wraps now zero low _ = absurd (omega arith)
end_of-wraps now (suc n) low high =
    let d = wrap64 (pos (suc n * 1000000000)) in (now +ℤ d, refl, ground (arith, +ℤ_parts now d))
