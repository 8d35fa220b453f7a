-- ===== src/Engine/Store/Retries.antt =====
-- What a client sees that sends a bid again.
use auctioneer.Base.{ℕ, zero, suc, ◌≡◌, ◌∙◌, refl, ap, true, false, none, some, List}
use auctioneer.Text.{Bytes, codes, bytes_eq}
use auctioneer.Engine.Types.{PlaceBidRequest, PlaceBidResult, Error, Result, ok}
use auctioneer.Engine.Breaker
use auctioneer.Engine.Breaker.{CircuitBreaker}
use auctioneer.Engine.Redis.{Redis}
use auctioneer.Engine.Keys.{idem_key}
use auctioneer.Engine.Spec.{Auction}
use auctioneer.Engine.Codec.{decode_cached_result}
use auctioneer.Engine.Script.{script_args, run}
use auctioneer.Engine.Store.{
  RedisStore, delivered, reply_lost, resent, Clock, for_auction, with_db, run_again, place_bid,
  milliseconds,
}
use auctioneer.Engine.Store.Remembered.{Attempt, attempts, attempts_kept}
use auctioneer.Engine.Store.Shards.{for_auction-with_db}
use auctioneer.Engine.Store.Bids.{
  IsReady, Applied, ran, place_bid-ok, place_bid-dup, place_bid-reply_lost, settled, applied, after,
}

module _ (R : Redis) (s : RedisStore R) (c : Clock) (req : PlaceBidRequest) (encoded : Bytes) where
  ran_cached :
      R.hget (for_auction R s req.auction_id) (idem_key req.auction_id) req.bid_id ≡ some encoded
      → ran R s c req ≡ (some (codes "DUP", encoded), for_auction R s req.auction_id)
  unfolding run script_args
  ran_cached e = rw (run, e)

  -- A remembered bid is answered with the remembered result, marked as a duplicate, and changes
  -- nothing in the auction's database.
  pub place_bid-remembered :
      (Breaker.allow c.at_allow s.breaker).1 ≡ true
      → R.hget (for_auction R s req.auction_id) (idem_key req.auction_id) req.bid_id ≡ some encoded
      → ((place_bid R delivered c req s).0
          ≡ ok (record (decode_cached_result encoded) { duplicate = true }))
        × (for_auction R (place_bid R delivered c req s).1 req.auction_id
            ≡ for_auction R s req.auction_id)
  place_bid-remembered allowed e =
      rw (place_bid-dup R s c req allowed encoded (ap (λ o. o.0) (ran_cached e))) (
        refl,
        for_auction-with_db R s req.auction_id (ran R s c req).1 ∙ ap (λ o. o.1) (ran_cached e),
      )

-- A result as the switch returns it for "DUP".
abbrev pub marked : PlaceBidResult → Result PlaceBidResult
marked r = ok (record r { duplicate = true })

module _ (R : Redis) (s : RedisStore R) (c : Clock) (req : PlaceBidRequest) (a : Auction)
    (r : IsReady R s c req a) where
  abbrev encoded : Bytes
  encoded = (settled R s c req a r).encoded

  -- What the second answer is: the first result, marked as a duplicate, with the auction's database as it was.
  abbrev pub IsRepeated : Clock → PlaceBidResult → RedisStore R → Type 0
  IsRepeated again first s' =
      ((place_bid R delivered again req s').0 ≡ marked first)
      × (for_auction R (place_bid R delivered again req s').1 req.auction_id
          ≡ for_auction R s' req.auction_id)

  -- Calls between the first one, which left the breaker as `f` does, and its repetition.
  repeated :
      (f : CircuitBreaker → CircuitBreaker) (xs : List Attempt) (again : Clock)
      → (let s' : RedisStore R = attempts R xs (after R s c req f) in
          (Breaker.allow again.at_allow s'.breaker).1 ≡ true
          → IsRepeated again (decode_cached_result encoded) s')
  repeated f xs again allowed =
      let kept : R.hget (for_auction R (after R s c req f) req.auction_id) (idem_key req.auction_id)
            req.bid_id
          ≡ some encoded =
        rw (for_auction-with_db R s req.auction_id (ran R s c req).1)
          (settled R s c req a r).remembered in
      let (_, still) =
        attempts_kept R (milliseconds s.idem_ttl) r.ttl_pos r.ttl_fits req.auction_id req.bid_id
          encoded xs (after R s c req f) (unfold with_db in refl, kept) in
      place_bid-remembered R (attempts R xs (after R s c req f)) again req encoded allowed still

  -- A bid that was answered and is sent again, whatever calls of PlaceBid come in between and whatever
  -- becomes of them, gets the result of the first call once more, with its event id, marked as a
  -- duplicate, which the first one was not; and the database of its auction stays as it is then. (The
  -- first call meets the conditions of `place_bid-refines`; its answer has not expired; the breaker lets
  -- the second call through, and its reply arrives.)
  pub place_bid-again :
      (xs : List Attempt) (again : Clock)
      → (let s' : RedisStore R = attempts R xs (place_bid R delivered c req s).1 in
          (Breaker.allow again.at_allow s'.breaker).1 ≡ true
          → (first : PlaceBidResult) × ((place_bid R delivered c req s).0 ≡ ok first)
            × (first.duplicate ≡ false)
            × IsRepeated again first s')
  place_bid-again xs again =
      let done = settled R s c req a r in
      rw (place_bid-ok R s c req r.allowed done.encoded done.replied) (λ allowed. (
        decode_cached_result done.encoded,
        refl,
        ap PlaceBidResult.duplicate done.decoded,
        repeated Breaker.success xs again allowed,
      ))

  -- A bid whose reply is lost is applied all the same: the auction, the remembered answer and the event
  -- are those of the specification. Sent again, whatever calls of PlaceBid come in between and
  -- whatever becomes of them, it gets the result that was lost, with the id of that event, marked as a
  -- duplicate, and the database of its auction stays as it is then. (The first call meets the
  -- conditions of `place_bid-refines`; its answer has not expired; the breaker lets the second call
  -- through, and its reply arrives.)
  pub reply_lost-again :
      (e : Error) (xs : List Attempt) (again : Clock)
      → (let s' : RedisStore R = attempts R xs (place_bid R (reply_lost e) c req s).1 in
          (Breaker.allow again.at_allow s'.breaker).1 ≡ true
          → (first : PlaceBidResult) × Applied R s c req a first
              (place_bid R (reply_lost e) c req s).1
            × IsRepeated again first s')
  reply_lost-again e xs again = rw (place_bid-reply_lost R s c req r.allowed e) (λ allowed. (
    decode_cached_result encoded,
    applied R s c req a r (Breaker.fail c.at_fail),
    repeated (Breaker.fail c.at_fail) xs again allowed,
  ))

  again_cached :
      (n : ℕ) (db : R.Db)
      → R.hget db (idem_key req.auction_id) req.bid_id ≡ some encoded
      → run_again R n (script_args req c.now_ms (milliseconds s.idem_ttl)) db
        ≡ (some (codes "DUP", encoded), db)
  unfolding run_again run script_args
  again_cached zero db e = rw (run, e)
  again_cached (suc n) db e = rw (run, e) (again_cached n db e)

  -- A bid that go-redis sends again by itself, because replies were lost, is applied once: the store is
  -- then as with one attempt. But its result says that it is a duplicate, though it was sent once. (The
  -- call meets the conditions of `place_bid-refines`.)
  pub resent-once :
      (n : ℕ)
      → (first : PlaceBidResult) × ((place_bid R delivered c req s).0 ≡ ok first)
        × (first.duplicate ≡ false)
        × (place_bid R (resent n none) c req s ≡ (marked first, (place_bid R delivered c req s).1))
  unfolding run run_again
  resent-once n =
      let done = settled R s c req a r in
      rw (place_bid-ok R s c req r.allowed done.encoded done.replied) (
        decode_cached_result done.encoded,
        refl,
        ap PlaceBidResult.duplicate done.decoded,
        twice (again_cached n (ran R s c req).1 done.remembered),
      )
    where
      twice :
          run_again R
              (suc n)
              (script_args req c.now_ms (milliseconds s.idem_ttl))
              (for_auction R s req.auction_id)
            ≡ (some (codes "DUP", encoded), (ran R s c req).1)
          → place_bid R (resent n none) c req s
            ≡ (marked (decode_cached_result encoded), after R s c req Breaker.success)
      twice e = unfold place_bid bytes_eq in rw (r.allowed, e)
