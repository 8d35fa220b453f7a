-- ===== src/Engine/Store/Bids.antt =====
-- `PlaceBid` on a store whose breaker lets the call through.
use auctioneer.Base.{◌≡◌, refl, true, false, [], none, some, ◌++◌, pos, ◌<ℤ◌, ◌<◌, ◌^◌, abs, Lacks}
use auctioneer.Text.{Bytes, codes, bytes_eq}
use auctioneer.Lua.Numbers.{IsExact}
use auctioneer.Engine.Types.{PlaceBidRequest, PlaceBidResult, Error, message, ok, err}
use auctioneer.Engine.Breaker
use auctioneer.Engine.Breaker.{CircuitBreaker}
use auctioneer.Engine.Redis.{Redis}
use auctioneer.Engine.Keys.{idem_key, events_key}
use auctioneer.Engine.Spec
use auctioneer.Engine.Spec.{Auction, IsPlain, Verdict, accepted, is_accepted}
use auctioneer.Engine.Codec.{decode_cached_result}
use auctioneer.Engine.Script
use auctioneer.Engine.Script.{script_args, run}
use auctioneer.Engine.Script.Represents.{Holds}
use auctioneer.Engine.Script.Refinement.{Settled, Picked, run-Settled, answer, event, events_of}
use auctioneer.Engine.Store.{
  RedisStore, delivered, reply_lost, Clock, for_auction, with_db, place_bid, milliseconds,
}
use auctioneer.Engine.Store.Shards.{for_auction-with_db}

-- What a bid meets: a breaker that lets it through, the auction that the hash holds, numbers of at
-- most 14 digits and names without a bar, a time to live of a millisecond or more, and a bid id
-- that is not remembered.
pub record IsReady (R : Redis) (s : RedisStore R) (c : Clock) (req : PlaceBidRequest) (a : Auction)
    : Type 0 where
  pub allowed : (Breaker.allow c.at_allow s.breaker).1 ≡ true
  pub holds : Holds R (for_auction R s req.auction_id) req.auction_id a
  pub plain : IsPlain a
  pub amount : IsExact req.amount_cents
  pub now : IsExact c.now_ms
  pub user : Lacks b'|' req.user_id
  pub winner : Lacks b'|' a.winner
  pub ttl_pos : pos 0 <ℤ milliseconds s.idem_ttl
  pub ttl_fits : abs (milliseconds s.idem_ttl) < 2 ^ 53
  pub new : R.hget (for_auction R s req.auction_id) (idem_key req.auction_id) req.bid_id ≡ none

-- What a bid leaves behind: the auction of the specification, the remembered answer and its event.
pub record Applied (R : Redis) (s : RedisStore R) (c : Clock) (req : PlaceBidRequest) (a : Auction)
    (result : PlaceBidResult) (s' : RedisStore R) : Type 0 where
  pub event_id : Bytes
  pub result_is :
      result
      ≡ answer
          (Spec.judge a req.amount_cents c.now_ms)
          (Spec.place a req.user_id req.amount_cents c.now_ms)
          event_id
          c.now_ms
  pub encoded : Bytes
  pub remembered :
      R.hget (for_auction R s' req.auction_id) (idem_key req.auction_id) req.bid_id ≡ some encoded
  pub decoded : decode_cached_result encoded ≡ result
  pub state :
      Holds R
        (for_auction R s' req.auction_id)
        req.auction_id
        (Spec.place a req.user_id req.amount_cents c.now_ms)
  pub events :
      R.stream (for_auction R s' req.auction_id) (events_key req.auction_id)
      ≡ R.stream (for_auction R s req.auction_id) (events_key req.auction_id)
        ++ events_of
            (Spec.judge a req.amount_cents c.now_ms)
            event_id
            (event req (Spec.place a req.user_id req.amount_cents c.now_ms) c.now_ms)
  pub picked :
      Spec.judge a req.amount_cents c.now_ms ≡ accepted
      → Picked R (for_auction R s req.auction_id) (events_key req.auction_id) event_id
  pub no_event : is_accepted (Spec.judge a req.amount_cents c.now_ms) ≡ false → event_id ≡ []

module _ (R : Redis) (s : RedisStore R) (c : Clock) (req : PlaceBidRequest) where
  -- The run of the script that the call makes.
  abbrev pub ran : Script.Outcome R
  ran = run R (script_args req c.now_ms (milliseconds s.idem_ttl)) (for_auction R s req.auction_id)

  -- The store behind that run, with the breaker that `allow` and the reply leave.
  abbrev pub after : (CircuitBreaker → CircuitBreaker) → RedisStore R
  after f = record (with_db R s req.auction_id ran.1) {
    breaker = f (Breaker.allow c.at_allow s.breaker).0;
  }

  module _ (allowed : (Breaker.allow c.at_allow s.breaker).1 ≡ true) where
    pub place_bid-ok :
        (encoded : Bytes)
        → ran.0 ≡ some (codes "OK", encoded)
        → place_bid R delivered c req s ≡ (ok (decode_cached_result encoded), after Breaker.success)
    unfolding place_bid with_db bytes_eq
    place_bid-ok encoded e = rw (allowed, e)

    pub place_bid-dup :
        (encoded : Bytes)
        → ran.0 ≡ some (codes "DUP", encoded)
        → place_bid R delivered c req s
          ≡ (ok (record (decode_cached_result encoded) { duplicate = true }), after Breaker.success)
    unfolding place_bid with_db bytes_eq
    place_bid-dup encoded e = rw (allowed, e)

    pub place_bid-err :
        (encoded : Bytes)
        → ran.0 ≡ some (codes "ERR", encoded)
        → place_bid R delivered c req s
          ≡ (err (message (decode_cached_result encoded).reason), after (λ b. b))
    unfolding place_bid with_db bytes_eq
    place_bid-err encoded e = rw (allowed, e)

    pub place_bid-reply_lost :
        (e : Error) → place_bid R (reply_lost e) c req s ≡ (err e, after (Breaker.fail c.at_fail))
    unfolding place_bid with_db
    place_bid-reply_lost e = rw allowed

module _ (R : Redis) (s : RedisStore R) (c : Clock) (req : PlaceBidRequest) (a : Auction) where
  module _ (r : IsReady R s c req a) where
    pub settled :
        Settled R req c.now_ms
          (for_auction R s req.auction_id)
          a
          (Spec.judge a req.amount_cents c.now_ms)
          (ran R s c req)
    settled =
        run-Settled R req c.now_ms (milliseconds s.idem_ttl) (for_auction R s req.auction_id) a
          r.holds r.plain r.now r.ttl_pos r.ttl_fits r.amount r.winner r.user r.new

    -- What the script has done is what the store holds, whatever becomes of the breaker.
    pub applied :
        (f : CircuitBreaker → CircuitBreaker)
        → Applied R s c req a (decode_cached_result settled.encoded) (after R s c req f)
    unfolding Spec.place
    applied f =
        let at : for_auction R (after R s c req f) req.auction_id ≡ (ran R s c req).1 =
          for_auction-with_db R s req.auction_id (ran R s c req).1 in
        record {
          event_id = settled.event_id;
          result_is = settled.decoded;
          encoded = settled.encoded;
          remembered = rw at settled.remembered;
          decoded = refl;
          state = rw at settled.state;
          events = rw at settled.events;
          picked = settled.picked;
          no_event = settled.no_event;
        }

    -- A bid whose call reaches Redis and whose reply comes back is answered with no error and with
    -- the specification's verdict; the auction, the remembered answer and the event stream are then
    -- those of the specification, and the event of an accepted bid has an id that Redis picked.
    -- The conditions (`IsReady`): the breaker lets the call through, the
    -- hash holds the auction, the bid's id is not remembered, price, version, amount and time have at
    -- most 14 digits, the end of the auction and the time to live of an answer fit a double, that
    -- time is a millisecond or more, and the names of the bidder and of the winner so far hold no
    -- bar.
    pub place_bid-refines :
        (result : PlaceBidResult) × ((place_bid R delivered c req s).0 ≡ ok result)
        × Applied R s c req a result (place_bid R delivered c req s).1
    place_bid-refines =
        rw (place_bid-ok R s c req r.allowed settled.encoded settled.replied)
          (decode_cached_result settled.encoded, refl, applied Breaker.success)
