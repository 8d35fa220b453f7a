-- ===== src/Engine/Store/Tests.antt =====
-- A store on the running Redis of Redis/Simple, with an auction and some bids, and the theorems
-- about the store at these.
use auctioneer.Base.{◌≡◌, refl, true, false, none, some, List, [], ◌∷◌, arith, ℤ, pos, All}
use auctioneer.Base.{map, wrap32, ◌+ℤ◌}
use auctioneer.Text.{Bytes, codes, bytes_eq}
use auctioneer.Engine.Types.{
  PlaceBidResult, CreateAuctionRequest, deadline_exceeded, message, ok, err,
}
use auctioneer.Engine.Breaker
use auctioneer.Engine.Breaker.{CircuitBreaker}
use auctioneer.Engine.Breaker.Behaviour.{allow-closed}
use auctioneer.Engine.Redis.Simple
use auctioneer.Engine.Redis.Simple.{simple}
use auctioneer.Engine.Keys.{idem_key, events_key}
use auctioneer.Engine.Spec.{Auction}
use auctioneer.Engine.Spec.Play.{IsHighest}
use auctioneer.Engine.Script.Represents.{Holds}
use auctioneer.Engine.Store.{
  RedisStore, delivered, reply_lost, resent, run_script, Clock, for_auction, create_auction,
  place_bid, unix_milli, milliseconds, new_redis_store,
}
use auctioneer.Engine.Store.Bids.{IsReady, Applied, settled, place_bid-ok, place_bid-refines}
use auctioneer.Engine.Store.Create.{created, create_auction-resets}
use auctioneer.Engine.Store.Expiry.{expire, IsRefused, expired-IsRefused}
use auctioneer.Engine.Store.Failures.{place_bid-not_found}
use auctioneer.Engine.Store.Others.{SameAuction, place_bid-other_auction}
use auctioneer.Engine.Store.Retries.{
  marked, IsRepeated, place_bid-again, reply_lost-again, resent-once,
}
use auctioneer.Engine.Store.Remembered.{Attempt, attempts}
use auctioneer.Engine.Store.History.{
  Call, request, offer, IsPlainCall, IsWaiting, HasDistinctIds, serve, ready, serve-IsHighest,
}

abbrev pub id : Bytes
id = codes "a1"

abbrev blank : RedisStore simple
blank = record {
  client_count = 1;
  dbs = λ i. Simple.empty;
  idem_ttl = pos 600000000000;
  breaker = record {
    failure_threshold = pos 3;
    open_for_ns = pos 1000000000;
    consecutive_fails = pos 0;
    open_until_ns = pos 0;
  };
}

blank_is_new :
    new_redis_store simple 1 (λ i. Simple.empty) (pos 600000000000) (pos 3) (pos 1000000000) ≡ blank
unfolding new_redis_store Breaker.new_circuit_breaker wrap32
blank_is_new = refl

abbrev opening : CreateAuctionRequest
opening = record {
  auction_id = id;
  opening_price_cents = pos 100;
  end_at = some (pos 5000000000000);
}

abbrev pub store : RedisStore simple
store = (create_auction simple delivered opening blank).1

abbrev pub auction : Auction
auction = created opening

abbrev at : ℤ → Clock
at now_ms = record { at_allow = pos 1000; now_ms = now_ms; at_fail = pos 2000 }

abbrev bids : List Call
bids =
    record {
      clock = at (pos 4000000);
      bid_id = codes "b1";
      user_id = codes "u1";
      amount_cents = pos 150;
    }
    ∷ record {
      clock = at (pos 4000001);
      bid_id = codes "b2";
      user_id = codes "u2";
      amount_cents = pos 90;
    }
    ∷ record {
      clock = at (pos 4000002);
      bid_id = codes "b3";
      user_id = codes "u3";
      amount_cents = pos 175;
    }
    ∷ []

distinct : HasDistinctIds bids
unfolding bytes_eq
distinct = ((refl, (refl, tt)), ((refl, tt), (tt, tt)))

plain : All IsPlainCall bids
plain = omega arith

create_auction-resets_example :
    ((create_auction simple delivered opening blank).0 ≡ none)
    × Holds simple (for_auction simple store id) id auction
    × ((bid_id : Bytes)
        → (for_auction simple store id).hashes (idem_key id) bid_id
          ≡ (for_auction simple blank id).hashes (idem_key id) bid_id)
    × ((for_auction simple store id).streams (events_key id)
        ≡ (for_auction simple blank id).streams (events_key id))
create_auction-resets_example = create_auction-resets simple blank opening

end_value : unix_milli opening.end_at ≡ pos 5000000
unfolding unix_milli
end_value = refl

unseen : (bid_id : Bytes) → (for_auction simple store id).hashes (idem_key id) bid_id ≡ none
unseen bid_id = (create_auction-resets simple blank opening).2 bid_id

pub waiting : IsWaiting simple id store auction bids
unfolding create_auction unix_milli milliseconds
waiting = record {
  closed = refl;
  holds = (create_auction-resets simple blank opening).1;
  end_at = omega arith;
  price = omega arith;
  versions = omega arith;
  winner = tt;
  ttl_pos = omega arith;
  ttl_fits = omega arith;
  new = (unseen (codes "b1"), (unseen (codes "b2"), (unseen (codes "b3"), tt)));
}

serve-IsHighest_example :
    (b : Auction) × Holds simple (for_auction simple (serve simple id bids store) id) id b
    × IsHighest auction (map offer bids) b
    × (b.is_open ≡ true)
unfolding unix_milli
serve-IsHighest_example =
    serve-IsHighest simple id store auction bids distinct plain waiting refl (omega arith)

expired-IsRefused_example :
    All (IsRefused simple id (expire simple id (serve simple id bids store))) bids
expired-IsRefused_example =
    expired-IsRefused simple id store auction bids distinct plain waiting (omega arith)

abbrev pub first : Call
first = record {
  clock = at (pos 4000000);
  bid_id = codes "b1";
  user_id = codes "u1";
  amount_cents = pos 150;
}

pub first_ready : IsReady simple store first.clock (request id first) auction
first_ready = ready simple id store auction first _ plain.0 waiting

place_bid-refines_example :
    (result : PlaceBidResult) × ((place_bid simple delivered first.clock (request id first) store).0
      ≡ ok result)
    × Applied simple store first.clock
        (request id first)
        auction
        result
        (place_bid simple delivered first.clock (request id first) store).1
place_bid-refines_example =
    place_bid-refines simple store first.clock (request id first) auction first_ready

abbrev later : Clock
later = at (pos 4000500)

-- A higher bid of another bidder, of which the reply is lost.
abbrev between : List Attempt
between =
    record {
      link = reply_lost deadline_exceeded;
      clock = at (pos 4000100);
      req = record {
        auction_id = id;
        bid_id = codes "b3";
        user_id = codes "u3";
        amount_cents = pos 175;
      };
    }
    ∷ []

abbrev since : RedisStore simple
since = attempts simple between (place_bid simple delivered first.clock (request id first) store).1

allowed_since : (Breaker.allow later.at_allow since.breaker).1 ≡ true
unfolding attempts place_bid Breaker.allow Breaker.success Breaker.fail wrap32 ◌+ℤ◌ create_auction
    run_script
allowed_since =
    let done = settled simple store first.clock (request id first) auction first_ready in
    rw
      (place_bid-ok simple store first.clock (request id first) first_ready.allowed done.encoded
        done.replied)
      refl

place_bid-again_example :
    (result : PlaceBidResult) × ((place_bid simple delivered first.clock (request id first) store).0
      ≡ ok result)
    × (result.duplicate ≡ false)
    × IsRepeated simple store first.clock (request id first) auction first_ready later result since
place_bid-again_example =
    place_bid-again simple store first.clock (request id first) auction first_ready between later
      allowed_since

abbrev after_loss : RedisStore simple
after_loss =
    attempts simple between
      (place_bid simple (reply_lost deadline_exceeded) first.clock (request id first) store).1

allowed_after_loss : (Breaker.allow later.at_allow after_loss.breaker).1 ≡ true
unfolding attempts place_bid Breaker.allow Breaker.success Breaker.fail wrap32 ◌+ℤ◌ create_auction
    run_script
allowed_after_loss = refl

reply_lost-again_example :
    (result : PlaceBidResult) × Applied simple store first.clock
      (request id first)
      auction
      result
      (place_bid simple (reply_lost deadline_exceeded) first.clock (request id first) store).1
    × IsRepeated simple store first.clock
        (request id first)
        auction
        first_ready
        later
        result
        after_loss
reply_lost-again_example =
    reply_lost-again simple store first.clock (request id first) auction first_ready
      deadline_exceeded between later allowed_after_loss

resent-once_example :
    (result : PlaceBidResult) × ((place_bid simple delivered first.clock (request id first) store).0
      ≡ ok result)
    × (result.duplicate ≡ false)
    × (place_bid simple (resent 0 none) first.clock (request id first) store
        ≡ (marked result, (place_bid simple delivered first.clock (request id first) store).1))
resent-once_example = resent-once simple store first.clock (request id first) auction first_ready 0

place_bid-not_found_example :
    ((place_bid simple delivered later (request id first) blank).0
      ≡ err (message (codes "auction_not_found")))
    × (for_auction simple (place_bid simple delivered later (request id first) blank).1 id
        ≡ for_auction simple blank id)
    × ((place_bid simple delivered later (request id first) blank).1.breaker
        ≡ (Breaker.allow later.at_allow blank.breaker).0)
place_bid-not_found_example =
    place_bid-not_found simple blank later (request id first)
      (allow-closed later.at_allow blank.breaker refl) (omega arith) refl refl

place_bid-other_auction_example :
    SameAuction simple (codes "a2") (for_auction simple store (codes "a2")) (
      for_auction simple (place_bid simple delivered later (request id first) store).1 (codes "a2"))
unfolding bytes_eq create_auction
place_bid-other_auction_example =
    place_bid-other_auction simple store later (request id first) waiting.ttl_pos waiting.ttl_fits
      delivered (codes "a2") refl
