-- ===== src/Engine/Store.antt =====
-- `RedisStore` of internal/engine/redis_store.go. The state is the breaker and, for every client of
-- the router, the database of its server. What the network does to a call is an argument.
pub mod Shards
pub mod Bids
pub mod Remembered
pub mod Retries
pub mod Failures
pub mod Create
pub mod Others
pub mod History
pub mod Announced
pub mod Expiry
pub mod Tests
use auctioneer.Base.{
  ℕ, zero, suc, ◌+◌, ◌/◌, ◌≡◌, ◌==◌, Bool, true, false, if◌then◌else◌, Option, none, some, List, [],
  ◌∷◌, ◌++◌, ℤ, pos, negsuc,
}
use auctioneer.Text.{Bytes, codes, bytes_eq}
use auctioneer.Text.Decimal.{print_int}
use auctioneer.Text.Parse.{negate}
use auctioneer.Engine.Types.{
  PlaceBidRequest, PlaceBidResult, CreateAuctionRequest, Error, redis_breaker_open, message,
  from_redis, Result, ok, err,
}
use auctioneer.Engine.Breaker
use auctioneer.Engine.Breaker.{CircuitBreaker, millisecond}
use auctioneer.Engine.Redis.{Redis, Fields}
use auctioneer.Engine.Keys.{state_key}
use auctioneer.Engine.Router.{shard}
use auctioneer.Engine.Script
use auctioneer.Engine.Script.{script_args, run}
use auctioneer.Engine.Codec.{decode_cached_result}

-- How a call to Redis goes: it is answered; or it fails, before Redis has run it or after; or go-redis,
-- which sends a command again by itself when a reply is lost, has it run once and `n + 1` times more,
-- and then gets a reply or fails.
pub data Link : Type 0 where
  delivered : Link
  request_lost : Error → Link
  reply_lost : Error → Link
  resent : ℕ → Option Error → Link

-- The times that PlaceBid reads, in the order of the reads: nanoseconds in `allow`, milliseconds for
-- the script, nanoseconds in `fail`.
pub record Clock : Type 0 where
  pub at_allow : ℤ
  pub now_ms : ℤ
  pub at_fail : ℤ

-- What `script.Run(…).Result()` gives: an error, a table of texts, or some other value.
pub data Reply : Type 0 where
  failed : Error → Reply
  values : List Bytes → Reply
  other : Reply

-- `EndAt.UnixMilli()`, rounding down; the zero `time.Time` is the start of year 1.
unfoldable pub unix_milli : Option ℤ → ℤ
unix_milli none = negate 62135596800000
unix_milli (some (pos n)) = pos (n / millisecond)
unix_milli (some (negsuc n)) = negsuc (n / millisecond)

-- `Duration.Milliseconds()`, rounding towards zero.
unfoldable pub milliseconds : ℤ → ℤ
milliseconds (pos n) = pos (n / millisecond)
milliseconds (negsuc n) = negate ((n + 1) / millisecond)

abbrev pub unexpected : Error
unexpected = message (codes "unexpected script response")

-- The fields that CreateAuction writes, as go-redis formats them.
create_fields : CreateAuctionRequest → Fields
create_fields req =
    (codes "auction_id", req.auction_id)
    ∷ (codes "status", codes "open")
    ∷ (codes "current_price", print_int req.opening_price_cents)
    ∷ (codes "winner_user_id", [])
    ∷ (codes "version", print_int (pos 0))
    ∷ (codes "end_at", print_int (unix_milli req.end_at))
    ∷ []

module _ (R : Redis) where
  open R use {Db, hset}

  -- `client_count` is `len(router.clients)`; `idem_ttl` is in nanoseconds.
  pub record RedisStore : Type 0 where
    pub client_count : ℕ
    pub dbs : ℕ → Db
    pub idem_ttl : ℤ
    pub breaker : CircuitBreaker

  -- The client of an auction, and the store with its database changed.
  abbrev pub for_auction : RedisStore → Bytes → Db
  for_auction s auction_id = s.dbs (shard s.client_count auction_id)

  unfoldable pub with_db : RedisStore → Bytes → Db → RedisStore
  with_db s auction_id db = record s {
    dbs = λ i. if i == shard s.client_count auction_id then db else s.dbs i;
  }

  reply_of : Option (Bytes × Bytes) → Reply
  reply_of none = failed (from_redis R.script_error)
  reply_of (some (tag, encoded)) = values (tag ∷ encoded ∷ [])

  -- The script, run once more for each of `n` further attempts.
  unfoldable pub run_again : ℕ → Script.Args → Db → Script.Outcome R
  run_again zero args db = run R args db
  run_again (suc n) args db = run_again n args (run R args db).1

  unfoldable pub hset_again : ℕ → Bytes → Fields → Db → Db
  hset_again zero key fields db = hset db key fields
  hset_again (suc n) key fields db = hset_again n key fields (hset db key fields)

  -- What the last attempt gives.
  abbrev pub last_reply : Option Error → Reply → Reply
  last_reply none reply = reply
  last_reply (some e) reply = failed e

  -- The script on its way through the network: the reply, and the store behind it.
  unfoldable pub run_script : Link → Script.Args → Bytes → RedisStore → Reply × RedisStore
  unfolding reply_of with_db run_again
  run_script delivered args auction_id s =
      let (out, db) = run R args (for_auction s auction_id) in
      (reply_of out, with_db s auction_id db)
  run_script (request_lost e) args auction_id s = (failed e, s)
  run_script (reply_lost e) args auction_id s =
      let (out, db) = run R args (for_auction s auction_id) in (failed e, with_db s auction_id db)
  run_script (resent n failure) args auction_id s =
      let (out, db) = run_again (suc n) args (for_auction s auction_id) in
      (last_reply failure (reply_of out), with_db s auction_id db)

  -- The switch over the reply's first value.
  classify : Bytes → PlaceBidResult → Clock → RedisStore → Result PlaceBidResult × RedisStore
  classify tag result c s =
      if bytes_eq tag (codes "DUP")
      then (
        ok (record result { duplicate = true }),
        record s { breaker = Breaker.success s.breaker },
      )
      else if bytes_eq tag (codes "ERR")
      then (err (message result.reason), s)
      else if bytes_eq tag (codes "OK")
      then (ok result, record s { breaker = Breaker.success s.breaker })
      else (err unexpected, record s { breaker = Breaker.fail c.at_fail s.breaker })

  unfoldable pub interpret : Reply → Clock → RedisStore → Result PlaceBidResult × RedisStore
  unfolding classify
  interpret (failed e) c s = (err e, record s { breaker = Breaker.fail c.at_fail s.breaker })
  interpret other c s = (err unexpected, s)
  interpret (values []) c s = (err unexpected, s)
  interpret (values (tag ∷ [])) c s = (err unexpected, s)
  interpret (values (tag ∷ encoded ∷ rest)) c s = classify tag (decode_cached_result encoded) c s

  unfoldable pub place_bid :
      Link → Clock → PlaceBidRequest → RedisStore → Result PlaceBidResult × RedisStore
  unfolding run_script interpret
  place_bid link c req s =
      let (breaker, allowed) = Breaker.allow c.at_allow s.breaker in
      let s' = record s { breaker = breaker } in
      let (reply, s'') =
        run_script link (script_args req c.now_ms (milliseconds s.idem_ttl)) req.auction_id s' in
      if allowed then interpret reply c s'' else (err redis_breaker_open, s')

  unfoldable pub create_auction :
      Link → CreateAuctionRequest → RedisStore → Option Error × RedisStore
  unfolding create_fields with_db hset_again
  create_auction delivered req s = (
    none,
    with_db s req.auction_id
        (hset (for_auction s req.auction_id) (state_key req.auction_id) (create_fields req)),
  )
  create_auction (request_lost e) req s = (some e, s)
  create_auction (reply_lost e) req s = (
    some e,
    with_db s req.auction_id
        (hset (for_auction s req.auction_id) (state_key req.auction_id) (create_fields req)),
  )
  create_auction (resent n failure) req s = (
    failure,
    with_db s req.auction_id (
        hset_again (suc n) (state_key req.auction_id) (create_fields req)
          (for_auction s req.auction_id)),
  )

  pub breaker_open : ℤ → RedisStore → Bool
  breaker_open now s = Breaker.is_open now s.breaker

  -- NewRedisStore; the configuration's values that it uses are arguments.
  unfoldable pub new_redis_store : ℕ → (ℕ → Db) → ℤ → ℤ → ℤ → RedisStore
  new_redis_store client_count dbs idem_ttl failure_threshold open_for = record {
    client_count = client_count;
    dbs = dbs;
    idem_ttl = idem_ttl;
    breaker = Breaker.new_circuit_breaker failure_threshold open_for;
  }
