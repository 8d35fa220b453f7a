-- ===== src/Engine/Store/Others.antt =====
-- What a bid leaves alone: the other auctions, and the other bids of its own.
use auctioneer.Base.{
  ℕ, zero, suc, ◌≡◌, ◌∙◌, refl, false, some, [], ◌∷◌, arith, ◌<ℤ◌, ◌<◌, ◌^◌, pos, abs, Bool-cases,
  inl, inr,
}
use auctioneer.Text.{Bytes, codes, bytes_eq}
use auctioneer.Lua.{tonumber}
use auctioneer.Lua.Numbers.{tonumber-print_int}
use auctioneer.Engine.Types.{PlaceBidRequest, PlaceBidResult, Result}
use auctioneer.Engine.Breaker
use auctioneer.Engine.Breaker.{CircuitBreaker}
use auctioneer.Engine.Redis.{Redis}
use auctioneer.Engine.Keys.{state_key, idem_key, events_key}
use auctioneer.Engine.Keys.Distinct.{
  state_key-eq, idem_key-eq, events_key-eq, state_key-ne-idem_key, idem_key-ne-state_key,
  idem_key-ne-events_key,
}
use auctioneer.Engine.Script.{script_args, run}
use auctioneer.Engine.Script.Frame.{hget-run, stream-run, if_rule}
use auctioneer.Engine.Store.{
  RedisStore, Link, delivered, request_lost, reply_lost, resent, run_again, Clock, for_auction,
  with_db, run_script, interpret, Reply, failed, values, other as other_reply, place_bid,
  milliseconds,
}
use auctioneer.Engine.Store.Shards.{with_db_rule}
use auctioneer.Engine.Store.Bids.{ran}

-- The data of one auction in a database: its fields, its remembered answers and its events.
pub record SameAuction (R : Redis) (id : Bytes) (db db' : R.Db) : Type 0 where
  pub fields : (f : Bytes) → R.hget db' (state_key id) f ≡ R.hget db (state_key id) f
  pub answers : (f : Bytes) → R.hget db' (idem_key id) f ≡ R.hget db (idem_key id) f
  pub events : R.stream db' (events_key id) ≡ R.stream db (events_key id)

SameAuction-refl : (R : Redis) (id : Bytes) (db : R.Db) → SameAuction R id db db
SameAuction-refl R id db = record { fields = λ f. refl; answers = λ f. refl; events = refl }

-- Reading the reply changes the breaker alone.
pub interpret_rule :
    (R : Redis) (reply : Reply) (c : Clock) (s : RedisStore R) (P : RedisStore R → Type 0)
    → ((b : CircuitBreaker) → P (record s { breaker = b }))
    → P (interpret R reply c s).1
unfolding interpret
interpret_rule R (failed e) c s P h = h _
interpret_rule R other_reply c s P h = h s.breaker
interpret_rule R (values []) c s P h = h s.breaker
interpret_rule R (values (tag ∷ [])) c s P h = h s.breaker
interpret_rule R (values (tag ∷ encoded ∷ rest)) c s P h =
    if_rule Holding (bytes_eq tag (codes "DUP")) (h _) (
      if_rule Holding (bytes_eq tag (codes "ERR")) (h s.breaker)
        (if_rule Holding (bytes_eq tag (codes "OK")) (h _) (h _)))
  where
    Holding : Result PlaceBidResult × RedisStore R → Type 0
    Holding o = P o.1

for_auction-interpret :
    (R : Redis) (reply : Reply) (c : Clock) (s : RedisStore R) (id : Bytes)
    → for_auction R (interpret R reply c s).1 id ≡ for_auction R s id
for_auction-interpret R reply c s id =
    interpret_rule R reply c s (λ t. for_auction R t id ≡ for_auction R s id) (λ b. refl)

module _ (R : Redis) (s : RedisStore R) (c : Clock) (req : PlaceBidRequest)
    (ttl_pos : pos 0 <ℤ milliseconds s.idem_ttl)
    (ttl_fits : abs (milliseconds s.idem_ttl) < 2 ^ 53) where
  ttl_read :
      tonumber (script_args req c.now_ms (milliseconds s.idem_ttl)).idem_ttl
      ≡ some (milliseconds s.idem_ttl)
  unfolding script_args
  ttl_read = tonumber-print_int (milliseconds s.idem_ttl) ttl_fits

  -- The answers that are remembered for other bids of the auction stay.
  pub idem-ran :
      (other : Bytes)
      → bytes_eq req.bid_id other ≡ false
      → R.hget (ran R s c req).1 (idem_key req.auction_id) other
        ≡ R.hget (for_auction R s req.auction_id) (idem_key req.auction_id) other
  unfolding script_args
  idem-ran other ne =
      hget-run R (script_args req c.now_ms (milliseconds s.idem_ttl)) (milliseconds s.idem_ttl)
        ttl_read ttl_pos (idem_key req.auction_id) other
        (state_key-ne-idem_key req.auction_id req.auction_id) (ground arith)
        (for_auction R s req.auction_id)

  ran-other :
      (other : Bytes)
      → bytes_eq req.auction_id other ≡ false
      → (db : R.Db)
      → SameAuction R other db (run R (script_args req c.now_ms (milliseconds s.idem_ttl)) db).1
  ran-other other ne db =
      let args = script_args req c.now_ms (milliseconds s.idem_ttl) in
      unfold script_args in
      record {
        fields = λ f.
            hget-run R args (milliseconds s.idem_ttl) ttl_read ttl_pos (state_key other) f
              (state_key-eq req.auction_id other ∙ ne)
              (ground (arith, idem_key-ne-state_key req.auction_id other)) db;
        answers = λ f.
            hget-run R args (milliseconds s.idem_ttl) ttl_read ttl_pos (idem_key other) f
              (state_key-ne-idem_key req.auction_id other)
              (ground (arith, idem_key-eq req.auction_id other)) db;
        events =
            stream-run R args (milliseconds s.idem_ttl) ttl_read ttl_pos (events_key other)
              (events_key-eq req.auction_id other ∙ ne)
              (idem_key-ne-events_key req.auction_id other) db;
      }

  again-other :
      (other : Bytes)
      → bytes_eq req.auction_id other ≡ false
      → (n : ℕ) (db : R.Db)
      → SameAuction R other db
          (run_again R n (script_args req c.now_ms (milliseconds s.idem_ttl)) db).1
  unfolding run_again
  again-other other ne zero db = ran-other other ne db
  again-other other ne (suc n) db =
      let first = ran-other other ne db in
      let later =
        again-other other ne n (run R (script_args req c.now_ms (milliseconds s.idem_ttl)) db).1 in
      record {
        fields = λ f. later.fields f ∙ first.fields f;
        answers = λ f. later.answers f ∙ first.answers f;
        events = later.events ∙ first.events;
      }

  -- A bid touches no other auction, whatever becomes of the call: what the auction's hash holds, its
  -- remembered answers and its stream stay. (Answers are remembered for a millisecond or more, and
  -- for fewer than 2 ^ 53.)
  pub place_bid-other_auction :
      (link : Link) (other : Bytes)
      → bytes_eq req.auction_id other ≡ false
      → SameAuction R other
          (for_auction R s other)
          (for_auction R (place_bid R link c req s).1 other)
  place_bid-other_auction link other ne = elim (Bool-cases (Breaker.allow c.at_allow s.breaker).1) [
    | inl yes_allowed ↦ unfold place_bid in rw (yes_allowed, for_auction-interpret) (sent link)
    | inr refused ↦
        unfold place_bid in rw refused (SameAuction-refl R other (for_auction R s other))
  ]
    where
      -- The store that `allow` leaves.
      admitted : RedisStore R
      admitted = record s { breaker = (Breaker.allow c.at_allow s.breaker).0 }

      written_back :
          (n : ℕ)
          → (let db : R.Db =
                (run_again R n
                  (script_args req c.now_ms (milliseconds s.idem_ttl))
                  (for_auction R s req.auction_id)).1 in
              SameAuction R other
                (for_auction R s other)
                (for_auction R (with_db R admitted req.auction_id db) other))
      written_back n =
          with_db_rule R admitted req.auction_id other _
            (SameAuction R other (for_auction R s other))
            (λ e. rw (e, for_auction) (again-other other ne n (for_auction R s req.auction_id)))
            (SameAuction-refl R other (for_auction R s other))

      sent :
          (l : Link)
          → SameAuction R other (for_auction R s other) (
              for_auction R
                (run_script R l
                  (script_args req c.now_ms (milliseconds s.idem_ttl))
                  req.auction_id
                  admitted).1
                other)
      sent delivered = unfold run_script run_again in written_back zero
      sent (request_lost e) = unfold run_script in SameAuction-refl R other (for_auction R s other)
      sent (reply_lost e) = unfold run_script run_again in written_back zero
      sent (resent n failure) = unfold run_script in written_back (suc n)
