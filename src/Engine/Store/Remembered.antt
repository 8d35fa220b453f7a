-- ===== src/Engine/Store/Remembered.antt =====
-- A remembered answer in the Redis store, through any calls of PlaceBid.
use auctioneer.Base.{
  ℕ, zero, suc, ◌<◌, ◌^◌, ◌≡◌, ◌∙◌, sym, ap, Bool, true, ◌&&◌, Bool-cases, inl, inr, some, List, [],
  ◌∷◌, arith, ℤ, pos, abs, ◌<ℤ◌,
}
use auctioneer.Lua.Numbers.{tonumber-print_int}
use auctioneer.Text.{Bytes, bytes_eq, bytes_eq_iff}
use auctioneer.Engine.Types.{PlaceBidRequest}
use auctioneer.Engine.Breaker
use auctioneer.Engine.Breaker.{CircuitBreaker}
use auctioneer.Engine.Redis.{Redis}
use auctioneer.Engine.Keys.{idem_key}
use auctioneer.Engine.Script.{script_args, run}
use auctioneer.Engine.Keys.Distinct.{idem_key-eq, state_key-ne-idem_key}
use auctioneer.Engine.Script.Frame.{hget-run}
use auctioneer.Engine.Store.{
  RedisStore, Link, delivered, request_lost, reply_lost, resent, Clock, for_auction, with_db,
  run_again, run_script, place_bid, milliseconds,
}
use auctioneer.Engine.Store.Others.{interpret_rule}
use auctioneer.Engine.Store.Shards.{with_db_rule}

-- A call of PlaceBid, with what becomes of it.
pub record Attempt : Type 0 where
  pub link : Link
  pub clock : Clock
  pub req : PlaceBidRequest

-- Calls of PlaceBid one after the other, of any auctions.
unfoldable pub attempts : (R : Redis) → List Attempt → RedisStore R → RedisStore R
attempts R [] s = s
attempts R (x ∷ xs) s = attempts R xs (place_bid R x.link x.clock x.req s).1

both : (x y : Bool) → x && y ≡ true → (x ≡ true) × (y ≡ true)
both x y h = ground arith

module _ (R : Redis) (ttl : ℤ) (ttl_pos : pos 0 <ℤ ttl) (ttl_fits : abs ttl < 2 ^ 53)
    (id bid encoded : Bytes) where
  -- A run of the script leaves a remembered answer as it is, also that for the bid that it is run for.
  run_kept :
      (req : PlaceBidRequest) (now : ℤ) (db : R.Db)
      → R.hget db (idem_key id) bid ≡ some encoded
      → R.hget (run R (script_args req now ttl) db).1 (idem_key id) bid ≡ some encoded
  unfolding script_args run
  run_kept req now db e =
      elim (Bool-cases (bytes_eq req.auction_id id && bytes_eq req.bid_id bid)) [
        | inl same ↦
            (let (here, it) = both _ _ same in
              let cached : R.hget db (idem_key req.auction_id) req.bid_id ≡ some encoded =
                ap (λ k. R.hget db (idem_key k) req.bid_id) ((bytes_eq_iff _ _).0 here)
                ∙ ap (R.hget db (idem_key id)) ((bytes_eq_iff _ _).0 it)
                ∙ e in
              rw (run, cached) e)
        | inr apart ↦
            hget-run R (script_args req now ttl) ttl (tonumber-print_int ttl ttl_fits) ttl_pos
              (idem_key id) bid (state_key-ne-idem_key req.auction_id id)
              (rw (idem_key-eq req.auction_id id) apart) db
            ∙ e
      ]

  -- Nor do the runs after a lost reply.
  again_kept :
      (req : PlaceBidRequest) (now : ℤ) (n : ℕ) (db : R.Db)
      → R.hget db (idem_key id) bid ≡ some encoded
      → R.hget (run_again R n (script_args req now ttl) db).1 (idem_key id) bid ≡ some encoded
  unfolding run_again
  again_kept req now zero db e = run_kept req now db e
  again_kept req now (suc n) db e =
      again_kept req now n (run R (script_args req now ttl) db).1 (run_kept req now db e)

  abbrev pub Remembers : RedisStore R → Type 0
  Remembers s =
      (milliseconds s.idem_ttl ≡ ttl)
      × (R.hget (for_auction R s id) (idem_key id) bid ≡ some encoded)

  written_back :
      (c : Clock) (req : PlaceBidRequest) (n : ℕ) (s : RedisStore R)
      → Remembers s
      → Remembers (
          with_db R s req.auction_id
            (run_again R n
              (script_args req c.now_ms (milliseconds s.idem_ttl))
              (for_auction R s req.auction_id)).1)
  written_back c req n s (same, e) = (
    unfold with_db in same,
    with_db_rule R s req.auction_id id _ (λ db. R.hget db (idem_key id) bid ≡ some encoded)
        (λ shared. rw same (
          again_kept req c.now_ms n (for_auction R s req.auction_id)
            (ap (λ i. R.hget (s.dbs i) (idem_key id) bid) (sym shared) ∙ e)))
        e,
  )

  sent_kept :
      (l : Link) (c : Clock) (req : PlaceBidRequest) (s : RedisStore R)
      → Remembers s
      → Remembers
          (run_script R l (script_args req c.now_ms (milliseconds s.idem_ttl)) req.auction_id s).1
  unfolding run_script
  sent_kept delivered c req s h = unfold run_again in written_back c req zero s h
  sent_kept (request_lost e) c req s h = h
  sent_kept (reply_lost e) c req s h = unfold run_again in written_back c req zero s h
  sent_kept (resent n failure) c req s h = written_back c req (suc n) s h

  -- A remembered answer stays, whatever call of PlaceBid comes and whatever becomes of it.
  place_bid_kept :
      (l : Link) (c : Clock) (req : PlaceBidRequest) (s : RedisStore R)
      → Remembers s
      → Remembers (place_bid R l c req s).1
  unfolding place_bid
  place_bid_kept l c req s h = elim (Bool-cases (Breaker.allow c.at_allow s.breaker).1) [
    | inl allowed ↦ rw allowed (
        interpret_rule R _ c _ Remembers (λ b.
          sent_kept l c req (record s { breaker = (Breaker.allow c.at_allow s.breaker).0 }) h))
    | inr refused ↦ rw refused h
  ]

  pub attempts_kept :
      (xs : List Attempt) (s : RedisStore R) → Remembers s → Remembers (attempts R xs s)
  unfolding attempts
  attempts_kept [] s h = h
  attempts_kept (x ∷ xs) s h =
      attempts_kept xs (place_bid R x.link x.clock x.req s).1
        (place_bid_kept x.link x.clock x.req s h)
