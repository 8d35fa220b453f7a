-- ===== src/Engine/Script/Branches.antt =====
-- Each branch of the script, on an auction that the state hash holds: what it returns, and the
-- database behind it.
use auctioneer.Base.{
  ◌≡◌, ◌∙◌, true, false, none, some, [], ◌∷◌, arith, ℤ, pos, leb_ℤ, ◌+ℤ◌, ◌<◌, ◌^◌, abs, suc, ◌+◌,
}
use auctioneer.Text.{Bytes, codes, bytes_eq}
use auctioneer.Lua.{tostring, to_double}
use auctioneer.Lua.Numbers.{tonumber-print_int, to_double-exact}
use auctioneer.Engine.Types.{PlaceBidRequest}
use auctioneer.Engine.Redis.{Redis, Fields}
use auctioneer.Engine.Keys.{state_key, idem_key, events_key}
use auctioneer.Engine.Spec.{Auction, IsPlain}
use auctioneer.Engine.Script
use auctioneer.Engine.Script.{
  Args, script_args, encode, number_le, or_else, finish, accept, fresh, run,
}
use auctioneer.Engine.Script.Represents.{Holds, status_text, cached}

module _ (R : Redis) (req : PlaceBidRequest) (now ttl : ℤ) where
  open R use {Db, hget, hset, pexpire, xadd, xadd_id, stream}

  pub finish_lem :
      (db : Db) (encoded : Bytes)
      → abs ttl < 2 ^ 53
      → finish R (script_args req now ttl) encoded db
        ≡ (some (codes "OK", encoded), cached R db req.auction_id req.bid_id encoded ttl)
  unfolding finish script_args
  finish_lem db encoded h = rw (tonumber-print_int ttl h, finish)

  -- The text that refuses a bid.
  abbrev pub refusal : Auction → Bytes → Bytes
  refusal a reason =
      encode (codes "0") reason (some a.price) a.winner (some (pos a.version)) [] (some now)

  module _ (db : Db) (a : Auction) where
    -- `judge` at the numbers of the auction.
    abbrev pub judged : Script.Outcome R
    judged =
        Script.judge R (script_args req now ttl) (some req.amount_cents) (some now)
          (status_text a.is_open) (some a.end_at) (some a.price) a.winner (some (pos a.version)) db

    -- The database behind the HSET of an accepted bid, and the one behind its XADD.
    abbrev pub raised : Db
    raised = hset db (state_key req.auction_id) (
        (codes "current_price", tostring (some req.amount_cents))
        ∷ (codes "winner_user_id", req.user_id)
        ∷ (codes "version", tostring (some (pos (suc a.version))))
        ∷ [])

    abbrev pub event_fields : Fields
    event_fields =
        (codes "auction_id", req.auction_id)
        ∷ (codes "bid_id", req.bid_id)
        ∷ (codes "user_id", req.user_id)
        ∷ (codes "amount", tostring (some req.amount_cents))
        ∷ (codes "version", tostring (some (pos (suc a.version))))
        ∷ (codes "server_ts", tostring (some now))
        ∷ []

    abbrev pub announced : Db
    announced = xadd raised (events_key req.auction_id) event_fields

    abbrev pub acceptance : Bytes
    acceptance =
        encode (codes "1") (codes "accepted") (some req.amount_cents) req.user_id
          (some (pos (suc a.version))) (xadd_id raised (events_key req.auction_id)) (some now)

    module _ (ttl_fits : abs ttl < 2 ^ 53) where
      pub judged-closed :
          a.is_open ≡ false
          → judged ≡ (
            some (codes "OK", refusal a (codes "auction_closed")),
            cached R db req.auction_id req.bid_id (refusal a (codes "auction_closed")) ttl,
          )
      unfolding Script.judge script_args bytes_eq
      judged-closed e = rw (e, finish_lem db _ ttl_fits)

      pub judged-ended :
          a.is_open ≡ true
          → leb_ℤ a.end_at now ≡ true
          → judged ≡ (
            some (codes "OK", refusal a (codes "auction_ended")),
            cached R
                (hset db (state_key req.auction_id) ((codes "status", codes "closed") ∷ []))
                req.auction_id
                req.bid_id
                (refusal a (codes "auction_ended"))
                ttl,
          )
      unfolding Script.judge script_args bytes_eq
      judged-ended e past = rw (e, past, finish_lem _ _ ttl_fits)

      pub judged-too_low :
          a.is_open ≡ true
          → leb_ℤ a.end_at now ≡ false
          → leb_ℤ req.amount_cents a.price ≡ true
          → judged ≡ (
            some (codes "OK", refusal a (codes "bid_too_low")),
            cached R db req.auction_id req.bid_id (refusal a (codes "bid_too_low")) ttl,
          )
      unfolding Script.judge script_args bytes_eq
      judged-too_low e running low = rw (e, running, low, finish_lem db _ ttl_fits)

      -- Lua's `version + 1`.
      next_version :
          a.version + 1 < 2 ^ 53 → to_double (pos a.version +ℤ pos 1) ≡ pos (suc a.version)
      next_version h =
          to_double-exact (pos a.version +ℤ pos 1) (unfold ◌+ℤ◌ in ground arith)
          ∙ (unfold ◌+ℤ◌ in ground arith)

      pub judged-accepted :
          a.is_open ≡ true
          → leb_ℤ a.end_at now ≡ false
          → leb_ℤ req.amount_cents a.price ≡ false
          → a.version + 1 < 2 ^ 53
          → judged ≡ (
            some (codes "OK", acceptance),
            cached R announced req.auction_id req.bid_id acceptance ttl,
          )
      unfolding Script.judge script_args bytes_eq accept
      judged-accepted e running high fits =
          rw (e, running, high, next_version fits, finish_lem _ _ ttl_fits)

      -- A bid whose id is not in the cache is judged by the auction's fields.
      pub run-judged :
          Holds R db req.auction_id a
          → IsPlain a
          → abs now < 2 ^ 53
          → abs req.amount_cents < 2 ^ 53
          → hget db (idem_key req.auction_id) req.bid_id ≡ none
          → run R (script_args req now ttl) db ≡ judged
      unfolding script_args fresh run
      run-judged h plain now_fits amount_fits new = rw (
        run,
        fresh,
        new,
        h.status,
        h.end_at,
        tonumber-print_int a.end_at plain.end_at,
        h.price,
        tonumber-print_int a.price (omega (arith, plain.price)),
        h.winner,
        h.version,
        tonumber-print_int (pos a.version) (omega (arith, plain.version)),
        tonumber-print_int now now_fits,
        tonumber-print_int req.amount_cents amount_fits,
      )
