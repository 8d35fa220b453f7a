-- ===== src/Engine/Script.antt =====
-- `bidScript` of internal/engine/redis_store.go: the Lua script that Redis runs for every bid, in
-- one atomic step.
pub mod Represents
pub mod Branches
pub mod Refinement
pub mod Frame
use auctioneer.Base.{
  ℕ, ◌++◌, ◌∷◌, [], Bool, true, false, not, Option, none, some, if◌then◌else◌, ℤ, pos, leb_ℤ, ◌+ℤ◌,
}
use auctioneer.Text.{Bytes, codes, bytes_eq}
use auctioneer.Lua.{tostring, tonumber, to_double}
use auctioneer.Text.Decimal.{print_int}
use auctioneer.Engine.Types.{PlaceBidRequest}
use auctioneer.Engine.Keys
use auctioneer.Engine.Redis.{Redis}

-- KEYS[1..3] and ARGV[1..6].
pub record Args : Type 0 where
  pub state_key : Bytes
  pub idem_key : Bytes
  pub events_key : Bytes
  pub bid_id : Bytes
  pub user_id : Bytes
  pub amount : Bytes
  pub now_ms : Bytes
  pub idem_ttl : Bytes
  pub auction_id : Bytes

-- The keys and arguments as `RedisStore.PlaceBid` passes them: go-redis writes numbers in decimal.
unfoldable pub script_args : PlaceBidRequest → ℤ → ℤ → Args
script_args req now_ms idem_ttl_ms = record {
  state_key = Keys.state_key req.auction_id;
  idem_key = Keys.idem_key req.auction_id;
  events_key = Keys.events_key req.auction_id;
  bid_id = req.bid_id;
  user_id = req.user_id;
  amount = print_int req.amount_cents;
  now_ms = print_int now_ms;
  idem_ttl = print_int idem_ttl_ms;
  auction_id = req.auction_id;
}

-- The numbers that `encode` is given: `none` is nil.
unfoldable pub encode : Bytes → Bytes → Option ℤ → Bytes → Option ℤ → Bytes → Option ℤ → Bytes
encode accepted reason price winner version event_id now_ms =
    accepted
    ++ b'|'
      ∷ (reason
          ++ b'|'
            ∷ (tostring price
                ++ b'|'
                  ∷ (winner
                      ++ b'|' ∷ (tostring version ++ b'|' ∷ (event_id ++ b'|' ∷ tostring now_ms)))))

-- `a <= b`; comparing with nil raises an error, which is `none`.
abbrev pub number_le : Option ℤ → Option ℤ → Option Bool
number_le (some a) (some b) = some (leb_ℤ a b)
number_le (some a) none = none
number_le none b = none

-- A branch on a comparison: where it raises an error, where it holds, and where it does not.
abbrev pub on_test {ℓ} : {A : Type ℓ} → Option Bool → A → A → A → A
on_test none error yes_case no_case = error
on_test (some true) error yes_case no_case = yes_case
on_test (some false) error yes_case no_case = no_case

-- `x or d` where `x` is what HMGET gave.
abbrev pub or_else : Option Bytes → Bytes → Bytes
or_else none d = d
or_else (some x) d = x

module _ (R : Redis) where
  open R use {Db, hget, hset, pexpire, xadd, xadd_id}

  -- What the script returns, `none` for a raised error, and the database behind it. An error does
  -- not undo the writes before it.
  abbrev pub Outcome : Type 0
  Outcome = Option (Bytes × Bytes) × Db

  -- `cache(encoded)` and `return {"OK", encoded}`.
  pub finish : Args → Bytes → Db → Outcome
  finish a encoded db =
      let db' = hset db a.idem_key ((a.bid_id, encoded) ∷ []) in
      elim (tonumber a.idem_ttl) [
        | none ↦ (none, db')
        | some ttl ↦ (some (codes "OK", encoded), pexpire db' a.idem_key ttl)
      ]

  -- From `version = version + 1` to the end.
  pub accept : Args → Option ℤ → Option ℤ → Option ℤ → Db → Outcome
  accept a amount now_ms none db = (none, db)
  accept a amount now_ms (some v) db =
      let version = some (to_double (v +ℤ pos 1)) in
      let db' = hset db a.state_key (
        (codes "current_price", tostring amount)
        ∷ (codes "winner_user_id", a.user_id)
        ∷ (codes "version", tostring version)
        ∷ []) in
      let event_id = xadd_id db' a.events_key in
      let db'' = xadd db' a.events_key (
        (codes "auction_id", a.auction_id)
        ∷ (codes "bid_id", a.bid_id)
        ∷ (codes "user_id", a.user_id)
        ∷ (codes "amount", tostring amount)
        ∷ (codes "version", tostring version)
        ∷ (codes "server_ts", tostring now_ms)
        ∷ []) in
      finish a (encode (codes "1") (codes "accepted") amount a.user_id version event_id now_ms) db''

  -- The tests on the fields of an auction that exists, on the script's local variables.
  pub judge :
      Args → Option ℤ → Option ℤ → Bytes → Option ℤ → Option ℤ → Bytes → Option ℤ → Db → Outcome
  judge a amount now_ms status end_at current_price winner version db =
      let refuse =
        λ (reason : Bytes). encode (codes "0") reason current_price winner version [] now_ms in
      if not (bytes_eq status (codes "open"))
      then finish a (refuse (codes "auction_closed")) db
      else on_test (number_le end_at now_ms) (none, db)
          (finish a (refuse (codes "auction_ended"))
            (hset db a.state_key ((codes "status", codes "closed") ∷ [])))
          (on_test (number_le amount current_price) (none, db)
            (finish a (refuse (codes "bid_too_low")) db) (accept a amount now_ms version db))

  -- The script behind the look into the idempotency cache.
  pub fresh : Args → Option ℤ → Option ℤ → Db → Outcome
  fresh a amount now_ms db = elim (hget db a.state_key (codes "status")) [
    | none ↦ (
      some (
        codes "ERR",
        encode (codes "0") (codes "auction_not_found") (some (pos 0)) [] (some (pos 0)) [] now_ms,
      ),
      db,
    )
    | some status ↦
        judge a amount now_ms status
          (tonumber (or_else (hget db a.state_key (codes "end_at")) (codes "0")))
          (tonumber (or_else (hget db a.state_key (codes "current_price")) (codes "0")))
          (or_else (hget db a.state_key (codes "winner_user_id")) [])
          (tonumber (or_else (hget db a.state_key (codes "version")) (codes "0"))) db
  ]

  unfoldable pub run : Args → Db → Outcome
  unfolding fresh
  run a db = elim (hget db a.idem_key a.bid_id) [
    | some cached ↦ (some (codes "DUP", cached), db)
    | none ↦ fresh a (tonumber a.amount) (tonumber a.now_ms) db
  ]
