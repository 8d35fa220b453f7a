-- ===== src/Engine/Script/Represents.antt =====
-- When the hash of an auction holds the auction of the specification, and how the commands at the
-- script's end leave the other keys alone.
use auctioneer.Base.{◌≡◌, Bool, true, false, some, [], ◌∷◌, arith, ℤ, pos, ◌<ℤ◌}
use auctioneer.Text.{Bytes, codes, bytes_eq_refl}
use auctioneer.Text.Decimal.{print_int}
use auctioneer.Engine.Redis.{Redis}
use auctioneer.Engine.Keys.{state_key, idem_key, events_key}
use auctioneer.Engine.Keys.Distinct.{idem_key-ne-state_key, idem_key-ne-events_key}
use auctioneer.Engine.Spec.{Auction}

abbrev pub status_text : Bool → Bytes
status_text true = codes "open"
status_text false = codes "closed"

module _ (R : Redis) where
  open R use {Db, hget, hset, pexpire, xadd, xadd_id, stream}

  pub record Holds (db : Db) (id : Bytes) (a : Auction) : Type 0 where
    pub status : hget db (state_key id) (codes "status") ≡ some (status_text a.is_open)
    pub end_at : hget db (state_key id) (codes "end_at") ≡ some (print_int a.end_at)
    pub price : hget db (state_key id) (codes "current_price") ≡ some (print_int a.price)
    pub winner : hget db (state_key id) (codes "winner_user_id") ≡ some a.winner
    pub version : hget db (state_key id) (codes "version") ≡ some (print_int (pos a.version))

  -- The database behind `cache(encoded)`.
  abbrev pub cached : Db → Bytes → Bytes → Bytes → ℤ → Db
  cached db id bid encoded ttl =
      pexpire (hset db (idem_key id) ((bid, encoded) ∷ [])) (idem_key id) ttl

  pub hget-cached_state :
      (db : Db) (id bid encoded : Bytes) (ttl : ℤ) (other f : Bytes)
      → hget (cached db id bid encoded ttl) (state_key other) f ≡ hget db (state_key other) f
  hget-cached_state db id bid encoded ttl other f =
      rw (
        R.hget-pexpire,
        idem_key-ne-state_key id other,
        R.hget-hset,
        idem_key-ne-state_key id other,
      )

  pub hget-cached_self :
      (db : Db) (id bid encoded : Bytes) (ttl : ℤ)
      → pos 0 <ℤ ttl
      → hget (cached db id bid encoded ttl) (idem_key id) bid ≡ some encoded
  hget-cached_self db id bid encoded ttl h =
      rw (R.hget-pexpire, R.hget-hset, bytes_eq_refl (idem_key id), bytes_eq_refl bid)
        (ground arith)

  pub stream-cached :
      (db : Db) (id bid encoded : Bytes) (ttl : ℤ) (other : Bytes)
      → stream (cached db id bid encoded ttl) (events_key other) ≡ stream db (events_key other)
  stream-cached db id bid encoded ttl other =
      rw (R.stream-pexpire _ (idem_key id) ttl _ (idem_key-ne-events_key id other), R.stream-hset)

  pub Holds-cached :
      {db : Db} {id : Bytes} {a : Auction} (other bid encoded : Bytes) (ttl : ℤ)
      → Holds db id a
      → Holds (cached db other bid encoded ttl) id a
  Holds-cached {db} {id} other bid encoded ttl h = record {
    status = rw (hget-cached_state db other bid encoded ttl id) h.status;
    end_at = rw (hget-cached_state db other bid encoded ttl id) h.end_at;
    price = rw (hget-cached_state db other bid encoded ttl id) h.price;
    winner = rw (hget-cached_state db other bid encoded ttl id) h.winner;
    version = rw (hget-cached_state db other bid encoded ttl id) h.version;
  }
