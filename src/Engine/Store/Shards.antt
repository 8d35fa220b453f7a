-- ===== src/Engine/Store/Shards.antt =====
-- The databases of the clients: a write for one auction is read back for it.
use auctioneer.Base.{◌≡◌, refl, ==_iff, ◌==◌, Bool-cases, inl, inr}
use auctioneer.Text.{Bytes}
use auctioneer.Engine.Redis.{Redis}
use auctioneer.Engine.Router.{shard}
use auctioneer.Engine.Store.{RedisStore, for_auction, with_db}

pub for_auction-with_db :
    (R : Redis) (s : RedisStore R) (id : Bytes) (db : R.Db)
    → for_auction R (with_db R s id db) id ≡ db
unfolding with_db
for_auction-with_db R s id db =
    rw ((==_iff (shard s.client_count id) (shard s.client_count id)).1 refl)

-- What holds of an auction's database before a write for another one, and of the written database
-- where the two share it, holds afterwards.
pub with_db_rule :
    (R : Redis) (s : RedisStore R) (id other : Bytes) (db : R.Db) (P : R.Db → Type 0)
    → (shard s.client_count other ≡ shard s.client_count id → P db)
    → P (for_auction R s other)
    → P (for_auction R (with_db R s id db) other)
unfolding with_db
with_db_rule R s id other db P shared apart =
    elim (Bool-cases (shard s.client_count other == shard s.client_count id)) [
      | inl e ↦ rw e (shared ((==_iff _ _).0 e))
      | inr n ↦ rw n apart
    ]
