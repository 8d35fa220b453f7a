-- ===== src/Engine/Script/Frame.antt =====
-- What a run of the script leaves alone, whatever the database holds.
use auctioneer.Base.{
  ◌≡◌, ◌∙◌, if◌then◌else◌, refl, Bool, true, false, ◌&&◌, Option, none, some, arith, ℤ, pos, ◌<ℤ◌,
}
use auctioneer.Text.{Bytes, codes, bytes_eq}
use auctioneer.Lua.{tonumber}
use auctioneer.Engine.Redis.{Redis}
use auctioneer.Engine.Script
use auctioneer.Engine.Script.{Args, number_le, on_test, finish, accept, fresh, run}

pub if_rule {ℓ κ} :
    {A : Type ℓ} (P : A → Type κ) (b : Bool) {x y : A} → P x → P y → P (if b then x else y)
if_rule P true px py = px
if_rule P false px py = py

on_test_rule {ℓ κ} :
    {A : Type ℓ} (P : A → Type κ) (o : Option Bool) {x y z : A}
    → P x
    → P y
    → P z
    → P (on_test o x y z)
on_test_rule P none px py pz = px
on_test_rule P (some true) px py pz = py
on_test_rule P (some false) px py pz = pz

module _ (R : Redis) (a : Args) (ttl : ℤ) (ttl_read : tonumber a.idem_ttl ≡ some ttl)
    (ttl_pos : pos 0 <ℤ ttl) where
  module _ (j f : Bytes) (not_state : bytes_eq a.state_key j ≡ false)
      (not_cached : bytes_eq a.idem_key j && bytes_eq a.bid_id f ≡ false) where
    hget-finish :
        (encoded : Bytes) (db : R.Db) → R.hget (finish R a encoded db).1 j f ≡ R.hget db j f
    unfolding finish
    hget-finish encoded db = rw (finish, ttl_read, R.hget-pexpire, R.hget-hset) (ground arith)

    hget-accept :
        (amount now_ms version : Option ℤ) (db : R.Db)
        → R.hget (accept R a amount now_ms version db).1 j f ≡ R.hget db j f
    unfolding accept
    hget-accept amount now_ms none db = refl
    hget-accept amount now_ms (some v) db =
        rw (hget-finish _ _, R.hget-xadd, R.hget-hset, not_state)

    hget-judge :
        (amount now_ms : Option ℤ) (status : Bytes) (end_at price : Option ℤ) (winner : Bytes)
        (version : Option ℤ) (db : R.Db)
        → R.hget (Script.judge R a amount now_ms status end_at price winner version db).1 j f
          ≡ R.hget db j f
    unfolding Script.judge
    hget-judge amount now_ms status end_at price winner version db =
        if_rule Same _ (hget-finish _ db) (
          on_test_rule Same (number_le end_at now_ms) refl
            (hget-finish _ _ ∙ rw (R.hget-hset, not_state))
            (on_test_rule Same (number_le amount price) refl (hget-finish _ db)
              (hget-accept amount now_ms version db)))
      where
        Same : Script.Outcome R → Type 0
        Same out = R.hget out.1 j f ≡ R.hget db j f

    -- A run touches no field but those of its auction and the one under its bid's id.
    pub hget-run : (db : R.Db) → R.hget (run R a db).1 j f ≡ R.hget db j f
    unfolding run fresh
    hget-run db = by_cache (R.hget db a.idem_key a.bid_id) refl
      where
        by_status :
            (o : Option Bytes)
            → R.hget db a.state_key (codes "status") ≡ o
            → R.hget (fresh R a (tonumber a.amount) (tonumber a.now_ms) db).1 j f ≡ R.hget db j f
        by_status none e = rw (fresh, e)
        by_status (some status) e = rw (fresh, e) (hget-judge _ _ status _ _ _ _ db)

        by_cache :
            (o : Option Bytes)
            → R.hget db a.idem_key a.bid_id ≡ o
            → R.hget (run R a db).1 j f ≡ R.hget db j f
        by_cache (some c) e = rw (run, e)
        by_cache none e = rw (run, e) (by_status (R.hget db a.state_key (codes "status")) refl)

  module _ (j : Bytes) (not_events : bytes_eq a.events_key j ≡ false)
      (not_idem : bytes_eq a.idem_key j ≡ false) where
    stream-finish :
        (encoded : Bytes) (db : R.Db) → R.stream (finish R a encoded db).1 j ≡ R.stream db j
    unfolding finish
    stream-finish encoded db =
        rw (finish, ttl_read, R.stream-pexpire _ a.idem_key ttl j not_idem, R.stream-hset)

    stream-accept :
        (amount now_ms version : Option ℤ) (db : R.Db)
        → R.stream (accept R a amount now_ms version db).1 j ≡ R.stream db j
    unfolding accept
    stream-accept amount now_ms none db = refl
    stream-accept amount now_ms (some v) db =
        rw (stream-finish _ _, R.stream-xadd, not_events, R.stream-hset)

    stream-judge :
        (amount now_ms : Option ℤ) (status : Bytes) (end_at price : Option ℤ) (winner : Bytes)
        (version : Option ℤ) (db : R.Db)
        → R.stream (Script.judge R a amount now_ms status end_at price winner version db).1 j
          ≡ R.stream db j
    unfolding Script.judge
    stream-judge amount now_ms status end_at price winner version db =
        if_rule Same _ (stream-finish _ db) (
          on_test_rule Same (number_le end_at now_ms) refl
            (stream-finish _ _ ∙ R.stream-hset _ _ _ _)
            (on_test_rule Same (number_le amount price) refl (stream-finish _ db)
              (stream-accept amount now_ms version db)))
      where
        Same : Script.Outcome R → Type 0
        Same out = R.stream out.1 j ≡ R.stream db j

    -- A run appends to no stream but its auction's.
    pub stream-run : (db : R.Db) → R.stream (run R a db).1 j ≡ R.stream db j
    unfolding run fresh
    stream-run db = by_cache (R.hget db a.idem_key a.bid_id) refl
      where
        by_status :
            (o : Option Bytes)
            → R.hget db a.state_key (codes "status") ≡ o
            → R.stream (fresh R a (tonumber a.amount) (tonumber a.now_ms) db).1 j ≡ R.stream db j
        by_status none e = rw (fresh, e)
        by_status (some status) e = rw (fresh, e) (stream-judge _ _ status _ _ _ _ db)

        by_cache :
            (o : Option Bytes)
            → R.hget db a.idem_key a.bid_id ≡ o
            → R.stream (run R a db).1 j ≡ R.stream db j
        by_cache (some c) e = rw (run, e)
        by_cache none e = rw (run, e) (by_status (R.hget db a.state_key (codes "status")) refl)
