-- ===== src/Engine/Store/Expiry.antt =====
-- Bids that come again when their answers have expired.
use auctioneer.Base.{
  suc, ◌+◌, ◌<◌, ◌^◌, ◌≡◌, ◌∙◌, refl, ap, false, List, [], ◌∷◌, map, arith, All, length, ℤ, pos,
  ◌≤ℤ◌, ◌⊎◌, inl, inr,
}
use auctioneer.Text.{Bytes, bytes_eq_refl}
use auctioneer.Lua.Numbers.{IsExact}
use auctioneer.Engine.Types.{PlaceBidResult, ok}
use auctioneer.Engine.Redis.{Redis}
use auctioneer.Engine.Keys.{idem_key}
use auctioneer.Engine.Keys.Distinct.{idem_key-ne-state_key}
use auctioneer.Engine.Spec
use auctioneer.Engine.Spec.{
  Auction, Verdict, accepted, bid_too_low, auction_ended, auction_closed, is_accepted, place,
  settle,
}
use auctioneer.Engine.Spec.Play
use auctioneer.Engine.Spec.Play.{place_offer, play-IsHighest}
use auctioneer.Engine.Script.Represents.{Holds}
use auctioneer.Engine.Store.{RedisStore, delivered, Clock, for_auction, with_db, place_bid}
use auctioneer.Engine.Store.Shards.{for_auction-with_db}
use auctioneer.Engine.Store.Bids.{place_bid-refines}
use auctioneer.Engine.Store.History.{
  Call, request, offer, IsPlainCall, HasDistinctIds, IsWaiting, serve, ready, next-IsWaiting,
  place-plain,
}

-- An auction that takes no bid of that amount, whenever it comes.
abbrev pub IsBeyond : ℤ → Auction → Type 0
IsBeyond amount a = (a.is_open ≡ false) ⊎ (amount ≤ℤ a.price)

placed-IsBeyond : (a : Auction) (k : Call) → IsBeyond k.amount_cents (place_offer a (offer k))
unfolding place
placed-IsBeyond a k = by_verdict (Spec.judge a k.amount_cents k.clock.now_ms) refl
  where
    by_verdict :
        (v : Verdict)
        → Spec.judge a k.amount_cents k.clock.now_ms ≡ v
        → IsBeyond k.amount_cents (settle a k.user_id k.amount_cents v)
    by_verdict accepted e = unfold settle in inr (omega arith)
    by_verdict bid_too_low e = unfold settle Spec.judge in inr (ground (arith, e))
    by_verdict auction_ended e = unfold settle in inl refl
    by_verdict auction_closed e = unfold settle Spec.judge in inl (ground (arith, e))

kept-IsBeyond :
    (amount : ℤ) (a : Auction) (k : Call)
    → IsBeyond amount a
    → IsBeyond amount (place_offer a (offer k))
unfolding place Spec.judge settle
kept-IsBeyond amount a k (inl closed) = inl (ground (arith, closed))
kept-IsBeyond amount a k (inr low) = by_verdict (Spec.judge a k.amount_cents k.clock.now_ms) refl
  where
    by_verdict :
        (v : Verdict)
        → Spec.judge a k.amount_cents k.clock.now_ms ≡ v
        → IsBeyond amount (settle a k.user_id k.amount_cents v)
    by_verdict accepted e = inr (ground (arith, low, e))
    by_verdict bid_too_low e = inr low
    by_verdict auction_ended e = inl refl
    by_verdict auction_closed e = inr low

played-IsBeyond :
    (amount : ℤ) (a : Auction) (ks : List Call)
    → IsBeyond amount a
    → IsBeyond amount (Play.play a (map offer ks))
unfolding Play.play
played-IsBeyond amount a [] h = h
played-IsBeyond amount a (k ∷ ks) h =
    played-IsBeyond amount (place_offer a (offer k)) ks (kept-IsBeyond amount a k h)

each-IsBeyond :
    (a : Auction) (ks : List Call)
    → All (λ k. IsBeyond k.amount_cents (Play.play a (map offer ks))) ks
unfolding Play.play
each-IsBeyond a [] = tt
each-IsBeyond a (k ∷ ks) = (
  played-IsBeyond k.amount_cents (place_offer a (offer k)) ks (placed-IsBeyond a k),
  each-IsBeyond (place_offer a (offer k)) ks,
)

beyond-judge :
    (amount now : ℤ) (a : Auction)
    → IsBeyond amount a
    → is_accepted (Spec.judge a amount now) ≡ false
unfolding Spec.judge
beyond-judge amount now a (inl closed) = rw closed refl
beyond-judge amount now a (inr low) = ground (arith, low)

module _ (R : Redis) (id : Bytes) where
  -- The time to live of the answers of an auction has passed.
  unfoldable pub expire : RedisStore R → RedisStore R
  unfolding with_db
  expire s = with_db R s id (R.pexpire (for_auction R s id) (idem_key id) (pos 0))

  -- The store behind bids, when there is room for one more version.
  served-IsWaiting :
      (s : RedisStore R) (a : Auction) (ks : List Call)
      → HasDistinctIds ks
      → All IsPlainCall ks
      → IsWaiting R id s a ks
      → a.version + suc (length ks) < 10 ^ 14
      → IsWaiting R id (serve R id ks s) (Play.play a (map offer ks)) []
        × ((Play.play a (map offer ks)).version + 1 < 10 ^ 14)
  unfolding serve Play.play
  served-IsWaiting s a [] _ _ w room = (w, omega arith)
  served-IsWaiting s a (k ∷ ks) (d, ds) (p, ps) w room =
      let (_, _, _, version) = place-plain R id a k p w.price w.winner in
      served-IsWaiting (place_bid R delivered k.clock (request id k) s).1 (place_offer a (offer k))
        ks ds ps (next-IsWaiting R id s a k ks p d w) (omega (arith, version))

  Holds-expired :
      (db : R.Db) (a : Auction)
      → Holds R db id a
      → Holds R (R.pexpire db (idem_key id) (pos 0)) id a
  Holds-expired db a h = record {
    status = rw (R.hget-pexpire, idem_key-ne-state_key id id) h.status;
    end_at = rw (R.hget-pexpire, idem_key-ne-state_key id id) h.end_at;
    price = rw (R.hget-pexpire, idem_key-ne-state_key id id) h.price;
    winner = rw (R.hget-pexpire, idem_key-ne-state_key id id) h.winner;
    version = rw (R.hget-pexpire, idem_key-ne-state_key id id) h.version;
  }

  expired-IsWaiting :
      (s : RedisStore R) (a : Auction) (k : Call)
      → IsWaiting R id s a []
      → a.version + 1 < 10 ^ 14
      → IsWaiting R id (expire s) a (k ∷ [])
  unfolding expire with_db
  expired-IsWaiting s a k w room =
      let at = for_auction-with_db R s id (R.pexpire (for_auction R s id) (idem_key id) (pos 0)) in
      record {
        closed = w.closed;
        holds = rw at (Holds-expired (for_auction R s id) a w.holds);
        end_at = w.end_at;
        price = w.price;
        versions = room;
        winner = w.winner;
        ttl_pos = w.ttl_pos;
        ttl_fits = w.ttl_fits;
        new = (rw (at, R.hget-pexpire, bytes_eq_refl (idem_key id)) refl, tt);
      }

  -- What such a bid gets when it comes again.
  abbrev pub IsRefused : RedisStore R → Call → Type 0
  IsRefused s k =
      (c : Clock)
      → IsExact c.now_ms
      → (result : PlaceBidResult) × ((place_bid R delivered c (request id k) s).0 ≡ ok result)
        × (result.accepted ≡ false)

  again-IsRefused :
      (s : RedisStore R) (a : Auction) (k : Call)
      → IsPlainCall k
      → IsWaiting R id s a []
      → a.version + 1 < 10 ^ 14
      → IsBeyond k.amount_cents a
      → IsRefused (expire s) k
  again-IsRefused s a k plain w room beyond c now =
      let again : Call = record k { clock = c } in
      let (result, answered, done) = place_bid-refines R (expire s) c (request id k) a (
        ready R id (expire s) a again []
          (record { amount = plain.amount; now = now; user = plain.user })
          (expired-IsWaiting s a again w room)) in
      (
        result,
        answered,
        ap PlaceBidResult.accepted done.result_is ∙ beyond-judge k.amount_cents c.now_ms a beyond,
      )

  each-IsRefused :
      (s : RedisStore R) (a : Auction) (ks : List Call)
      → All IsPlainCall ks
      → IsWaiting R id s a []
      → a.version + 1 < 10 ^ 14
      → All (λ k. IsBeyond k.amount_cents a) ks
      → All (IsRefused (expire s)) ks
  each-IsRefused s a [] _ _ _ _ = tt
  each-IsRefused s a (k ∷ ks) (p, ps) w room (b, bs) =
      (again-IsRefused s a k p w room b, each-IsRefused s a ks ps w room bs)

  -- No bid is accepted a second time, even when the answers are no longer remembered: an auction has
  -- got bids with different ids, all of whose calls succeed, and then the time to live of its answers
  -- has passed. Any of these bids that comes again, at any time, is answered with no error and is not
  -- accepted. (The breaker is closed at first, the ids are not remembered, amounts, times, price and
  -- versions have at most 14 digits, also with one version more, the end and the time to live of an
  -- answer fit a double, that time is a millisecond or more, and names hold no bar.)
  pub expired-IsRefused :
      (s : RedisStore R) (a : Auction) (ks : List Call)
      → HasDistinctIds ks
      → All IsPlainCall ks
      → IsWaiting R id s a ks
      → a.version + suc (length ks) < 10 ^ 14
      → All (IsRefused (expire (serve R id ks s))) ks
  expired-IsRefused s a ks distinct plain waiting room =
      let (w, one_more) = served-IsWaiting s a ks distinct plain waiting room in
      each-IsRefused (serve R id ks s) (Play.play a (map offer ks)) ks plain w one_more
        (each-IsBeyond a ks)
