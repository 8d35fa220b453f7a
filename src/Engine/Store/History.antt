-- ===== src/Engine/Store/History.antt =====
-- Bids on one auction, answered one after the other in whatever order Redis takes them.
use auctioneer.Base.{
  suc, ◌+◌, ◌≤◌, ◌<◌, ◌^◌, ◌≡◌, ◌∙◌, refl, true, false, none, List, [], ◌∷◌, map, arith, All, Lacks,
  length, ℤ, pos, abs, ◌<ℤ◌,
}
use auctioneer.Text.{Bytes, bytes_eq}
use auctioneer.Lua.Numbers.{IsExact}
use auctioneer.Engine.Types.{PlaceBidRequest}
use auctioneer.Engine.Breaker
use auctioneer.Engine.Breaker.Behaviour.{allow-closed}
use auctioneer.Engine.Redis.{Redis}
use auctioneer.Engine.Keys.{idem_key}
use auctioneer.Engine.Spec
use auctioneer.Engine.Spec.{Auction, IsPlain, place}
use auctioneer.Engine.Spec.Play
use auctioneer.Engine.Spec.Play.{Offer, place_offer, IsHighest, play-IsHighest}
use auctioneer.Engine.Script.Represents.{Holds}
use auctioneer.Engine.Store.{
  RedisStore, delivered, Clock, for_auction, with_db, place_bid, milliseconds,
}
use auctioneer.Engine.Store.Shards.{for_auction-with_db}
use auctioneer.Engine.Store.Bids.{IsReady, ran, place_bid-ok, settled, applied}
use auctioneer.Engine.Store.Others.{idem-ran}

-- A bid of the auction `id`, and the times of its call.
pub record Call : Type 0 where
  pub clock : Clock
  pub bid_id : Bytes
  pub user_id : Bytes
  pub amount_cents : ℤ

abbrev pub request : Bytes → Call → PlaceBidRequest
request id k = record {
  auction_id = id;
  bid_id = k.bid_id;
  user_id = k.user_id;
  amount_cents = k.amount_cents;
}

abbrev pub offer : Call → Offer
offer k = record { user = k.user_id; amount = k.amount_cents; now = k.clock.now_ms }

-- The bid ids differ from one another.
abbrev pub HasDistinctIds : List Call → Type 0
HasDistinctIds [] = Unit
HasDistinctIds (k ∷ ks) = All (λ j. bytes_eq k.bid_id j.bid_id ≡ false) ks × HasDistinctIds ks

-- Numbers of at most 14 digits, and no bar in the name.
pub record IsPlainCall (k : Call) : Type 0 where
  pub amount : IsExact k.amount_cents
  pub now : IsExact k.clock.now_ms
  pub user : Lacks b'|' k.user_id

module _ (R : Redis) (id : Bytes) where
  unfoldable pub serve : List Call → RedisStore R → RedisStore R
  serve [] s = s
  serve (k ∷ ks) s = serve ks (place_bid R delivered k.clock (request id k) s).1

  -- A store at which `rounds` new bids may arrive: the breaker is closed, and the auction is held.
  pub record IsWaiting (s : RedisStore R) (a : Auction) (ks : List Call) : Type 0 where
    pub closed : s.breaker.open_until_ns ≡ pos 0
    pub holds : Holds R (for_auction R s id) id a
    pub end_at : abs a.end_at < 2 ^ 53
    pub price : IsExact a.price
    pub versions : a.version + length ks < 10 ^ 14
    pub winner : Lacks b'|' a.winner
    pub ttl_pos : pos 0 <ℤ milliseconds s.idem_ttl
    pub ttl_fits : abs (milliseconds s.idem_ttl) < 2 ^ 53
    pub new : All (λ k. R.hget (for_auction R s id) (idem_key id) k.bid_id ≡ none) ks

  pub ready :
      (s : RedisStore R) (a : Auction) (k : Call) (ks : List Call)
      → IsPlainCall k
      → IsWaiting s a (k ∷ ks)
      → IsReady R s k.clock (request id k) a
  ready s a k ks plain w = record {
    allowed = allow-closed k.clock.at_allow s.breaker w.closed;
    holds = w.holds;
    plain = record { end_at = w.end_at; price = w.price; version = omega (arith, w.versions) };
    amount = plain.amount;
    now = plain.now;
    user = plain.user;
    winner = w.winner;
    ttl_pos = w.ttl_pos;
    ttl_fits = w.ttl_fits;
    new = w.new.0;
  }

  -- What an offer leaves of the sizes and names of an auction.
  pub place-plain :
      (a : Auction) (k : Call)
      → IsPlainCall k
      → IsExact a.price
      → Lacks b'|' a.winner
      → ((place_offer a (offer k)).end_at ≡ a.end_at)
        × IsExact (place_offer a (offer k)).price
        × Lacks b'|' (place_offer a (offer k)).winner
        × ((place_offer a (offer k)).version ≤ suc a.version)
  unfolding place
  place-plain a k plain price winner = by_verdict (Spec.judge a k.amount_cents k.clock.now_ms)
    where
      by_verdict :
          (v : Spec.Verdict)
          → let b : Auction = Spec.settle a k.user_id k.amount_cents v in
            (b.end_at ≡ a.end_at)
            × IsExact b.price
            × Lacks b'|' b.winner
            × (b.version ≤ suc a.version)
      by_verdict Spec.accepted = unfold Spec.settle in (refl, plain.amount, plain.user, omega arith)
      by_verdict Spec.bid_too_low = unfold Spec.settle in (refl, price, winner, omega arith)
      by_verdict Spec.auction_ended = unfold Spec.settle in (refl, price, winner, omega arith)
      by_verdict Spec.auction_closed = unfold Spec.settle in (refl, price, winner, omega arith)

  still_new :
      (s : RedisStore R) (k : Call) (ks : List Call)
      → pos 0 <ℤ milliseconds s.idem_ttl
      → abs (milliseconds s.idem_ttl) < 2 ^ 53
      → All (λ j. bytes_eq k.bid_id j.bid_id ≡ false) ks
      → All (λ j. R.hget (for_auction R s id) (idem_key id) j.bid_id ≡ none) ks
      → All (λ j. R.hget (ran R s k.clock (request id k)).1 (idem_key id) j.bid_id ≡ none) ks
  still_new s k [] ttl_pos ttl_fits _ _ = tt
  still_new s k (j ∷ ks) ttl_pos ttl_fits (d, ds) (n, ns) = (
    idem-ran R s k.clock (request id k) ttl_pos ttl_fits j.bid_id d ∙ n,
    still_new s k ks ttl_pos ttl_fits ds ns,
  )

  pub next-IsWaiting :
      (s : RedisStore R) (a : Auction) (k : Call) (ks : List Call)
      → IsPlainCall k
      → All (λ j. bytes_eq k.bid_id j.bid_id ≡ false) ks
      → IsWaiting s a (k ∷ ks)
      → IsWaiting (place_bid R delivered k.clock (request id k) s).1 (place_offer a (offer k)) ks
  unfolding with_db Breaker.success
  next-IsWaiting s a k ks plain distinct w =
      let req = request id k in
      let r = ready s a k ks plain w in
      let done = settled R s k.clock req a r in
      let (same_end, price, winner, version) = place-plain a k plain w.price w.winner in
      let at = for_auction-with_db R s id (ran R s k.clock req).1 in
      rw (place_bid-ok R s k.clock req r.allowed done.encoded done.replied) (record {
        closed = refl;
        holds = (applied R s k.clock req a r Breaker.success).state;
        end_at = rw same_end w.end_at;
        price = price;
        versions = omega (arith, version, w.versions);
        winner = winner;
        ttl_pos = w.ttl_pos;
        ttl_fits = w.ttl_fits;
        new = rw at (still_new s k ks w.ttl_pos w.ttl_fits distinct w.new.1);
      })

  -- Whatever bids with new and different ids an auction gets, in whatever order: the hash then holds
  -- the auction of the specification after the same bids.
  pub serve-refines :
      (s : RedisStore R) (a : Auction) (ks : List Call)
      → HasDistinctIds ks
      → All IsPlainCall ks
      → IsWaiting s a ks
      → Holds R (for_auction R (serve ks s) id) id (Play.play a (map offer ks))
  unfolding serve Play.play
  serve-refines s a [] _ _ w = w.holds
  serve-refines s a (k ∷ ks) (d, ds) (p, ps) w =
      serve-refines (place_bid R delivered k.clock (request id k) s).1 (place_offer a (offer k)) ks
        ds ps (next-IsWaiting s a k ks p d w)

  offers_before :
      (e : ℤ) (ks : List Call)
      → All (λ k. k.clock.now_ms <ℤ e) ks
      → All (λ o. o.now <ℤ e) (map offer ks)
  offers_before e [] _ = tt
  offers_before e (k ∷ ks) (h, hs) = (h, offers_before e ks hs)

  -- The highest bid wins: after any sequence of calls that all succeed, of bids with different ids
  -- that are not remembered, before the end of an open auction, in any order of amounts, the hash
  -- holds an open auction whose price is at least every bid and the price before, and is one of them,
  -- with its bidder as the winner. The breaker is closed at first, amounts, times, price and versions
  -- have at most 14 digits, the end and the time to live of an answer fit a double, that time is a
  -- millisecond or more, and names hold no bar.
  pub serve-IsHighest :
      (s : RedisStore R) (a : Auction) (ks : List Call)
      → HasDistinctIds ks
      → All IsPlainCall ks
      → IsWaiting s a ks
      → a.is_open ≡ true
      → All (λ k. k.clock.now_ms <ℤ a.end_at) ks
      → (b : Auction) × Holds R (for_auction R (serve ks s) id) id b
        × IsHighest a (map offer ks) b
        × (b.is_open ≡ true)
  serve-IsHighest s a ks distinct plain w is_open before =
      let (highest, open_still) =
        play-IsHighest a (map offer ks) is_open (offers_before a.end_at ks before) in
      (Play.play a (map offer ks), serve-refines s a ks distinct plain w, highest, open_still)
