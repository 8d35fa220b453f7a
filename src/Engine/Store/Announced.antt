-- ===== src/Engine/Store/Announced.antt =====
-- The stream of an auction behind bids on it, as the dispatcher reads it.
use auctioneer.Base.{
  ℕ, suc, ◌≤◌, ◌<◌, ◌^◌, length, ◌≡◌, ◌∙◌, refl, sym, ap, false, List, [], ◌∷◌, ◌++◌, append_assoc,
  append-nil, arith, All, ℤ, pos, negsuc, InInt64, ◌<ℤ◌,
}
use auctioneer.Text.{Bytes, codes}
use auctioneer.Lua.Numbers.{IsExact}
use auctioneer.Engine.Redis.{Redis, Fields}
use auctioneer.Engine.Keys.{events_key}
use auctioneer.Engine.Spec
use auctioneer.Engine.Spec.{
  Auction, Verdict, accepted, bid_too_low, auction_ended, auction_closed, place, settle,
}
use auctioneer.Engine.Spec.Play.{place_offer}
use auctioneer.Engine.Script.Refinement.{event, events_of}
use auctioneer.Engine.Store.{RedisStore, delivered, for_auction, place_bid}
use auctioneer.Engine.Store.Bids.{place_bid-refines}
use auctioneer.Engine.Store.History.{
  Call, request, offer, IsPlainCall, HasDistinctIds, IsWaiting, serve, ready, next-IsWaiting,
}
use auctioneer.Engine.Events.Decoding.{event_from_stream-event}
use auctioneer.Engine.Dispatcher.{Message, message_of}
use auctioneer.Engine.Dispatcher.Delivery.{announced, announced-append}

-- What is told of a bid with that verdict, `b` being the auction behind it.
unfoldable pub told : Bytes → Call → Verdict → Auction → List Message
told id k accepted b =
    record {
      auction_id = id;
      type = codes "bid_accepted";
      bid_id = k.bid_id;
      user_id = k.user_id;
      amount = k.amount_cents;
      version = pos b.version;
      timestamp = k.clock.now_ms;
    }
    ∷ []
told id k bid_too_low b = []
told id k auction_ended b = []
told id k auction_closed b = []

-- What is told of bids that an auction of the specification gets.
unfoldable pub news : Bytes → Auction → List Call → List Message
unfolding told
news id a [] = []
news id a (k ∷ ks) =
    told id k (Spec.judge a k.amount_cents k.clock.now_ms) (place_offer a (offer k))
    ++ news id (place_offer a (offer k)) ks

exact-InInt64 : (z : ℤ) → IsExact z → InInt64 z
exact-InInt64 (pos n) h = omega arith
exact-InInt64 (negsuc n) h = omega arith

announced-events_of :
    (id : Bytes) (k : Call) (v : Verdict) (b : Auction) (event_id : Bytes)
    → IsPlainCall k
    → b.version < 10 ^ 14
    → announced (events_of v event_id (event (request id k) b k.clock.now_ms)) ≡ told id k v b
unfolding told message_of
announced-events_of id k accepted b event_id plain version =
    ap (λ e. message_of e ∷ [])
      (event_from_stream-event event_id (request id k) b k.clock.now_ms
        (exact-InInt64 _ plain.amount) (omega arith) (exact-InInt64 _ plain.now))
announced-events_of id k bid_too_low b event_id plain version = refl
announced-events_of id k auction_ended b event_id plain version = refl
announced-events_of id k auction_closed b event_id plain version = refl

length-told :
    (id : Bytes) (k : Call) (v : Verdict) (b : Auction) (ms : List Message)
    → length (told id k v b ++ ms) ≤ suc (length ms)
unfolding told
length-told id k accepted b ms = omega arith
length-told id k bid_too_low b ms = omega arith
length-told id k auction_ended b ms = omega arith
length-told id k auction_closed b ms = omega arith

length-news : (id : Bytes) (a : Auction) (ks : List Call) → length (news id a ks) ≤ length ks
unfolding news
length-news id a [] = omega arith
length-news id a (k ∷ ks) = omega (
  arith,
  length-news id (place_offer a (offer k)) ks,
  length-told id k (Spec.judge a k.amount_cents k.clock.now_ms) (place_offer a (offer k))
      (news id (place_offer a (offer k)) ks),
)

length-announced : (es : List (Bytes × Fields)) → length (announced es) ≡ length es
length-announced [] = refl
length-announced (e ∷ es) = ap suc (length-announced es)

-- The prices of the messages rise from `price` on, and their versions count up from `version`.
abbrev pub Rising : ℤ → ℕ → List Message → Type 0
Rising price version [] = Unit
Rising price version (m ∷ ms) =
    (price <ℤ m.amount) × (m.version ≡ pos (suc version)) × Rising m.amount (suc version) ms

pub Rising-front :
    (price : ℤ) (version : ℕ) (ms later : List Message)
    → Rising price version (ms ++ later)
    → Rising price version ms
Rising-front price version [] later r = tt
Rising-front price version (m ∷ ms) later (up, next, r) =
    (up, next, Rising-front m.amount (suc version) ms later r)

higher : (a : Auction) (amount now : ℤ) → Spec.judge a amount now ≡ accepted → a.price <ℤ amount
unfolding Spec.judge
higher a amount now e = ground arith

told-Rising :
    (id : Bytes) (a : Auction) (k : Call) (later : Auction → List Message) (v : Verdict)
    → Spec.judge a k.amount_cents k.clock.now_ms ≡ v
    → ((b : Auction) → Rising b.price b.version (later b))
    → let b : Auction = settle a k.user_id k.amount_cents v in
      Rising a.price a.version (told id k v b ++ later b)
unfolding told settle
told-Rising id a k later accepted e rest = (higher a k.amount_cents k.clock.now_ms e, refl, rest _)
told-Rising id a k later bid_too_low e rest = rest a
told-Rising id a k later auction_ended e rest = rest (record a { is_open = false })
told-Rising id a k later auction_closed e rest = rest a

pub news-Rising :
    (id : Bytes) (a : Auction) (ks : List Call) → Rising a.price a.version (news id a ks)
unfolding news place
news-Rising id a [] = tt
news-Rising id a (k ∷ ks) =
    told-Rising id a k (λ b. news id b ks) (Spec.judge a k.amount_cents k.clock.now_ms) refl
      (λ b. news-Rising id b ks)

module _ (R : Redis) (id : Bytes) where
  abbrev pub stream : RedisStore R → List (Bytes × Fields)
  stream s = R.stream (for_auction R s id) (events_key id)

  -- The stream of an auction, read back, is what it was before the bids with the news of the bids
  -- behind it: one message for each bid that the specification accepts, in their order.
  pub serve-announces :
      (s : RedisStore R) (a : Auction) (ks : List Call)
      → HasDistinctIds ks
      → All IsPlainCall ks
      → IsWaiting R id s a ks
      → announced (stream (serve R id ks s)) ≡ announced (stream s) ++ news id a ks
  unfolding serve news
  serve-announces s a [] _ _ w = sym (append-nil _)
  serve-announces s a (k ∷ ks) (d, ds) (p, ps) w =
      let next = next-IsWaiting R id s a k ks p d w in
      let (_, _, done) = place_bid-refines R s k.clock (request id k) a (ready R id s a k ks p w) in
      serve-announces (place_bid R delivered k.clock (request id k) s).1 (place_offer a (offer k))
        ks ds ps next
      ∙ ap (λ ms. announced ms ++ news id (place_offer a (offer k)) ks) done.events
      ∙ ap (λ ms. ms ++ news id (place_offer a (offer k)) ks)
          (announced-append (stream s) _
            ∙ ap (λ ms. announced (stream s) ++ ms)
                (announced-events_of id k (Spec.judge a k.amount_cents k.clock.now_ms)
                  (place_offer a (offer k)) done.event_id p (omega (arith, next.versions))))
      ∙ append_assoc (announced (stream s)) _ _

  -- A stream that was empty has at most one entry for each bid.
  pub length-serve :
      (s : RedisStore R) (a : Auction) (ks : List Call)
      → HasDistinctIds ks
      → All IsPlainCall ks
      → IsWaiting R id s a ks
      → stream s ≡ []
      → length (stream (serve R id ks s)) ≤ length ks
  length-serve s a ks distinct plain w empty =
      let same = serve-announces s a ks distinct plain w in
      omega (
        arith,
        length-announced (stream (serve R id ks s)),
        ap length (same ∙ ap (λ es. announced es ++ news id a ks) empty),
        length-news id a ks,
      )
