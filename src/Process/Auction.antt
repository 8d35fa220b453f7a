-- ===== src/Process/Auction.antt =====
-- redis_store.go, dispatcher.go, hub.go and handler.go together: from the bids on an auction to the
-- connections of those who watch it.
use auctioneer.Base.{
  ℕ, ◌≡◌, ◌∙◌, sym, ap, true, some, List, [], ◌++◌, map, All, append_assoc, ◌<◌, ◌^◌, ℤ,
}
use mathlib.Core.Path.{subst}
use auctioneer.Text.{Bytes}
use auctioneer.Engine.Redis.{Redis}
use auctioneer.Engine.Spec.{Auction}
use auctioneer.Engine.Store.{RedisStore}
use auctioneer.Engine.Store.History.{Call, HasDistinctIds, IsPlainCall, IsWaiting, serve}
use auctioneer.Engine.Store.Announced.{
  news, Rising, Rising-front, news-Rising, stream, serve-announces,
}
use auctioneer.Engine.Events.Streams.{Entry}
use auctioneer.Engine.Dispatcher.{Message, new_event_dispatcher}
use auctioneer.Engine.Dispatcher.Delivery.{Tick, announced, announced-append}
use auctioneer.Engine.Dispatcher.Runs
use auctioneer.Engine.Dispatcher.Runs.{Follows, last_stream}
use auctioneer.Transport.Ws.Hub.{member, subscribers}
use auctioneer.Transport.Ws.Hub.Invariant.{IsValid}
use auctioneer.Transport.Ws.Hub.Watching.{Watches, payloads_for}
use auctioneer.Transport.Ws.Handler
use auctioneer.Transport.Ws.Handler.{Server, Action, looping}
use auctioneer.Transport.Ws.Handler.Watching.{ForOthers, sends}
use auctioneer.Process.Delivery.{targeted, watcher-sees}

module _ (R : Redis) (id : Bytes) (s : RedisStore R) (a : Auction) (ks : List Call)
    (distinct : HasDistinctIds ks) (plain : All IsPlainCall ks) (waiting : IsWaiting R id s a ks)
    (no_bids_yet : stream R id s ≡ []) where
  -- Who watches an auction gets its accepted bids and nothing else. An auction with no event on its
  -- stream gets bids with different ids that are not remembered, all of whose calls succeed; a new
  -- dispatcher reads the streams in ticks, of which the last meets a first part of what the store then
  -- holds, and what it broadcasts is what is sent to the hub. Then a client of the auction that is
  -- still subscribed at the end, and whose writer still loops, has got behind what was there before
  -- exactly the encoded messages for a first part of the bids that the specification accepts: each
  -- once and in order, with prices that rise strictly and versions that count up by one. (Of the
  -- store: the breaker is closed at first, amounts, times, price and versions have at most 14 digits,
  -- the end and the time to live of an answer fit a double, that time is a millisecond or more, and
  -- names hold no bar. The conditions on ticks are those of `run-delivers`, and those on clients,
  -- goroutines and the hub, which act in any order, those of `run-reaches`.)
  pub bids-reach_watcher :
      (behind : Bytes → List Entry → List Entry) (n : ℕ) (some_client : 0 < n) (few : n < 2 ^ 32)
      (encode : Message → Bytes) (count : ℤ) (ts : List Tick) (unread : List Entry)
      (xs : List Action) (c : ℕ) (before after : Server)
      → Follows behind n id [] ts
      → stream R id (serve R id ks s) ≡ last_stream behind n id [] ts ++ unread
      → sends xs ≡ targeted encode (Runs.run behind n id ts (new_event_dispatcher count)).1
      → IsValid before.hub
      → Watches id c before.hub
      → c < before.next
      → All (ForOthers c) xs
      → Handler.run xs before ≡ some after
      → after.writing c ≡ looping
      → member c (subscribers id after.hub) ≡ true
      → (seen unseen : List Message) × (news id a ks ≡ seen ++ unseen)
        × Rising a.price a.version seen
        × ((after.wire c ++ (after.hub.heap c).send) ++ payloads_for id after.hub.broadcast
            ≡ ((before.wire c ++ (before.hub.heap c).send) ++ payloads_for id before.hub.broadcast)
              ++ map encode seen)
  bids-reach_watcher behind n some_client few encode count ts unread xs c before after follows met
        sent v w old others e loops m =
      let (taken, rest, all, same) =
        watcher-sees behind n id some_client few encode count ts xs c before after follows sent v w
          old others e loops m in
      let split : news id a ks ≡ announced taken ++ announced (rest ++ unread) =
        ap (λ es. announced es ++ news id a ks) (sym no_bids_yet)
        ∙ sym (serve-announces R id s a ks distinct plain waiting)
        ∙ ap announced (met ∙ ap (λ es. es ++ unread) all ∙ append_assoc taken rest unread)
        ∙ announced-append taken (rest ++ unread) in
      (
        announced taken,
        announced (rest ++ unread),
        split,
        Rising-front a.price a.version (announced taken) _
            (subst (Rising a.price a.version) split (news-Rising id a ks)),
        same,
      )
