-- ===== src/Process/CatchUp.antt =====
-- redis_store.go, dispatcher.go, hub.go and handler.go together, where nothing fails and all is passed on.
use auctioneer.Base.{
  ℕ, suc, ◌*◌, ◌≤◌, ◌<◌, ◌^◌, ◌≡◌, ◌∙◌, sym, ap, true, some, List, [], ◌++◌, map, append-nil, All,
  length, arith, pos,
}
use auctioneer.Text.{Bytes}
use auctioneer.Engine.Redis.{Redis}
use auctioneer.Engine.Spec.{Auction}
use auctioneer.Engine.Store.{RedisStore}
use auctioneer.Engine.Store.History.{Call, HasDistinctIds, IsPlainCall, IsWaiting, serve}
use auctioneer.Engine.Store.Announced.{news, stream, serve-announces, length-serve}
use auctioneer.Engine.Events.Streams.{Entry}
use auctioneer.Engine.Dispatcher.{Message, new_event_dispatcher}
use auctioneer.Engine.Dispatcher.Delivery.{Tick, announced}
use auctioneer.Engine.Dispatcher.Messages.{messages_of}
use auctioneer.Engine.Dispatcher.Runs
use auctioneer.Engine.Dispatcher.Runs.{Quiet, run-drains, fresh-HasRead}
use auctioneer.Transport.Ws.Hub.{member, subscribers}
use auctioneer.Transport.Ws.Hub.Invariant.{IsValid}
use auctioneer.Transport.Ws.Hub.Watching.{Watches, payloads_for}
use auctioneer.Transport.Ws.Handler
use auctioneer.Transport.Ws.Handler.{Server, Action, looping}
use auctioneer.Transport.Ws.Handler.Watching.{ForOthers, sends, run-reaches}
use auctioneer.Process.Delivery.{targeted, payloads_for-targeted}

module _ (R : Redis) (id : Bytes) (s : RedisStore R) (a : Auction) (ks : List Call)
    (distinct : HasDistinctIds ks) (plain : All IsPlainCall ks) (waiting : IsWaiting R id s a ks)
    (no_bids_yet : stream R id s ≡ []) where
  -- The dispatcher has told all there is to tell, after as many ticks as the bids need.
  all_told :
      (behind : Bytes → List Entry → List Entry) (n : ℕ)
      → 0 < n
      → n < 2 ^ 32
      → (k : ℕ) (ts : List Tick)
      → Quiet behind n id (stream R id (serve R id ks s)) ts (new_event_dispatcher (pos (suc k)))
      → length ks ≤ length ts * suc k
      → messages_of id (Runs.run behind n id ts (new_event_dispatcher (pos (suc k)))).1
        ≡ news id a ks
  unfolding new_event_dispatcher
  all_told behind n some_client few k ts quiet enough =
      run-drains behind n id some_client few ts (new_event_dispatcher (pos (suc k))) k []
        (stream R id (serve R id ks s)) (ground arith)
        (fresh-HasRead behind n id some_client few (pos (suc k))) quiet
        (omega (arith, length-serve R id s a ks distinct plain waiting no_bids_yet))
      ∙ serve-announces R id s a ks distinct plain waiting
      ∙ ap (λ es. announced es ++ news id a ks) no_bids_yet

  -- Nothing is lost: an auction with no event on its stream gets bids with different ids that are not
  -- remembered, all of whose calls succeed; a new dispatcher that reads `k + 1` entries at a time makes
  -- as many ticks as it takes to read an entry for each bid, and no tick fails; and what it broadcasts
  -- is what is sent to the hub. Then a client of the auction that is still subscribed, whose writer
  -- still loops, and for whom no message waits, neither in its channel nor at the hub, has got on its
  -- connection, behind what was there or waited before, exactly the encoded messages for the bids that the
  -- specification accepts, in order. (The conditions are those of `bids-reach_watcher`; at each tick
  -- the auction is known, and the streams are as the store then holds them.)
  pub watcher-catches_up :
      (behind : Bytes → List Entry → List Entry) (n : ℕ) (some_client : 0 < n) (few : n < 2 ^ 32)
      (encode : Message → Bytes) (k : ℕ) (ts : List Tick) (xs : List Action) (c : ℕ)
      (before after : Server)
      → Quiet behind n id (stream R id (serve R id ks s)) ts (new_event_dispatcher (pos (suc k)))
      → length ks ≤ length ts * suc k
      → sends xs ≡ targeted encode (Runs.run behind n id ts (new_event_dispatcher (pos (suc k)))).1
      → IsValid before.hub
      → Watches id c before.hub
      → c < before.next
      → All (ForOthers c) xs
      → Handler.run xs before ≡ some after
      → after.writing c ≡ looping
      → member c (subscribers id after.hub) ≡ true
      → (after.hub.heap c).send ≡ []
      → payloads_for id after.hub.broadcast ≡ []
      → after.wire c
        ≡ ((before.wire c ++ (before.hub.heap c).send) ++ payloads_for id before.hub.broadcast)
          ++ map encode (news id a ks)
  watcher-catches_up behind n some_client few encode k ts xs c before after quiet enough sent v w
        old others e loops m drained handed =
      sym (append-nil (after.wire c))
      ∙ ap (λ q. after.wire c ++ q) (sym drained)
      ∙ sym (append-nil (after.wire c ++ (after.hub.heap c).send))
      ∙ ap (λ q. (after.wire c ++ (after.hub.heap c).send) ++ q) (sym handed)
      ∙ run-reaches xs id c before after v w old others e loops m
      ∙ ap
          (λ q.
            ((before.wire c ++ (before.hub.heap c).send) ++ payloads_for id before.hub.broadcast)
            ++ q)
          (ap (payloads_for id) sent
            ∙ payloads_for-targeted encode id _
            ∙ ap (map encode) (all_told behind n some_client few k ts quiet enough))
