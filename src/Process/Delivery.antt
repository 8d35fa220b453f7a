-- ===== src/Process/Delivery.antt =====
-- dispatcher.go, hub.go and handler.go together: from the stream of an auction to a connection.
use auctioneer.Base.{
  ℕ, ◌≡◌, ◌∙◌, refl, ap, true, some, List, [], ◌∷◌, ◌++◌, map, All, ◌<◌, ◌^◌, ℤ, arith,
}
use auctioneer.Text.{Bytes}
use auctioneer.Engine.Events.Streams.{Entry}
use auctioneer.Engine.Dispatcher.{Message, new_event_dispatcher}
use auctioneer.Engine.Dispatcher.Messages.{messages_of}
use auctioneer.Engine.Dispatcher.Delivery.{Tick, announced}
use auctioneer.Engine.Dispatcher.Runs
use auctioneer.Engine.Dispatcher.Runs.{Follows, last_stream, run-delivers}
use auctioneer.Transport.Ws.Hub.{TargetedMessage, member, subscribers}
use auctioneer.Transport.Ws.Hub.Invariant.{IsValid}
use auctioneer.Transport.Ws.Hub.Watching.{Watches, payloads_for}
use auctioneer.Transport.Ws.Handler
use auctioneer.Transport.Ws.Handler.{Server, Action, looping}
use auctioneer.Transport.Ws.Handler.Watching.{ForOthers, sends, run-reaches}

-- Hub.Broadcast, of the messages of a dispatcher; `encode` is json.Marshal.
unfoldable pub targeted : (Message → Bytes) → List (Bytes × Message) → List TargetedMessage
targeted encode [] = []
targeted encode ((auction_id, msg) ∷ sent) =
    record { auction_id = auction_id; payload = encode msg } ∷ targeted encode sent

pub payloads_for-targeted :
    (encode : Message → Bytes) (a : Bytes) (sent : List (Bytes × Message))
    → payloads_for a (targeted encode sent) ≡ map encode (messages_of a sent)
unfolding payloads_for targeted messages_of
payloads_for-targeted encode a [] = refl
payloads_for-targeted encode a ((b, msg) ∷ sent) =
    ground (arith, payloads_for-targeted encode a sent)

module _ (behind : Bytes → List Entry → List Entry) (n : ℕ) (a : Bytes) (some_client : 0 < n)
    (few : n < 2 ^ 32) (encode : Message → Bytes) where
  -- From the stream to the connection: if what is sent to the hub is what a new dispatcher broadcasts
  -- over a run of ticks, then a client of the auction that is still subscribed at the end, and whose
  -- writer still loops, has got behind what was there before exactly the encoded announcements of a
  -- first part of the auction's stream, once and in order: on its connection, then in its channel,
  -- then waiting for the hub. (The conditions are those of `run-delivers` on the ticks, and of
  -- `run-reaches` on the clients, their goroutines and the hub, which act in any order.)
  pub watcher-sees :
      (count : ℤ) (ts : List Tick) (xs : List Action) (c : ℕ) (s s' : Server)
      → Follows behind n a [] ts
      → sends xs ≡ targeted encode (Runs.run behind n a ts (new_event_dispatcher count)).1
      → IsValid s.hub
      → Watches a c s.hub
      → c < s.next
      → All (ForOthers c) xs
      → Handler.run xs s ≡ some s'
      → s'.writing c ≡ looping
      → member c (subscribers a s'.hub) ≡ true
      → (taken rest : List Entry) × (last_stream behind n a [] ts ≡ taken ++ rest)
        × ((s'.wire c ++ (s'.hub.heap c).send) ++ payloads_for a s'.hub.broadcast
            ≡ ((s.wire c ++ (s.hub.heap c).send) ++ payloads_for a s.hub.broadcast)
              ++ map encode (announced taken))
  watcher-sees count ts xs c s s' follows sent v w old others e loops m =
      let (taken, rest, all, same) = run-delivers behind n a some_client few count ts follows in
      (
        taken,
        rest,
        all,
        run-reaches xs a c s s' v w old others e loops m
            ∙ ap (λ q. ((s.wire c ++ (s.hub.heap c).send) ++ payloads_for a s.hub.broadcast) ++ q)
                (ap (payloads_for a) sent
                  ∙ payloads_for-targeted encode a _
                  ∙ ap (map encode) same),
      )
