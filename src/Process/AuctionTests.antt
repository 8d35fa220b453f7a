-- ===== src/Process/AuctionTests.antt =====
-- One bid, from its call to the connection of a client.
use auctioneer.Base.{◌≡◌, ◌∙◌, refl, sym, ap, length, List, [], ◌∷◌, ◌++◌, map, pos, arith}
use auctioneer.Text.{Bytes, codes, bytes_eq}
use auctioneer.Text.Decimal.{print_int, digits}
use auctioneer.Engine.Keys.{events_key}
use auctioneer.Engine.Router.{shard}
use auctioneer.Engine.Redis.Simple.{simple}
use auctioneer.Engine.Spec.{judge, place, settle, accepted}
use auctioneer.Engine.Script.Refinement.{event, events_of}
use auctioneer.Engine.Store.Bids.{place_bid-refines}
use auctioneer.Engine.Store.{create_auction, unix_milli}
use auctioneer.Engine.Store.History.{IsWaiting, serve, request}
use auctioneer.Engine.Store.Announced.{news, Rising, stream}
use auctioneer.Engine.Store.Tests.{id, store, auction, first, first_ready, waiting}
use auctioneer.Engine.Events.Simple.{behind}
use auctioneer.Engine.Events.Streams.{Entry}
use auctioneer.Engine.Dispatcher.{Message}
use auctioneer.Engine.Dispatcher.RunTests as RunTests
use auctioneer.Engine.Dispatcher.RunTests.{second, first-IsFair, second-IsFair}
use auctioneer.Process.CatchUp.{watcher-catches_up}
use auctioneer.Process.Delivery.{targeted}
use auctioneer.Text.Map.{get, put, delete, keys}
use auctioneer.Engine.Types.{ok}
use auctioneer.Engine.Events.{val, event_from_stream, group, last_used, read_shards, read_events}
use auctioneer.Engine.Events.Streams.{asked, limited}
use auctioneer.Engine.Events.Simple.{xread}
use auctioneer.Engine.Dispatcher.{
  new_event_dispatcher, sync, forget, start_new, broadcasts, message_of, take_events, poll_some,
  tick,
}
use auctioneer.Engine.Dispatcher.Offsets.{read}
use auctioneer.Engine.Dispatcher.Runs
use auctioneer.Engine.Dispatcher.Runs.{Quiet}
use auctioneer.Transport.Ws.Hub.{on_register, on_broadcast, new_hub}
use auctioneer.Transport.Ws.Hub.Channels.{step, send_broadcast, receive_broadcast}
use auctioneer.Transport.Ws.Hub.Watching.{payloads_for}
use auctioneer.Transport.Ws.Handler
use auctioneer.Transport.Ws.Handler.{writes, act, new_client}
use auctioneer.Transport.Ws.Handler.Watching.{sends}
use auctioneer.Transport.Ws.Handler.Tests.{watching, watching-IsValid, watching-Watches}
use auctioneer.Process.Auction.{bids-reach_watcher}
use auctioneer.Process.DeliveryTests.{acts, end, all_happen, loops, still_there, same_sent}

still_waiting : IsWaiting simple id store auction (first ∷ [])
still_waiting = record {
  closed = waiting.closed;
  holds = waiting.holds;
  end_at = waiting.end_at;
  price = waiting.price;
  versions = omega arith;
  winner = waiting.winner;
  ttl_pos = waiting.ttl_pos;
  ttl_fits = waiting.ttl_fits;
  new = (waiting.new.0, tt);
}

accepts : judge auction (pos 150) (pos 4000000) ≡ accepted
unfolding judge unix_milli
accepts = refl

no_bids : stream simple id store ≡ []
unfolding create_auction shard
no_bids = refl

one_bid : stream simple id (serve simple id (first ∷ []) store) ≡ RunTests.stream
unfolding serve print_int digits place settle judge unix_milli
one_bid =
    let (_, _, done) =
      place_bid-refines simple store first.clock (request id first) auction first_ready in
    let (d, same, picked) = done.picked accepts in
    done.events
    ∙ go done.event_id (
        picked
        ∙ ap (λ (es : List Entry). codes "1-" ++ print_int (pos (length es))) (same ∙ no_bids))
  where
    go :
        (event_id : Bytes)
        → event_id ≡ codes "1-0"
        → stream simple id store
            ++ events_of (judge auction (pos 150) (pos 4000000)) event_id (
                event
                  (request id first)
                  (place auction (codes "u1") (pos 150) (pos 4000000))
                  (pos 4000000))
          ≡ RunTests.stream
    go event_id e = rw (no_bids, e) refl

bids-reach_watcher_example :
    (seen unseen : List Message) × (news id auction (first ∷ []) ≡ seen ++ unseen)
    × Rising auction.price auction.version seen
    × ((end.wire 1 ++ (end.hub.heap 1).send) ++ payloads_for id end.hub.broadcast
        ≡ ((watching.wire 1 ++ (watching.hub.heap 1).send)
            ++ payloads_for id watching.hub.broadcast)
          ++ map (λ (m : Message). m.bid_id) seen)
unfolding shard events_key bytes_eq
bids-reach_watcher_example =
    bids-reach_watcher simple id store auction (first ∷ []) (tt, tt) (omega arith) still_waiting
      no_bids behind 1 (omega arith) (omega arith) (λ m. m.bid_id) (pos 0)
      (RunTests.first ∷ second ∷ []) [] acts 1 watching end
      (first-IsFair, (RunTests.stream, refl), (second-IsFair, ([], refl), tt)) one_bid same_sent
      watching-IsValid watching-Watches (omega arith) (tt, (tt, (tt, tt))) all_happen loops
      still_there

told_once :
    sends acts
    ≡ targeted
        (λ m. m.bid_id)
        (Runs.run behind 1 id (second ∷ []) (new_event_dispatcher (pos 256))).1
unfolding sends targeted Runs.run tick new_event_dispatcher read read_events sync forget start_new
    get put delete keys bytes_eq event_from_stream group last_used read_shards shard xread asked
    limited behind events_key message_of broadcasts poll_some take_events val
told_once = refl

reads :
    read second.xread 1 (sync second.known []) (pos 256)
    ≡ ok (event_from_stream (codes "1-0", RunTests.fields) ∷ [])
unfolding read read_events sync forget start_new get put delete keys bytes_eq event_from_stream
    group last_used read_shards shard xread asked limited behind events_key
reads = refl

quiet :
    Quiet behind 1 id
      (stream simple id (serve simple id (first ∷ []) store))
      (second ∷ [])
      (new_event_dispatcher (pos 256))
unfolding shard events_key bytes_eq new_event_dispatcher
quiet = (second-IsFair, sym one_bid, (_, reads), tt)

channel_empty : (end.hub.heap 1).send ≡ []
unfolding Handler.run act step send_broadcast receive_broadcast on_register on_broadcast new_hub get
    put bytes_eq writes new_client
channel_empty = refl

hub_idle : payloads_for id end.hub.broadcast ≡ []
unfolding Handler.run act step send_broadcast receive_broadcast on_register on_broadcast new_hub get
    put bytes_eq writes new_client payloads_for
hub_idle = refl

watcher-catches_up_example :
    end.wire 1
    ≡ ((watching.wire 1 ++ (watching.hub.heap 1).send) ++ payloads_for id watching.hub.broadcast)
      ++ map (λ (m : Message). m.bid_id) (news id auction (first ∷ []))
unfolding shard events_key bytes_eq
watcher-catches_up_example =
    watcher-catches_up simple id store auction (first ∷ []) (tt, tt) (omega arith) still_waiting
      no_bids behind 1 (omega arith) (omega arith) (λ m. m.bid_id) 255 (second ∷ []) acts 1 watching
      end quiet (omega arith) told_once watching-IsValid watching-Watches (omega arith)
      (tt, (tt, (tt, tt))) all_happen loops still_there channel_empty hub_idle
