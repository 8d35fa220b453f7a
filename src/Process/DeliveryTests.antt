-- ===== src/Process/DeliveryTests.antt =====
-- One event, from its stream to the connection of a client.
use auctioneer.Base.{◌≡◌, refl, true, Option, none, some, List, [], ◌∷◌, pos}
use auctioneer.Text.{codes, bytes_eq}
use auctioneer.Text.Map
use auctioneer.Text.Map.{get, put, delete, keys, contains}
use auctioneer.Engine.Keys.{events_key}
use auctioneer.Engine.Router.{shard}
use auctioneer.Engine.Events.{val, event_from_stream, group, last_used, read_shards, read_events}
use auctioneer.Engine.Events.Streams.{asked, limited}
use auctioneer.Engine.Events.Simple.{behind, xread}
use auctioneer.Engine.Dispatcher.{
  new_event_dispatcher, sync, forget, start_new, broadcasts, message_of, take_events, poll_some,
  tick,
}
use auctioneer.Engine.Dispatcher.Offsets.{read}
use auctioneer.Engine.Dispatcher.Runs
use auctioneer.Engine.Dispatcher.Runs.{last_stream}
use auctioneer.Engine.Dispatcher.RunTests.{a, first, second, down}
use auctioneer.Transport.Ws.Hub.{member, subscribers, on_register, on_broadcast, new_hub}
use auctioneer.Transport.Ws.Hub.Channels.{
  broadcasts as hub_broadcasts, runs_broadcast, step, send_broadcast, receive_broadcast,
}
use auctioneer.Transport.Ws.Handler
use auctioneer.Transport.Ws.Handler.{
  Server, Action, looping, hub_does, writes_next, writes, act, new_client,
}
use auctioneer.Transport.Ws.Handler.Watching.{sends}
use auctioneer.Transport.Ws.Handler.Tests.{start, watching}
use auctioneer.Process.Delivery.{targeted}

-- The bid's id stands for the whole message.
abbrev pub acts : List Action
acts =
    hub_does (hub_broadcasts (record { auction_id = a; payload = codes "b1" }))
    ∷ hub_does runs_broadcast
    ∷ writes_next 1 true
    ∷ []

abbrev or_start : Option Server → Server
or_start none = start
or_start (some s) = s

abbrev pub end : Server
end = or_start (Handler.run acts watching)

pub all_happen : Handler.run acts watching ≡ some end
unfolding Handler.run act step send_broadcast receive_broadcast on_register on_broadcast new_hub
    Map.get Map.put bytes_eq writes new_client
all_happen = refl

pub loops : end.writing 1 ≡ looping
unfolding Handler.run act step send_broadcast receive_broadcast on_register on_broadcast new_hub
    Map.get Map.put bytes_eq writes new_client
loops = refl

pub still_there : member 1 (subscribers a end.hub) ≡ true
unfolding Handler.run act step send_broadcast receive_broadcast on_register on_broadcast new_hub
    Map.get Map.put bytes_eq writes new_client
still_there = refl

pub same_sent :
    sends acts
    ≡ targeted
        (λ m. m.bid_id)
        (Runs.run behind 1 a (first ∷ second ∷ []) (new_event_dispatcher (pos 0))).1
unfolding sends targeted Runs.run tick new_event_dispatcher read read_events sync forget start_new
    get put delete keys bytes_eq event_from_stream group last_used read_shards shard xread asked
    limited behind events_key down message_of broadcasts poll_some take_events val
same_sent = refl
