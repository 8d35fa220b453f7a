-- ===== src/Transport/Ws/Handler/Tests.antt =====
-- A client that watches an auction, and one that leaves at once.
use auctioneer.Base.{◌≡◌, refl, true, Option, none, some, List, [], ◌∷◌, ◌++◌, arith}
use auctioneer.Text.{Bytes, codes, bytes_eq→ne, bytes_eq}
use auctioneer.Text.Map
use auctioneer.Transport.Ws.Hub.{
  TargetedMessage, new_hub, on_register, on_broadcast, member, subscribers,
}
use auctioneer.Transport.Ws.Hub.Invariant.{IsValid, on_register-IsValid}
use auctioneer.Transport.Ws.Hub.Channels.{
  broadcasts, runs_broadcast, step, send_register, send_broadcast, receive_broadcast,
}
use auctioneer.Transport.Ws.Hub.Watching.{Watches, payloads_for}
use auctioneer.Transport.Ws.Handler.Watching.{sends, run-reaches}
use auctioneer.Transport.Ws.Hub.Queues.{given}
use auctioneer.Transport.Ws.Handler.{
  Server, Action, looping, done, connects, writes_next, pings_client, hub_does, serve_http, writes,
  pings, run, act, new_client,
}
use auctioneer.Transport.Ws.Handler.Order.{handed, handed_by}
use auctioneer.Transport.Ws.Handler.Race.{early_end, early_end-subscribed}

abbrev pub id : Bytes
id = codes "a1"

abbrev pub start : Server
start = record {
  hub = new_hub 8 (λ c. new_client 8 id);
  next = 3;
  reading = λ c. done;
  writing = λ c. done;
  wire = λ c. [];
}

start-IsValid : IsValid start.hub
unfolding new_hub new_client Map.get
start-IsValid = record {
  tidy = λ k. refl;
  no_repeat = λ k. tt;
  waiting = omega arith;
  fits = λ c. omega arith;
}

abbrev msg : Bytes → TargetedMessage
msg payload = record { auction_id = id; payload = payload }

-- Client 1 watches the auction.
abbrev pub watching : Server
watching = record start {
  hub = on_register (record { auction_id = id; client = 1 }) start.hub;
  writing = λ c. looping;
}

pub watching-IsValid : IsValid watching.hub
watching-IsValid =
    on_register-IsValid (record { auction_id = id; client = 1 }) start.hub start-IsValid

-- Two messages, of which one is written, a ping, and another client that comes.
abbrev morning : List Action
morning =
    hub_does (broadcasts (msg (codes "one")))
    ∷ connects id true
    ∷ hub_does runs_broadcast
    ∷ writes_next 1 true
    ∷ hub_does (broadcasts (msg (codes "two")))
    ∷ pings_client 1 true
    ∷ hub_does runs_broadcast
    ∷ []

abbrev or_start : Option Server → Server
or_start none = start
or_start (some s) = s

abbrev noon : Server
noon = or_start (run morning watching)

morning_runs : run morning watching ≡ some noon
unfolding run act step send_register send_broadcast receive_broadcast on_register on_broadcast
    new_hub Map.get Map.put bytes_eq serve_http writes pings new_client
morning_runs = refl

still_looping : noon.writing 1 ≡ looping
unfolding run act step send_register send_broadcast receive_broadcast on_register on_broadcast
    new_hub Map.get Map.put bytes_eq serve_http writes pings new_client
still_looping = refl

both_handed : handed_by morning watching 1 ≡ codes "one" ∷ codes "two" ∷ []
unfolding handed_by handed given run act step send_register send_broadcast receive_broadcast
    on_register on_broadcast new_hub Map.get Map.put bytes_eq serve_http writes pings new_client
both_handed = refl

pub unknown : Map.get id start.hub.clients ≡ none
unfolding new_hub Map.get
unknown = refl

no_register : start.hub.register ≡ []
unfolding new_hub
no_register = refl

no_unregister : start.hub.unregister ≡ []
unfolding new_hub
no_unregister = refl

early_end-subscribed_example :
    (s' : Server) × (run (early_end id 3) start ≡ some s')
    × (member 3 (subscribers id s'.hub) ≡ true)
    × ((s'.hub.heap 3).conn_closed ≡ true)
    × (s'.reading 3 ≡ done)
unfolding bytes_eq
early_end-subscribed_example =
    early_end-subscribed id start (bytes_eq→ne _ _ refl) no_register no_unregister unknown

pub watching-Watches : Watches id 1 watching.hub
unfolding on_register new_hub Map.get Map.put bytes_eq
watching-Watches = record { only = λ k n. rw n refl; registered = tt }

still_there : member 1 (subscribers id noon.hub) ≡ true
unfolding run act step send_register send_broadcast receive_broadcast on_register on_broadcast
    new_hub Map.get Map.put bytes_eq serve_http writes pings new_client
still_there = refl

run-reaches_example :
    (noon.wire 1 ++ (noon.hub.heap 1).send) ++ payloads_for id noon.hub.broadcast
    ≡ ((watching.wire 1 ++ (watching.hub.heap 1).send) ++ payloads_for id watching.hub.broadcast)
      ++ payloads_for id (sends morning)
run-reaches_example =
    run-reaches morning id 1 watching noon watching-IsValid watching-Watches (omega arith)
      (tt, (tt, (tt, (tt, (tt, (tt, (tt, tt))))))) morning_runs still_looping still_there
