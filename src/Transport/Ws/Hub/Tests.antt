-- ===== src/Transport/Ws/Hub/Tests.antt =====
-- A hub with a slow client and a quick one, and a hub whose channel `unregister` is full.
use auctioneer.Base.{
  All, ◌<◌, ℕ, List, ◌∷◌, Option, ◌+◌, ◌≤◌, ◌≡◌, refl, true, false, none, some, [], arith, length,
  length-replicate, replicate, if◌then◌else◌, ◌==◌,
}
use auctioneer.Text.{Bytes, codes, bytes_eq}
use auctioneer.Text.Map
use auctioneer.Text.Map.{contains}
use auctioneer.Transport.Ws.Hub.Channels.{
  Event, registers, broadcasts, runs_register, runs_broadcast, runs_unregister, steps, step,
  steps-IsValid, send_register, send_broadcast, receive_register, receive_unregister,
  receive_broadcast,
}
use auctioneer.Transport.Ws.Hub.{
  Client, Hub, subscribers, Subscription, TargetedMessage, on_broadcast, on_register, on_unregister,
  new_hub, close, close_conn, unregister_capacity,
}
use auctioneer.Transport.Ws.Hub.Sets.{full_ones}
use auctioneer.Transport.Ws.Hub.Closing.{closers}
use auctioneer.Transport.Ws.Hub.Broadcast.{
  Broadcasted, slow, on_broadcast-delivers, on_broadcast-stuck,
}
use auctioneer.Transport.Ws.Hub.Invariant.{IsValid, on_register-IsValid}

abbrev id : Bytes
id = codes "a1"

-- Client 1 has a channel for one message, which is full; all others have room.
abbrev clients : ℕ → Client
clients c = record {
  capacity = if c == 1 then 1 else 8;
  send = if c == 1 then codes "{}" ∷ [] else [];
  close_fn = some id;
  has_conn = true;
  conn_closed = false;
}

abbrev empty : Hub
empty = new_hub 8 clients

empty-IsValid : IsValid empty
unfolding new_hub Map.get
empty-IsValid = record {
  tidy = λ k. refl;
  no_repeat = λ k. tt;
  waiting = omega arith;
  fits = λ c. ground arith;
}

abbrev sub : ℕ → Subscription
sub c = record { auction_id = id; client = c }

abbrev hub : Hub
hub = on_register (sub 2) (on_register (sub 1) empty)

hub-IsValid : IsValid hub
hub-IsValid = on_register-IsValid (sub 2) _ (on_register-IsValid (sub 1) empty empty-IsValid)

abbrev news : TargetedMessage
news = record { auction_id = id; payload = codes "{}" }

room : length hub.unregister + closers hub.heap (slow news hub) ≤ unregister_capacity
unfolding on_register new_hub Map.get Map.put full_ones closers bytes_eq
room = omega arith

buffered : All (λ d. 0 < (hub.heap d).capacity) (subscribers id hub)
unfolding on_register new_hub Map.get Map.put bytes_eq
buffered = (omega arith, (omega arith, tt))

on_broadcast-delivers_example :
    (h' : Hub) × (on_broadcast news hub ≡ some h') × Broadcasted news hub h'
on_broadcast-delivers_example =
    on_broadcast-delivers news hub (hub-IsValid.no_repeat id) hub-IsValid.tidy buffered room

abbrev crowded : Hub
crowded = record hub { unregister = replicate 1024 (sub 3) }

one_closer : closers crowded.heap (slow news crowded) ≡ 1
unfolding on_register new_hub Map.get Map.put full_ones closers bytes_eq
one_closer = refl

on_broadcast-stuck_example : on_broadcast news crowded ≡ none
on_broadcast-stuck_example =
    on_broadcast-stuck news crowded (hub-IsValid.no_repeat id)
      (omega (arith, length-replicate 1024 (sub 3)))
      (omega (arith, length-replicate 1024 (sub 3), one_closer))

-- Two clients register, a message finds the first one full, and its own unregistering comes after.
abbrev day : List Event
day =
    registers (sub 1)
    ∷ registers (sub 2)
    ∷ runs_register
    ∷ broadcasts news
    ∷ runs_register
    ∷ runs_broadcast
    ∷ runs_unregister
    ∷ []

abbrev or_empty : Option Hub → Hub
or_empty none = empty
or_empty (some h) = h

day_ends : steps day empty ≡ some (or_empty (steps day empty))
unfolding steps step send_register send_broadcast receive_register receive_unregister
    receive_broadcast on_register on_unregister on_broadcast new_hub Map.get Map.put bytes_eq close
    close_conn
day_ends = refl

steps-IsValid_example : IsValid (or_empty (steps day empty))
steps-IsValid_example = steps-IsValid day empty (or_empty (steps day empty)) empty-IsValid day_ends
