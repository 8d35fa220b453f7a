-- ===== src/Transport/Ws/Handler.antt =====
-- handler.go: the clients behind a WebSocket. What the library's calls give (the upgrade, ReadMessage,
-- WriteMessage, the ticks of the pings) is chosen by the actions. A step in which a goroutine has to
-- wait does not happen: `none`.
pub mod Kept
pub mod Order
pub mod Watching
pub mod Race
pub mod Tests
use auctioneer.Base.{
  ℕ, suc, ◌+◌, ◌==◌, Bool, true, false, Option, none, some, List, [], ◌∷◌, ◌++◌, if◌then◌else◌,
}
use auctioneer.Text.{Bytes, codes, bytes_eq}
use auctioneer.Transport.Ws.Hub.{Hub, Client, update, close}
use auctioneer.Transport.Ws.Hub.Channels.{Event, send_register, step}

-- A goroutine of a client: in its loop, in its deferred `close`, or gone (or never started).
pub data Pump : Type 0 where
  looping closing done : Pump

-- The hub with the goroutines `readPump` and `writePump` of its clients, and what was written to
-- each connection. `next` is the address of the next client.
pub record Server : Type 0 where
  pub hub : Hub
  pub next : ℕ
  pub reading : ℕ → Pump
  pub writing : ℕ → Pump
  pub wire : ℕ → List Bytes

pub data Reply : Type 0 where
  bad_request no_upgrade : Reply
  serving : ℕ → Reply

abbrev pub at {ℓ} : {A : Type ℓ} → ℕ → A → (ℕ → A) → ℕ → A
at c v f d = if d == c then v else f d

-- The client of a connection, made by ServeHTTP.
unfoldable pub new_client : ℕ → Bytes → Client
new_client queue_depth auction_id = record {
  capacity = queue_depth;
  send = [];
  close_fn = some auction_id;
  has_conn = true;
  conn_closed = false;
}

-- ServeHTTP up to the start of the pumps; `upgrades` says whether the upgrade succeeds.
unfoldable pub serve_http : Bytes → Bool → Server → Option (Reply × Server)
unfolding new_client
serve_http auction_id upgrades s =
    if bytes_eq auction_id []
    then some (bad_request, s)
    else if upgrades
    then elim (send_register (record { auction_id = auction_id; client = s.next })
        (record s.hub {
          heap = update s.next (new_client s.hub.queue_depth auction_id) s.hub.heap;
        })) [
          | none ↦ none
          | some hub ↦ some (
            serving s.next,
            record s {
              hub = hub;
              next = suc s.next;
              reading = at s.next looping s.reading;
              writing = at s.next looping s.writing;
              wire = at s.next [] s.wire;
            },
          )
        ]
    else some (no_upgrade, s)

-- The call of `close`, once there is room for what closeFn sends.
abbrev pub closed : ℕ → Server → Option Server
closed c s = elim (close c s.hub) [ none ↦ none | some hub ↦ some (record s { hub = hub }) ]

-- What a goroutine does next, if it is in its loop, or in its deferred call.
unfoldable pub if_looping : Pump → Option Server → Option Server
if_looping looping next = next
if_looping closing next = none
if_looping done next = none

unfoldable pub if_closing : Pump → Option Server → Option Server
if_closing looping next = none
if_closing closing next = next
if_closing done next = none

-- readPump: ReadMessage fails, and then the deferred call.
unfoldable pub read_fails : ℕ → Server → Option Server
unfolding if_looping
read_fails c s = if_looping (s.reading c) (some (record s { reading = at c closing s.reading }))

unfoldable pub read_closes : ℕ → Server → Option Server
unfolding if_closing
read_closes c s = if_closing (s.reading c) (closed c (record s { reading = at c done s.reading }))

-- writePump: the next message is taken from the channel. `written` says whether WriteMessage succeeds.
-- (The hub never closes the channel.)
unfoldable pub write_next : ℕ → Bool → List Bytes → Server → Option Server
write_next c written [] s = none
write_next c written (msg ∷ rest) s =
    let taken = record s {
      hub = record s.hub { heap = update c (record (s.hub.heap c) { send = rest }) s.hub.heap };
    } in
    if written
    then some (record taken { wire = at c (s.wire c ++ msg ∷ []) s.wire })
    else some (record taken { writing = at c closing s.writing })

unfoldable pub writes : ℕ → Bool → Server → Option Server
unfolding if_looping write_next
writes c written s = if_looping (s.writing c) (write_next c written (s.hub.heap c).send s)

-- writePump: a tick of the ticker, with a ping that succeeds or not.
unfoldable pub pings : ℕ → Bool → Server → Option Server
unfolding if_looping
pings c written s =
    if_looping (s.writing c)
      (some (if written then s else record s { writing = at c closing s.writing }))

unfoldable pub write_closes : ℕ → Server → Option Server
unfolding if_closing
write_closes c s = if_closing (s.writing c) (closed c (record s { writing = at c done s.writing }))

pub data Action : Type 0 where
  connects : Bytes → Bool → Action
  fails_to_read closes_reader closes_writer : ℕ → Action
  writes_next pings_client : ℕ → Bool → Action
  hub_does : Event → Action

abbrev pub without_reply : Option (Reply × Server) → Option Server
without_reply none = none
without_reply (some (reply, s)) = some s

unfoldable pub act : Action → Server → Option Server
unfolding serve_http read_fails read_closes writes pings write_closes step
act (connects auction_id upgrades) s = without_reply (serve_http auction_id upgrades s)
act (fails_to_read c) s = read_fails c s
act (closes_reader c) s = read_closes c s
act (closes_writer c) s = write_closes c s
act (writes_next c written) s = writes c written s
act (pings_client c written) s = pings c written s
act (hub_does e) s = elim (step e s.hub) [ none ↦ none | some hub ↦ some (record s { hub = hub }) ]

unfoldable pub run : List Action → Server → Option Server
unfolding act
run [] s = some s
run (x ∷ xs) s = elim (act x s) [ none ↦ none | some s' ↦ run xs s' ]
