-- ===== src/Transport/Ws/Hub.antt =====
-- hub.go and the client of handler.go. A client is a number (its pointer); its buffered channel and
-- its connection are kept beside it. Each case of the loop `Run` is one step, under the hub's mutex.
-- A send on a full channel waits for a receiver; `Run` is the only receiver of the hub's channels,
-- so where `Run` itself sends on a full one it is stuck for good, which is `none` here.
pub mod Sets
pub mod Invariant
pub mod Fanout
pub mod Closing
pub mod Broadcast
pub mod Channels
pub mod Queues
pub mod Untouched
pub mod Members
pub mod Watching
mod Tests
use auctioneer.Base.{
  ℕ, suc, ◌+◌, ◌==◌, Bool, true, false, not, ◌||◌, Option, none, some, List, [], ◌∷◌, ◌++◌,
  if◌then◌else◌, ltb, length,
}
use auctioneer.Text.{Bytes}
use auctioneer.Text.Map
use auctioneer.Text.Map.{Map}

-- `close_fn` is the auction that the client's closeFn unregisters it from, if it has one.
pub record Client : Type 0 where
  pub capacity : ℕ
  pub send : List Bytes
  pub close_fn : Option Bytes
  pub has_conn : Bool
  pub conn_closed : Bool

pub record Subscription : Type 0 where
  pub auction_id : Bytes
  pub client : ℕ

pub record TargetedMessage : Type 0 where
  pub auction_id : Bytes
  pub payload : Bytes

-- The three channels hold what was sent and not yet received; `heap` is the clients' memory.
pub record Hub : Type 0 where
  pub queue_depth : ℕ
  pub dropped : ℕ
  pub register : List Subscription
  pub unregister : List Subscription
  pub broadcast : List TargetedMessage
  pub clients : Map (List ℕ)
  pub heap : ℕ → Client

abbrev pub unregister_capacity : ℕ
unregister_capacity = 1024

abbrev pub member : ℕ → List ℕ → Bool
member c [] = false
member c (d ∷ ds) = d == c || member c ds

-- set[client] = struct{}{} and delete(set, client)
unfoldable pub add : ℕ → List ℕ → List ℕ
add c ds = if member c ds then ds else c ∷ ds

unfoldable pub remove : ℕ → List ℕ → List ℕ
remove c [] = []
remove c (d ∷ ds) = let rest = remove c ds in if d == c then rest else d ∷ rest

-- The set of an auction; reading a missing key gives an empty one.
abbrev pub members_of : Option (List ℕ) → List ℕ
members_of none = []
members_of (some set) = set

abbrev pub subscribers : Bytes → Hub → List ℕ
subscribers auction_id h = members_of (Map.get auction_id h.clients)

unfoldable pub update : ℕ → Client → (ℕ → Client) → ℕ → Client
update c v heap d = if d == c then v else heap d

-- NewBufferedClient
unfoldable pub new_buffered_client : ℕ → Client
new_buffered_client queue_depth = record {
  capacity = queue_depth;
  send = [];
  close_fn = none;
  has_conn = false;
  conn_closed = false;
}

unfoldable pub new_hub : ℕ → (ℕ → Client) → Hub
new_hub queue_depth heap = record {
  queue_depth = queue_depth;
  dropped = 0;
  register = [];
  unregister = [];
  broadcast = [];
  clients = [];
  heap = heap;
}

-- case sub := <-h.register
unfoldable pub on_register : Subscription → Hub → Hub
unfolding add
on_register sub h = record h {
  clients = Map.put sub.auction_id (add sub.client (subscribers sub.auction_id h)) h.clients;
}

-- Storing a set that lost clients: an empty one goes with its key.
pub store_set : Bytes → List ℕ → Map (List ℕ) → Map (List ℕ)
store_set auction_id [] m = Map.delete auction_id m
store_set auction_id (c ∷ cs) m = Map.put auction_id (c ∷ cs) m

-- case sub := <-h.unregister
unfoldable pub on_unregister : Subscription → Hub → Hub
unfolding remove store_set
on_unregister sub h = elim (Map.get sub.auction_id h.clients) [
  | none ↦ h
  | some set ↦ record h { clients = store_set sub.auction_id (remove sub.client set) h.clients }
]

-- The loop over the subscribers: a client with room gets the payload, any other is dropped. Gives
-- the hub and the dropped clients in the order in which they were met.
unfoldable pub deliver : Bytes → List ℕ → Hub → Hub × List ℕ
unfolding update
deliver payload [] h = (h, [])
deliver payload (c ∷ cs) h =
    let client = h.heap c in
    let sent = record h {
      heap = update c (record client { send = client.send ++ payload ∷ [] }) h.heap;
    } in
    let full = record h { dropped = suc h.dropped } in
    elim (ltb (length client.send) client.capacity) [
      | true ↦ deliver payload cs sent
      | false ↦ (let (h', dropped) = deliver payload cs full in (h', c ∷ dropped))
    ]

-- client.close(): closeFn sends on `unregister`, then the connection is closed.
unfoldable pub close_conn : ℕ → Hub → Hub
close_conn c h = record h {
  heap =
      update c (record (h.heap c) { conn_closed = (h.heap c).has_conn || (h.heap c).conn_closed })
        h.heap;
}

unfoldable pub close : ℕ → Hub → Option Hub
close c h = elim (h.heap c).close_fn [
  | none ↦ some (close_conn c h)
  | some auction_id ↦
      if ltb (length h.unregister) unregister_capacity
      then some (
          close_conn c (record h {
            unregister = h.unregister ++ record { auction_id = auction_id; client = c } ∷ [];
          }))
      else none
]

unfoldable pub close_all : List ℕ → Hub → Option Hub
close_all [] h = some h
close_all (c ∷ cs) h = elim (close c h) [ none ↦ none | some h' ↦ close_all cs h' ]

unfoldable pub remove_all : List ℕ → List ℕ → List ℕ
unfolding remove
remove_all [] set = set
remove_all (c ∷ cs) set = remove_all cs (remove c set)

-- case msg := <-h.broadcast. The map is changed under the mutex that is held to the end, so the
-- removals from the set are made together.
pub drop_clients : Bytes → List ℕ → Hub → Option Hub
drop_clients auction_id [] h = some h
drop_clients auction_id (c ∷ cs) h = elim (close_all (c ∷ cs) h) [
  | none ↦ none
  | some h' ↦ some (record h' {
    clients = store_set auction_id (remove_all (c ∷ cs) (subscribers auction_id h')) h'.clients;
  })
]

unfoldable pub on_broadcast : TargetedMessage → Hub → Option Hub
unfolding drop_clients deliver close_all remove_all store_set
on_broadcast msg h =
    let (h', dropped) = deliver msg.payload (subscribers msg.auction_id h) h in
    drop_clients msg.auction_id dropped h'

unfoldable pub known_auctions : Hub → List Bytes
known_auctions h = Map.keys h.clients
