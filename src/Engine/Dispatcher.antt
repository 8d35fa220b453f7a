-- ===== src/Engine/Dispatcher.antt =====
-- dispatcher.go. A tick of `Run` takes the known auctions from the hub, reads the store's events and
-- gives the calls of `Broadcast` that it makes, in order. The store is the argument `read`, the
-- lag metric and the log are left out.
pub mod Offsets
pub mod Messages
pub mod Delivery
pub mod Runs
pub mod RunTests
mod Tests
use auctioneer.Base.{
  Bool, true, false, Option, none, some, List, [], ◌∷◌, if◌then◌else◌, ℤ, pos, leb_ℤ,
}
use auctioneer.Text.{Bytes, codes}
use auctioneer.Text.Map.{Map, get, put, delete, keys, contains}
use auctioneer.Engine.Types.{AuctionEvent, Error, Result, ok, err}

-- wsapi.Message
pub record Message : Type 0 where
  pub auction_id : Bytes
  pub type : Bytes
  pub bid_id : Bytes
  pub user_id : Bytes
  pub amount : ℤ
  pub version : ℤ
  pub timestamp : ℤ

pub record EventDispatcher : Type 0 where
  pub stream_count : ℤ
  pub offsets : Map Bytes

unfoldable pub new_event_dispatcher : ℤ → EventDispatcher
new_event_dispatcher stream_count = record {
  stream_count = if leb_ℤ stream_count (pos 0) then pos 256 else stream_count;
  offsets = [];
}

-- The loop over the ids of the offsets: those that are not known are deleted.
unfoldable pub forget : List Bytes → List Bytes → Map Bytes → Map Bytes
forget known [] offsets = offsets
forget known (id ∷ ids) offsets =
    forget known ids (if contains id known then offsets else delete id offsets)

-- The loop over the known auctions: those without an offset start at "0-0".
unfoldable pub start_new : List Bytes → Map Bytes → Map Bytes
start_new [] offsets = offsets
start_new (id ∷ ids) offsets =
    start_new ids (elim (get id offsets) [ none ↦ put id (codes "0-0") offsets | some o ↦ offsets ])

unfoldable pub sync : List Bytes → Map Bytes → Map Bytes
unfolding forget start_new
sync known offsets = start_new known (forget known (keys offsets) offsets)

-- The loop over the events, for the offsets and for the calls of `Broadcast`.
unfoldable pub advance : List AuctionEvent → Map Bytes → Map Bytes
advance [] offsets = offsets
advance (e ∷ es) offsets = advance es (put e.auction_id e.id offsets)

unfoldable pub message_of : AuctionEvent → Message
message_of e = record {
  auction_id = e.auction_id;
  type = codes "bid_accepted";
  bid_id = e.bid_id;
  user_id = e.user_id;
  amount = e.amount_cents;
  version = e.version;
  timestamp = e.server_unix_milli;
}

unfoldable pub broadcasts : List AuctionEvent → List (Bytes × Message)
unfolding message_of
broadcasts [] = []
broadcasts (e ∷ es) = (e.auction_id, message_of e) ∷ broadcasts es

-- What follows the call of ReadEvents.
unfoldable pub take_events :
    EventDispatcher → Result (List AuctionEvent) → EventDispatcher × List (Bytes × Message)
unfolding advance broadcasts
take_events d (err e) = (d, [])
take_events d (ok events) = (record d { offsets = advance events d.offsets }, broadcasts events)

module _ (read : Map Bytes → ℤ → Result (List AuctionEvent)) where
  -- `continue` where there are no offsets.
  unfoldable pub poll_some : EventDispatcher → EventDispatcher × List (Bytes × Message)
  unfolding take_events
  poll_some d = elim d.offsets [
    | [] ↦ (d, [])
    | o ∷ os ↦ take_events d (read d.offsets d.stream_count)
  ]

  -- case <-ticker.C
  unfoldable pub tick : List Bytes → EventDispatcher → EventDispatcher × List (Bytes × Message)
  unfolding sync poll_some
  tick known d = poll_some (record d { offsets = sync known d.offsets })
