-- ===== src/Engine/Dispatcher/Tests.antt =====
-- Readings for two known auctions: one that gives an event, and one that fails.
use auctioneer.Base.{◌≡◌, refl, List, [], ◌∷◌, pos}
use auctioneer.Text.{Bytes, codes, bytes_eq}
use auctioneer.Text.Map.{get, put, delete, keys}
use auctioneer.Text.Parse.{parse_int64}
use auctioneer.Engine.Types.{AuctionEvent, deadline_exceeded, ok, err}
use auctioneer.Engine.Router.{shard}
use auctioneer.Engine.Events.{
  Request, Answer, streams, failed, read_events, group, val, event_from_stream, last_used,
  read_shards,
}
use auctioneer.Engine.Dispatcher.{EventDispatcher, new_event_dispatcher, sync, forget, start_new}
use auctioneer.Engine.Dispatcher.Offsets.{read}

abbrev event : AuctionEvent
event = record {
  id = codes "5-0";
  auction_id = codes "a1";
  bid_id = codes "b1";
  user_id = codes "u1";
  amount_cents = pos 150;
  version = pos 1;
  server_unix_milli = pos 4000000;
}

abbrev answering : Request → Answer
answering request = streams (
    ((
      codes "5-0",
      (codes "auction_id", codes "a1")
          ∷ (codes "bid_id", codes "b1")
          ∷ (codes "user_id", codes "u1")
          ∷ (codes "amount", codes "150")
          ∷ (codes "version", codes "1")
          ∷ (codes "server_ts", codes "4000000")
          ∷ [],
    )
      ∷ [])
    ∷ [])

abbrev failing : Request → Answer
failing request = failed deadline_exceeded

abbrev known : List Bytes
known = codes "a1" ∷ codes "a2" ∷ []

abbrev dispatcher : EventDispatcher
dispatcher = record {
  stream_count = pos 256;
  offsets = (codes "a2", codes "7-0") ∷ (codes "a3", codes "9-0") ∷ [];
}

default_count : (new_event_dispatcher (pos 0)).stream_count ≡ pos 256
unfolding new_event_dispatcher
default_count = refl

answered :
    read answering 1 (sync known dispatcher.offsets) dispatcher.stream_count ≡ ok (event ∷ [])
unfolding read read_events sync forget start_new get put delete keys bytes_eq event_from_stream val
    parse_int64 group last_used read_shards shard
answered = refl

refused :
    read failing 1 (sync known dispatcher.offsets) dispatcher.stream_count ≡ err deadline_exceeded
unfolding read read_events sync forget start_new get put delete keys bytes_eq group last_used
    read_shards shard
refused = refl
