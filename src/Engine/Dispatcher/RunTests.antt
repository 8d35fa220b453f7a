-- ===== src/Engine/Dispatcher/RunTests.antt =====
-- Two ticks over a stream with one entry: the first finds Redis down, the second reads.
use auctioneer.Base.{
  ℕ, ◌≡◌, refl, Bool, true, false, Bool-cases, inl, inr, List, [], ◌∷◌, ◌++◌, arith, if◌then◌else◌,
  pos,
}
use auctioneer.Text.{Bytes, codes, bytes_eq, bytes_eq_iff, bytes_eq→ne}
use auctioneer.Text.Map.{get, put, delete, keys}
use auctioneer.Engine.Types.{deadline_exceeded, ok}
use auctioneer.Engine.Redis.{Fields}
use auctioneer.Engine.Keys.{events_key}
use auctioneer.Engine.Keys.Distinct.{events_key-eq}
use auctioneer.Engine.Router.{shard}
use auctioneer.Engine.Events.{
  Request, Answer, failed, val, event_from_stream, read_events, group, last_used, read_shards,
}
use auctioneer.Engine.Events.Streams.{Entry, World, Answers, HasIds, limited, asked, id_behind}
use auctioneer.Engine.Events.Simple.{
  behind, behind_id, xread, xread-Answers, one_entry, one_entry-HasIds,
}
use auctioneer.Engine.Events.Each.{Names, events_of, new_events, read_events-each}
use auctioneer.Engine.Dispatcher.{EventDispatcher, new_event_dispatcher, sync, forget, start_new}
use auctioneer.Engine.Dispatcher.Offsets.{read, offset_or_start}
use auctioneer.Engine.Dispatcher.Messages.{messages_of}
use auctioneer.Engine.Dispatcher.Delivery.{Tick, IsFair, HasRead, announced}
use auctioneer.Engine.Dispatcher.Runs.{run, last_stream, run-delivers, run-drains}

abbrev pub a : Bytes
a = codes "a1"

abbrev pub fields : Fields
fields =
    (codes "auction_id", codes "a1")
    ∷ (codes "bid_id", codes "b1")
    ∷ (codes "user_id", codes "u1")
    ∷ (codes "amount", codes "150")
    ∷ (codes "version", codes "1")
    ∷ (codes "server_ts", codes "4000000")
    ∷ []

abbrev pub world : World
world = one_entry (events_key a) (codes "1-0") fields

unfoldable pub down : Request → Answer
down r = failed deadline_exceeded

down-Answers : Answers behind world down
unfolding down
down-Answers = record { answer = λ r reads e. tt }

abbrev pub first : Tick
first = record { known = a ∷ []; world = world; xread = down }

abbrev pub second : Tick
second = record { known = a ∷ []; world = world; xread = xread world }

world-HasIds : HasIds behind world
unfolding bytes_eq
world-HasIds =
    one_entry-HasIds (events_key a) (codes "1-0") fields (bytes_eq→ne _ _ refl)
      (bytes_eq→ne _ _ refl)

Names-if :
    (b : Bytes) (test : Bool) (xs ys : List Entry)
    → Names b xs
    → Names b ys
    → Names b (if test then xs else ys)
Names-if b true xs ys hx hy = hx
Names-if b false xs ys hx hy = hy

-- Only the stream of the auction has entries.
world-Names : (i : ℕ) (b id : Bytes) → Names b (behind id (world i (events_key b)))
unfolding behind behind_id val bytes_eq
world-Names i b id = elim (Bool-cases (bytes_eq a b)) [
  | inr other ↦ rw (events_key-eq a b, other) (Names-if b _ [] [] tt tt)
  | inl same ↦
      rw (events_key-eq a b, same)
        (Names-if b _ ((codes "1-0", fields) ∷ []) _ ((bytes_eq_iff a b).0 same, tt)
          (Names-if b (bytes_eq (codes "1-0") id) [] [] tt tt))
]

pub first-IsFair : IsFair behind 1 a first
unfolding bytes_eq
first-IsFair = record {
  is_known = refl;
  ids = world-HasIds;
  names = world-Names;
  answers = down-Answers;
}

pub second-IsFair : IsFair behind 1 a second
unfolding bytes_eq
second-IsFair = record {
  is_known = refl;
  ids = world-HasIds;
  names = world-Names;
  answers = xread-Answers world;
}

abbrev pub stream : List Entry
stream = (codes "1-0", fields) ∷ []

run-delivers_example :
    (taken rest : List Entry) × (last_stream behind 1 a [] (first ∷ second ∷ []) ≡ taken ++ rest)
    × (messages_of a (run behind 1 a (first ∷ second ∷ []) (new_event_dispatcher (pos 0))).1
        ≡ announced taken)
unfolding bytes_eq shard events_key
run-delivers_example =
    run-delivers behind 1 a (omega arith) (omega arith) (pos 0) (first ∷ second ∷ [])
      ((first-IsFair, (stream, refl), (second-IsFair, ([], refl), tt)))

abbrev fresh : EventDispatcher
fresh = record { stream_count = pos 256; offsets = [] }

fresh-HasRead : HasRead behind 1 a fresh []
unfolding get offset_or_start id_behind
fresh-HasRead = record { is_map = tt; offset = refl }

read_second :
    read (xread world) 1 (sync (a ∷ []) []) (pos 256)
    ≡ ok (event_from_stream (codes "1-0", fields) ∷ [])
unfolding read read_events sync forget start_new get put delete keys bytes_eq event_from_stream
    group last_used read_shards shard xread asked limited behind events_key
read_second = refl

run-drains_example : messages_of a (run behind 1 a (second ∷ []) fresh).1 ≡ announced stream
unfolding bytes_eq events_key shard
run-drains_example =
    run-drains behind 1 a (omega arith) (omega arith) (second ∷ []) fresh 255 [] stream refl
      fresh-HasRead (second-IsFair, refl, (_, read_second), tt) (omega arith)

read_one :
    read_events (xread world) (pos 256) 1 ((a, codes "0-0") ∷ [])
    ≡ ok (event_from_stream (codes "1-0", fields) ∷ [])
unfolding read_events bytes_eq event_from_stream group last_used read_shards shard xread asked
    limited behind events_key
read_one = refl

read_events-each_example :
    events_of a (event_from_stream (codes "1-0", fields) ∷ [])
    ≡ new_events behind world 1 (pos 256) world-Names (shard 1 a) a (get a ((a, codes "0-0") ∷ []))
unfolding get
read_events-each_example =
    read_events-each behind world 1 (pos 256) world-Names (xread world) a ((a, codes "0-0") ∷ []) _
      (xread-Answers world) (omega arith) (omega arith) (refl, tt) read_one
