-- ===== src/Engine/Dispatcher/Messages.antt =====
-- The messages of one auction among all that are broadcast, and the offset behind them.
use auctioneer.Base.{
  ◌≡◌, refl, Bool-cases, inl, inr, Option, none, some, List, [], ◌∷◌, ◌++◌, map, arith,
  if◌then◌else◌,
}
use auctioneer.Text.{Bytes, codes, bytes_eq}
use auctioneer.Text.Map.{Map, get, put, delete, keys, contains, IsMap, IsMap-put, IsMap-delete}
use auctioneer.Engine.Types.{AuctionEvent}
use auctioneer.Engine.Events.{event_from_stream}
use auctioneer.Engine.Events.Streams.{Entry, id_behind}
use auctioneer.Engine.Events.Each.{events_of}
use auctioneer.Engine.Dispatcher.{Message, forget, start_new, sync, advance, message_of, broadcasts}
use auctioneer.Engine.Dispatcher.Offsets.{last_id}

pub IsMap-forget : (known ids : List Bytes) (m : Map Bytes) → IsMap m → IsMap (forget known ids m)
unfolding forget
IsMap-forget known [] m h = h
IsMap-forget known (id ∷ ids) m h = elim (Bool-cases (contains id known)) [
  | inl k ↦ rw k (IsMap-forget known ids m h)
  | inr u ↦ rw u (IsMap-forget known ids (delete id m) (IsMap-delete id m h))
]

pub IsMap-start_new : (known : List Bytes) (m : Map Bytes) → IsMap m → IsMap (start_new known m)
unfolding start_new
IsMap-start_new [] m h = h
IsMap-start_new (id ∷ ids) m h = IsMap-start_new ids _ (started (get id m))
  where
    started : (o : Option Bytes) → IsMap (elim o [ none ↦ put id (codes "0-0") m | some o ↦ m ])
    started none = IsMap-put id (codes "0-0") m h
    started (some o) = h

pub IsMap-sync : (known : List Bytes) (m : Map Bytes) → IsMap m → IsMap (sync known m)
unfolding sync
IsMap-sync known m h = IsMap-start_new known _ (IsMap-forget known (keys m) m h)

pub IsMap-advance : (es : List AuctionEvent) (m : Map Bytes) → IsMap m → IsMap (advance es m)
unfolding advance
IsMap-advance [] m h = h
IsMap-advance (e ∷ es) m h = IsMap-advance es _ (IsMap-put e.auction_id e.id m h)

-- The messages that are sent for an auction, in their order.
unfoldable pub messages_of : Bytes → List (Bytes × Message) → List Message
messages_of a [] = []
messages_of a ((b, msg) ∷ sent) =
    let rest = messages_of a sent in if bytes_eq b a then msg ∷ rest else rest

pub messages_of-append :
    (a : Bytes) (xs ys : List (Bytes × Message))
    → messages_of a (xs ++ ys) ≡ messages_of a xs ++ messages_of a ys
unfolding messages_of
messages_of-append a [] ys = refl
messages_of-append a ((b, msg) ∷ xs) ys = ground (arith, messages_of-append a xs ys)

pub messages_of-broadcasts :
    (a : Bytes) (es : List AuctionEvent)
    → messages_of a (broadcasts es) ≡ map message_of (events_of a es)
unfolding messages_of broadcasts events_of
messages_of-broadcasts a [] = refl
messages_of-broadcasts a (e ∷ es) = ground (arith, messages_of-broadcasts a es)

-- Behind the events of an auction its offset is the id of the last of them.
pub last_of : Bytes → List AuctionEvent → Bytes
last_of o [] = o
last_of o (e ∷ es) = last_of e.id es

pub last_id-events_of :
    (a o : Bytes) (es : List AuctionEvent)
    → last_id a (some o) es ≡ some (last_of o (events_of a es))
unfolding last_id last_of events_of
last_id-events_of a o [] = refl
last_id-events_of a o (e ∷ es) =
    ground (arith, last_id-events_of a o es, last_id-events_of a e.id es)

pub last_of-entries :
    (o : Bytes) (entries : List Entry)
    → last_of o (map event_from_stream entries) ≡ id_behind o entries
unfolding last_of id_behind event_from_stream
last_of-entries o [] = refl
last_of-entries o ((id, fields) ∷ entries) = last_of-entries id entries
