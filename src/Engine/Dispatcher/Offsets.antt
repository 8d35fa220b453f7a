-- ===== src/Engine/Dispatcher/Offsets.antt =====
-- Where the dispatcher reads on: the offsets after the known auctions were taken in, and after a read.
use auctioneer.Base.{◌≡◌, refl, ◌∙◌, Option, none, some, List, [], ◌∷◌, arith, if◌then◌else◌, ℤ}
use auctioneer.Text.{Bytes, codes, bytes_eq, bytes_eq_iff}
use auctioneer.Text.Map.{Map, get, put, delete, keys, contains, get-delete, get-put, contains-keys}
use auctioneer.Engine.Types.{AuctionEvent, Error, Result, ok, err}
use auctioneer.Base.{ℕ, ap}
use auctioneer.Engine.Events.{Request, Answer, read_events}
use auctioneer.Engine.Dispatcher.{
  EventDispatcher, forget, start_new, sync, advance, broadcasts, tick, poll_some, take_events,
}

get-forget :
    (k : Bytes) (known ids : List Bytes) (m : Map Bytes)
    → get k (forget known ids m)
      ≡ (if contains k ids then (if contains k known then get k m else none) else get k m)
unfolding forget
get-forget k known [] m = refl
get-forget k known (id ∷ ids) m = ground (
  arith,
  get-forget k known ids m,
  get-forget k known ids (delete id m),
  get-delete id k m,
  bytes_eq_iff id k,
)

-- The offset to read on from: the one that is there, or the start of the stream.
unfoldable pub offset_or_start : Option Bytes → Bytes
offset_or_start none = codes "0-0"
offset_or_start (some o) = o

get-start_new :
    (k : Bytes) (known : List Bytes) (m : Map Bytes)
    → get k (start_new known m)
      ≡ (if contains k known then some (offset_or_start (get k m)) else get k m)
unfolding start_new offset_or_start
get-start_new k [] m = refl
get-start_new k (id ∷ ids) m = ground (
  arith,
  get-start_new k ids m,
  get-start_new k ids (put id (codes "0-0") m),
  get-put id k (codes "0-0") m,
  bytes_eq_iff id k,
)

pub sync_lem :
    (k : Bytes) (known : List Bytes) (m : Map Bytes)
    → get k (sync known m) ≡ (if contains k known then some (offset_or_start (get k m)) else none)
unfolding sync
sync_lem k known m = ground (
  arith,
  get-start_new k known (forget known (keys m) m),
  get-forget k known (keys m) m,
  contains-keys k m,
)

-- The id of the last event of an auction, or what was there before.
unfoldable pub last_id : Bytes → Option Bytes → List AuctionEvent → Option Bytes
last_id k old [] = old
last_id k old (e ∷ es) = last_id k (if bytes_eq e.auction_id k then some e.id else old) es

get-advance :
    (k : Bytes) (es : List AuctionEvent) (m : Map Bytes)
    → get k (advance es m) ≡ last_id k (get k m) es
unfolding advance last_id
get-advance k [] m = refl
get-advance k (e ∷ es) m =
    get-advance k es (put e.auction_id e.id m) ∙ rw (get-put e.auction_id k e.id m)

module _ (xread : Request → Answer) (n : ℕ) where
  unfoldable pub read : Map Bytes → ℤ → Result (List AuctionEvent)
  read offsets count = read_events xread count n offsets

  read-nothing : (count : ℤ) → read [] count ≡ ok []
  unfolding read read_events
  read-nothing count = refl

  pub poll_some-ok :
      (m : Map Bytes) (count : ℤ) (events : List AuctionEvent)
      → read m count ≡ ok events
      → poll_some read (record { stream_count = count; offsets = m })
        ≡ (record { stream_count = count; offsets = advance events m }, broadcasts events)
  unfolding poll_some take_events advance broadcasts
  poll_some-ok [] count [] answer = refl
  poll_some-ok [] count (e ∷ es) answer = absurd (cc (read-nothing count, answer))
  poll_some-ok (o ∷ m) count events answer =
      ap (take_events (record { stream_count = count; offsets = o ∷ m })) answer

  pub poll_some-err :
      (m : Map Bytes) (count : ℤ) (e : Error)
      → read m count ≡ err e
      → poll_some read (record { stream_count = count; offsets = m })
        ≡ (record { stream_count = count; offsets = m }, [])
  unfolding poll_some take_events
  poll_some-err [] count e answer = refl
  poll_some-err (o ∷ m) count e answer =
      ap (take_events (record { stream_count = count; offsets = o ∷ m })) answer

  -- Where the store gives events, a tick broadcasts each of them once, in their order. The next tick
  -- reads each auction on from its last event; one without an event from where it was, or from the
  -- start of the stream if it is newly known; and no auction that is neither known nor in an event.
  pub tick-ok :
      (known : List Bytes) (d : EventDispatcher) (events : List AuctionEvent)
      → read (sync known d.offsets) d.stream_count ≡ ok events
      → ((tick read known d).1 ≡ broadcasts events)
        × ((k : Bytes)
            → get k (tick read known d).0.offsets
              ≡ last_id k
                  (if contains k known then some (offset_or_start (get k d.offsets)) else none)
                  events)
  unfolding tick
  tick-ok known d events answer =
      let run = poll_some-ok (sync known d.offsets) d.stream_count events answer in
      (
        ap (λ r. r.1) run,
        λ k.
            ap (λ r. get k r.0.offsets) run
            ∙ get-advance k events (sync known d.offsets)
            ∙ rw (sync_lem k known d.offsets),
      )

  -- Where reading fails, a tick broadcasts nothing and skips no event: the offset of each known
  -- auction stays what it was, or is the start of the stream if it is newly known.
  pub tick-err :
      (known : List Bytes) (d : EventDispatcher) (e : Error)
      → read (sync known d.offsets) d.stream_count ≡ err e
      → ((tick read known d).1 ≡ [])
        × ((k : Bytes)
            → get k (tick read known d).0.offsets
              ≡ (if contains k known then some (offset_or_start (get k d.offsets)) else none))
  unfolding tick
  tick-err known d e answer =
      let run = poll_some-err (sync known d.offsets) d.stream_count e answer in
      (ap (λ r. r.1) run, λ k. ap (λ r. get k r.0.offsets) run ∙ sync_lem k known d.offsets)
