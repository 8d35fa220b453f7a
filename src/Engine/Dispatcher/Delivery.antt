-- ===== src/Engine/Dispatcher/Delivery.antt =====
-- One auction over many ticks: the part of its stream that was read, and what was broadcast.
use auctioneer.Base.{
  ℕ, ◌<◌, ◌^◌, ◌≡◌, ◌∙◌, refl, sym, ap, true, inl, inr, ◌⊎◌, some, List, [], ◌++◌, map, append-nil,
}
use mathlib.Core.Path.{subst}
use mathlib.Core.List.{map-append}
use auctioneer.Text.{Bytes, codes}
use auctioneer.Text.Map.{get, contains, IsMap}
use auctioneer.Engine.Types.{AuctionEvent, Error, Result, ok, err}
use auctioneer.Engine.Keys.{events_key}
use auctioneer.Engine.Router.{shard}
use auctioneer.Engine.Events.{Request, Answer, event_from_stream}
use auctioneer.Engine.Events.Streams.{
  Entry, World, limited, limited-prefix, HasIds, Answers, id_behind, id_behind-append,
  behind-id_behind,
}
use auctioneer.Engine.Events.Each.{Names, events_of, new_events, read_events-each}
use auctioneer.Engine.Dispatcher.{EventDispatcher, Message, sync, message_of, tick}
use auctioneer.Engine.Dispatcher.Offsets.{
  read, last_id, offset_or_start, sync_lem, poll_some-ok, poll_some-err, tick-ok,
}
use auctioneer.Engine.Dispatcher.Messages.{
  IsMap-sync, IsMap-advance, messages_of, messages_of-broadcasts, last_of, last_id-events_of,
  last_of-entries,
}

-- What a tick meets: the known auctions, the streams as they are then, and the replies.
pub record Tick : Type 0 where
  pub known : List Bytes
  pub world : World
  pub xread : Request → Answer

-- The messages for the entries of a stream.
abbrev pub announced : List Entry → List Message
announced entries = map message_of (map event_from_stream entries)

Result-cases :
    (x : Result (List AuctionEvent))
    → ((es : List AuctionEvent) × (x ≡ ok es)) ⊎ ((e : Error) × (x ≡ err e))
Result-cases (ok es) = inl (es, refl)
Result-cases (err e) = inr (e, refl)

pub announced-append : (xs ys : List Entry) → announced (xs ++ ys) ≡ announced xs ++ announced ys
announced-append xs ys = simp map-append

module _ (behind : Bytes → List Entry → List Entry) (n : ℕ) (a : Bytes) where
  pub record IsFair (t : Tick) : Type 0 where
    pub is_known : contains a t.known ≡ true
    pub ids : HasIds behind t.world
    pub names : (i : ℕ) (b id : Bytes) → Names b (behind id (t.world i (events_key b)))
    pub answers : Answers behind t.world t.xread

  abbrev pub stream_of : Tick → List Entry
  stream_of t = t.world (shard n a) (events_key a)

  -- The dispatcher has read `before`, and `after` is unread.
  pub record HasRead (d : EventDispatcher) (before : List Entry) : Type 0 where
    pub is_map : IsMap d.offsets
    pub offset : offset_or_start (get a d.offsets) ≡ id_behind (codes "0-0") before

  abbrev pub on_tick : Tick → EventDispatcher → EventDispatcher × List (Bytes × Message)
  on_tick t d = tick (read t.xread n) t.known d

  -- What a tick takes of the unread entries: nothing where reading fails, and else the next ones up
  -- to the limit.
  abbrev pub Takes : Tick → EventDispatcher → List Entry → List Entry → Type 0
  Takes t d after taken =
      ((x : Error) × (read t.xread n (sync t.known d.offsets) d.stream_count ≡ err x)
        × (taken ≡ []))
      ⊎ ((es : List AuctionEvent) × (read t.xread n (sync t.known d.offsets) d.stream_count ≡ ok es)
          × (taken ≡ limited d.stream_count after))

  pub record Ticked (t : Tick) (d : EventDispatcher) (before after : List Entry) : Type 0 where
    pub taken : List Entry
    pub rest : List Entry
    pub split : after ≡ taken ++ rest
    pub takes : Takes t d after taken
    pub has_read : HasRead (on_tick t d).0 (before ++ taken)
    pub sent : messages_of a (on_tick t d).1 ≡ announced taken
    pub same_count : (on_tick t d).0.stream_count ≡ d.stream_count

  module _ (t : Tick) (d : EventDispatcher) (before after : List Entry) (some_client : 0 < n)
      (few : n < 2 ^ 32) (fair : IsFair t) (e : stream_of t ≡ before ++ after)
      (r : HasRead d before) where
    -- The tick reads on from the id behind `before`.
    synced : get a (sync t.known d.offsets) ≡ some (id_behind (codes "0-0") before)
    synced = sync_lem a t.known d.offsets ∙ rw (fair.is_known, r.offset) refl

    read_on :
        new_events behind t.world n d.stream_count fair.names
          (shard n a)
          a
          (some (id_behind (codes "0-0") before))
        ≡ map event_from_stream (limited d.stream_count after)
    unfolding new_events
    read_on =
        ap (λ es. map event_from_stream (limited d.stream_count es))
          (behind-id_behind behind t.world (shard n a) (events_key a) before after fair.ids e)

    moved :
        (es : List AuctionEvent)
        → read t.xread n (sync t.known d.offsets) d.stream_count ≡ ok es
        → get a (on_tick t d).0.offsets
          ≡ some (last_of (id_behind (codes "0-0") before) (events_of a es))
    moved es answer =
        (tick-ok t.xread n t.known d es answer).1 a
        ∙ ap (λ o. last_id a o es) (sym (sync_lem a t.known d.offsets) ∙ synced)
        ∙ last_id-events_of a (id_behind (codes "0-0") before) es

    moved_to :
        (es : List AuctionEvent) (taken : List Entry)
        → events_of a es ≡ map event_from_stream taken
        → offset_or_start (some (last_of (id_behind (codes "0-0") before) (events_of a es)))
          ≡ id_behind (codes "0-0") (before ++ taken)
    unfolding offset_or_start
    moved_to es taken own =
        ap (last_of (id_behind (codes "0-0") before)) own
        ∙ last_of-entries (id_behind (codes "0-0") before) taken
        ∙ sym (id_behind-append (codes "0-0") before taken)

    Ticked-err :
        (x : Error)
        → read t.xread n (sync t.known d.offsets) d.stream_count ≡ err x
        → Ticked t d before after
    unfolding tick messages_of offset_or_start id_behind
    Ticked-err x failing =
        let run = poll_some-err t.xread n (sync t.known d.offsets) d.stream_count x failing in
        record {
          taken = [];
          rest = after;
          split = refl;
          takes = inl (x, failing, refl);
          has_read = record {
            is_map =
                subst (λ r. IsMap r.0.offsets) (sym run) (IsMap-sync t.known d.offsets r.is_map);
            offset =
                ap (λ r. offset_or_start (get a r.0.offsets)) run
                ∙ ap offset_or_start synced
                ∙ ap (id_behind (codes "0-0")) (sym (append-nil before));
          };
          sent = ap (λ r. messages_of a r.1) run;
          same_count = ap (λ r. r.0.stream_count) run;
        }

    Ticked-ok :
        (es : List AuctionEvent)
        → read t.xread n (sync t.known d.offsets) d.stream_count ≡ ok es
        → Ticked t d before after
    unfolding tick read
    Ticked-ok es answer =
        let taken = limited d.stream_count after in
        let (rest, split) = limited-prefix d.stream_count after in
        let run = poll_some-ok t.xread n (sync t.known d.offsets) d.stream_count es answer in
        let is_map = IsMap-sync t.known d.offsets r.is_map in
        let own : events_of a es ≡ map event_from_stream taken =
          read_events-each behind t.world n d.stream_count fair.names t.xread a
            (sync t.known d.offsets) es fair.answers some_client few is_map answer
          ∙ ap (new_events behind t.world n d.stream_count fair.names (shard n a) a) synced
          ∙ read_on in
        record {
          taken = taken;
          rest = rest;
          split = split;
          takes = inr (es, answer, refl);
          has_read = record {
            is_map = subst (λ r. IsMap r.0.offsets) (sym run) (IsMap-advance es _ is_map);
            offset = ap offset_or_start (moved es answer) ∙ moved_to es taken own;
          };
          sent =
              ap (λ r. messages_of a r.1) run
              ∙ messages_of-broadcasts a es
              ∙ ap (map message_of) own;
          same_count = ap (λ r. r.0.stream_count) run;
        }

    pub tick-HasRead : Ticked t d before after
    tick-HasRead = elim (Result-cases (read t.xread n (sync t.known d.offsets) d.stream_count)) [
      | inl (es, answer) ↦ Ticked-ok es answer
      | inr (x, failing) ↦ Ticked-err x failing
    ]
