-- ===== src/Engine/Dispatcher/Runs.antt =====
-- dispatcher.go: runs of ticks, and what they broadcast for one auction.
use auctioneer.Base.{
  ℕ, suc, ◌-◌, ◌*◌, ◌≤◌, ◌<◌, ◌^◌, ◌≡◌, ◌∙◌, refl, sym, ap, inl, inr, List, [], ◌∷◌, ◌++◌,
  append_assoc, append-nil, arith, ℤ, pos, length,
}
use mathlib.Core.Path.{subst}
use auctioneer.Text.{Bytes}
use auctioneer.Text.Map.{get}
use auctioneer.Engine.Types.{AuctionEvent, ok}
use auctioneer.Engine.Events.Streams.{Entry, limited, length-limited, id_behind}
use auctioneer.Engine.Dispatcher.{EventDispatcher, Message, new_event_dispatcher, sync}
use auctioneer.Engine.Dispatcher.Offsets.{read, offset_or_start}
use auctioneer.Engine.Dispatcher.Messages.{messages_of, messages_of-append}
use auctioneer.Engine.Dispatcher.Delivery.{
  Tick, IsFair, HasRead, tick-HasRead, Takes, stream_of, on_tick, announced, announced-append,
}

module _ (behind : Bytes → List Entry → List Entry) (n : ℕ) (a : Bytes) where
  -- The ticks one after the other, with all that they broadcast.
  unfoldable pub run : List Tick → EventDispatcher → EventDispatcher × List (Bytes × Message)
  run [] d = (d, [])
  run (t ∷ ts) d =
      let (d', sent) = on_tick behind n a t d in
      let (d'', later) = run ts d' in (d'', sent ++ later)

  -- Each tick is fair, and finds the auction's stream with entries added at its end or none.
  abbrev pub Follows : List Entry → List Tick → Type 0
  Follows s [] = Unit
  Follows s (t ∷ ts) =
      IsFair behind n a t
      × ((more : List Entry) × (stream_of behind n a t ≡ s ++ more))
      × Follows (stream_of behind n a t) ts

  -- The stream at the last tick.
  abbrev pub last_stream : List Entry → List Tick → List Entry
  last_stream s [] = s
  last_stream s (t ∷ ts) = last_stream (stream_of behind n a t) ts

  module _ (some_client : 0 < n) (few : n < 2 ^ 32) where
    run-HasRead :
        (ts : List Tick) (d : EventDispatcher) (s before after : List Entry)
        → s ≡ before ++ after
        → HasRead behind n a d before
        → Follows s ts
        → (taken rest : List Entry) × (last_stream s ts ≡ before ++ (taken ++ rest))
          × HasRead behind n a (run ts d).0 (before ++ taken)
          × (messages_of a (run ts d).1 ≡ announced taken)
    unfolding run messages_of
    run-HasRead [] d s before after e r _ =
        ([], after, e, subst (HasRead behind n a d) (sym (append-nil before)) r, refl)
    run-HasRead (t ∷ ts) d s before after e r (fair, (more, grown), later) =
        let here : stream_of behind n a t ≡ before ++ (after ++ more) =
          grown ∙ ap (λ es. es ++ more) e ∙ append_assoc before after more in
        let now = tick-HasRead behind n a t d before (after ++ more) some_client few fair here r in
        let split : stream_of behind n a t ≡ (before ++ now.taken) ++ now.rest =
          here ∙ ap (λ es. before ++ es) now.split ∙ sym (append_assoc before now.taken now.rest) in
        let (taken, rest, all, read_on, sent) =
          run-HasRead ts (on_tick behind n a t d).0 (stream_of behind n a t) (before ++ now.taken)
            now.rest split now.has_read later in
        (
          now.taken ++ taken,
          rest,
          all
              ∙ append_assoc before now.taken (taken ++ rest)
              ∙ ap (λ es. before ++ es) (sym (append_assoc now.taken taken rest)),
          subst (HasRead behind n a _) (append_assoc before now.taken taken) read_on,
          messages_of-append a (on_tick behind n a t d).1 _
              ∙ ap (λ ms. ms ++ messages_of a (run ts (on_tick behind n a t d).0).1) now.sent
              ∙ ap (λ ms. announced now.taken ++ ms) sent
              ∙ sym (announced-append now.taken taken),
        )

    pub fresh-HasRead : (count : ℤ) → HasRead behind n a (new_event_dispatcher count) []
    unfolding new_event_dispatcher get offset_or_start id_behind
    fresh-HasRead count = record { is_map = tt; offset = refl }

    -- Over any run of ticks of a new dispatcher, some of which may fail to read: what was broadcast
    -- for an auction are, in order, the announcements of a first part of its stream as it is at the
    -- last tick: none is lost between two others, none comes twice. (At each tick the auction is
    -- known, XREAD answers as documented or fails, ids name one entry each and entries their auction,
    -- and the stream has only grown at its end; there are from 1 to 2^32 - 1 Redis clients.)
    pub run-delivers :
        (count : ℤ) (ts : List Tick)
        → Follows [] ts
        → (taken rest : List Entry) × (last_stream [] ts ≡ taken ++ rest)
          × (messages_of a (run ts (new_event_dispatcher count)).1 ≡ announced taken)
    run-delivers count ts follows =
        let (taken, rest, all, _, sent) =
          run-HasRead ts (new_event_dispatcher count) [] [] [] refl (fresh-HasRead count) follows in
        (taken, rest, all, sent)

  -- Each tick is fair, finds the stream as it is, and reads without an error.
  abbrev pub Quiet : List Entry → List Tick → EventDispatcher → Type 0
  Quiet s [] d = Unit
  Quiet s (t ∷ ts) d =
      IsFair behind n a t
      × (stream_of behind n a t ≡ s)
      × ((es : List AuctionEvent) × (read t.xread n (sync t.known d.offsets) d.stream_count
            ≡ ok es))
      × Quiet s ts (on_tick behind n a t d).0

  module _ (some_client : 0 < n) (few : n < 2 ^ 32) where
    -- What of an auction's stream is unread is all broadcast, in order, once there were as many
    -- ticks as it takes to read it `stream_count` entries at a time. (The dispatcher has read what
    -- comes before; at each tick the auction is known, the stream is as it was, and reading succeeds;
    -- there are from 1 to 2^32 - 1 Redis clients.)
    pub run-drains :
        (ts : List Tick) (d : EventDispatcher) (c : ℕ) (before after : List Entry)
        → d.stream_count ≡ pos (suc c)
        → HasRead behind n a d before
        → Quiet (before ++ after) ts d
        → length after ≤ length ts * suc c
        → messages_of a (run ts d).1 ≡ announced after
    unfolding run messages_of
    run-drains [] d c before [] count r _ enough = refl
    run-drains [] d c before (x ∷ after) count r _ enough = absurd (omega arith)
    run-drains (t ∷ ts) d c before after count r (fair, same, (es, answer), later) enough =
        let now = tick-HasRead behind n a t d before after some_client few fair same r in
        let d' = (on_tick behind n a t d).0 in
        let took : now.taken ≡ limited (pos (suc c)) after = took_next now.takes in
        let left : length now.rest ≡ length after - suc c =
          length-limited c after now.rest (now.split ∙ ap (λ es. es ++ now.rest) took) in
        let split : before ++ after ≡ (before ++ now.taken) ++ now.rest =
          ap (λ es. before ++ es) now.split ∙ sym (append_assoc before now.taken now.rest) in
        messages_of-append a (on_tick behind n a t d).1 _
        ∙ ap (λ ms. ms ++ messages_of a (run ts d').1) now.sent
        ∙ ap (λ ms. announced now.taken ++ ms)
            (run-drains ts d' c (before ++ now.taken) now.rest (now.same_count ∙ count) now.has_read
              (subst (λ s. Quiet s ts d') split later) (omega arith))
        ∙ sym (ap announced now.split ∙ announced-append now.taken now.rest)
      where
        took_next :
            {taken : List Entry}
            → Takes behind n a t d after taken
            → taken ≡ limited (pos (suc c)) after
        took_next (inl (x, failing, _)) = absurd (cc)
        took_next (inr (es', _, next)) = next ∙ ap (λ z. limited z after) count
