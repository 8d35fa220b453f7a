-- ===== src/Engine/Events/Each.antt =====
-- Reading from several clients, and what each auction gets of it.
use auctioneer.Base.{
  ℕ, zero, suc, ◌+◌, ◌<◌, ◌^◌, ◌≡◌, ◌∙◌, refl, ap, true, false, Bool-cases, inl, inr, ◌&&◌, Option,
  none, some, List, [], ◌∷◌, ◌++◌, map, append-nil, arith, if◌then◌else◌, ◌==◌, ==_iff, ℤ, pos,
  negsuc, ltb, leb,
}
use mathlib.Core.Path.{subst}
use mathlib.Core.List.{map-append}
use auctioneer.Text.{Bytes, codes, bytes_eq, bytes_eq_iff}
use auctioneer.Text.Map.{Map, get, IsMap}
use auctioneer.Engine.Types.{AuctionEvent, ok}
use auctioneer.Engine.Keys.{events_key}
use auctioneer.Engine.Router.{shard, shard-lt}
use auctioneer.Engine.Events.{Request, Answer, val, event_from_stream, read_events}
use auctioneer.Engine.Events.Streams.{Entry, World, take, limited, asked, Answers}
use auctioneer.Engine.Events.Reading.{reads_of, shard_events, shards_from, read_shards-ok}

-- The events of one auction, in their order.
unfoldable pub events_of : Bytes → List AuctionEvent → List AuctionEvent
events_of a [] = []
events_of a (e ∷ es) =
    let rest = events_of a es in if bytes_eq e.auction_id a then e ∷ rest else rest

events_of-append :
    (a : Bytes) (xs ys : List AuctionEvent)
    → events_of a (xs ++ ys) ≡ events_of a xs ++ events_of a ys
unfolding events_of
events_of-append a [] ys = refl
events_of-append a (e ∷ xs) ys = ground (arith, events_of-append a xs ys)

-- Every entry of an auction's stream names that auction.
abbrev pub Names : Bytes → List Entry → Type 0
Names a [] = Unit
Names a ((id, fields) ∷ entries) = (val fields (codes "auction_id") ≡ a) × Names a entries

events_of-Names :
    (a b : Bytes) (entries : List Entry)
    → Names b entries
    → events_of a (map event_from_stream entries)
      ≡ (if bytes_eq b a then map event_from_stream entries else [])
unfolding events_of event_from_stream
events_of-Names a b [] h = ground arith
events_of-Names a b ((id, fields) ∷ entries) (h, hs) = elim (Bool-cases (bytes_eq b a)) [
  | inl same ↦ rw (h, same, events_of-Names a b entries hs, same) refl
  | inr other ↦ rw (h, other, events_of-Names a b entries hs, other) refl
]

Names-take : (a : Bytes) (k : ℕ) (entries : List Entry) → Names a entries → Names a (take k entries)
Names-take a zero entries h = tt
Names-take a (suc k) [] h = tt
Names-take a (suc k) (e ∷ entries) h = (h.0, Names-take a k entries h.1)

Names-limited :
    (a : Bytes) (count : ℤ) (entries : List Entry)
    → Names a entries
    → Names a (limited count entries)
unfolding limited
Names-limited a (pos zero) entries h = h
Names-limited a (pos (suc n)) entries h = Names-take a (suc n) entries h
Names-limited a (negsuc n) entries h = h

first_client :
    (i left s : ℕ) (es : List AuctionEvent)
    → i ≡ s
    → (if i == s then es else []) ++ (if leb (i + 1) s && ltb s (i + 1 + left) then es else [])
      ≡ (if leb i s && ltb s (i + suc left) then es else [])
first_client i left s es e = ground (arith, append-nil es)

module _ (behind : Bytes → List Entry → List Entry) (w : World) (n : ℕ) (count : ℤ)
    (names : (i : ℕ) (a id : Bytes) → Names a (behind id (w i (events_key a)))) where
  -- The events that client `i` has for an auction behind an offset.
  unfoldable pub new_events : ℕ → Bytes → Option Bytes → List AuctionEvent
  new_events i a none = []
  new_events i a (some o) =
      map event_from_stream
        (limited count (behind (if bytes_eq o [] then codes "0-0" else o) (w i (events_key a))))

  events_of-shard :
      (i : ℕ) (a : Bytes) (m : Map Bytes)
      → IsMap m
      → events_of a (shard_events behind w n count i m)
        ≡ (if i == shard n a then new_events i a (get a m) else [])
  unfolding shard_events reads_of asked get events_of new_events
  events_of-shard i a [] h = ground arith
  events_of-shard i a ((b, o) ∷ m) (fresh, h) = elim (Bool-cases (i == shard n b)) [
    | inr other ↦
        rw (other, events_of-shard i a m h)
          (elim (Bool-cases (bytes_eq b a)) [
            | inl same ↦
                (let elsewhere =
                    subst (λ c. (i == shard n c) ≡ false) ((bytes_eq_iff b a).0 same) other in
                  rw elsewhere refl)
            | inr differ ↦ rw differ refl
          ])
    | inl here ↦
        (let own =
            limited count
              (behind (if bytes_eq o [] then codes "0-0" else o) (w i (events_key b))) in
          rw
            (
              here,
              map-append,
              events_of-append,
              events_of-Names a b own (Names-limited b count _ (names i b _)),
              events_of-shard i a m h,
            )
            (elim (Bool-cases (bytes_eq b a)) [
              | inl same ↦
                  (let e = (bytes_eq_iff b a).0 same in
                    let here' = subst (λ c. (i == shard n c) ≡ true) e here in
                    let fresh' = subst (λ c. get c m ≡ none) e fresh in
                    rw (same, here', fresh') (append-nil _ ∙ ap (λ c. new_events i c (some o)) e))
              | inr differ ↦ rw differ refl
            ]))
  ]

  -- Of the clients from `i` on, only that of the auction has its events.
  events_of-shards :
      (left i : ℕ) (a : Bytes) (m : Map Bytes)
      → IsMap m
      → events_of a (shards_from behind w n count left i m) ≡ (
          if leb i (shard n a) && ltb (shard n a) (i + left)
          then new_events (shard n a) a (get a m)
          else [])
  unfolding shards_from events_of
  events_of-shards zero i a m h = ground arith
  events_of-shards (suc left) i a m h =
      rw (events_of-append, events_of-shard i a m h, events_of-shards left (i + 1) a m h)
        (elim (Bool-cases (i == shard n a)) [
          | inl here ↦
              (let e = (==_iff i (shard n a)).0 here in
                ap
                  (λ j.
                    (if i == shard n a then new_events j a (get a m) else [])
                    ++ (if leb (i + 1) (shard n a) && ltb (shard n a) (i + 1 + left)
                        then new_events (shard n a) a (get a m)
                        else []))
                  e
                ∙ first_client i left (shard n a) (new_events (shard n a) a (get a m)) e)
          | inr other ↦ ground arith
        ])

  -- For each auction the events that `ReadEvents` gives are those that a read of its own stream gives,
  -- behind its own offset and up to the limit; none for one that was not asked for. (XREAD answers with
  -- the entries behind the given ids, up to the limit; every entry of an auction's stream behind an id
  -- names that auction; there is a client, and fewer than 2^32; no auction has two offsets; and
  -- `ReadEvents` gives no error.)
  pub read_events-each :
      (xread : Request → Answer) (a : Bytes) (offsets : Map Bytes) (es : List AuctionEvent)
      → Answers behind w xread
      → 0 < n
      → n < 2 ^ 32
      → IsMap offsets
      → read_events xread count n offsets ≡ ok es
      → events_of a es ≡ new_events (shard n a) a (get a offsets)
  unfolding read_events get new_events events_of
  read_events-each xread a [] es answers some_client few h e = ap (events_of a) {y = []} (cc)
  read_events-each xread a (o ∷ offsets) es answers some_client few h e =
      ap (events_of a) (read_shards-ok behind w xread answers n count n 0 (o ∷ offsets) _ [] es e)
      ∙ events_of-shards n 0 a (o ∷ offsets) h
      ∙ ground (arith, shard-lt n a some_client few)
