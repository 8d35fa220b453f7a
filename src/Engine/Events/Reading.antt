-- ===== src/Engine/Events/Reading.antt =====
-- What `ReadEvents` gives: what the clients have behind the offsets, one client after the other.
use auctioneer.Base.{
  ℕ, zero, suc, ◌+◌, ◌≡◌, ◌∙◌, refl, sym, ap, true, false, Bool-cases, inl, inr, ◌⊎◌, Option, List,
  [], ◌∷◌, ◌++◌, map, append_assoc, append-nil, arith, if◌then◌else◌, ◌==◌, ℤ,
}
use mathlib.Core.Path.{subst}
use mathlib.Core.List.{map-append}
use auctioneer.Text.{Bytes, codes, bytes_eq}
use auctioneer.Text.Map.{Map}
use auctioneer.Engine.Types.{AuctionEvent, Error, ok, err}
use auctioneer.Engine.Keys.{events_key}
use auctioneer.Engine.Router.{shard}
use auctioneer.Engine.Events.{
  ShardRead, Request, Answer, failed, nothing, streams, event_from_stream, group, no_read,
  read_shards, flat_events, is_empty, request,
}
use auctioneer.Engine.Events.Grouping.{keys_of, starts_of, group_lem}
use auctioneer.Engine.Events.Streams.{Entry, World, concat, asked, Answers, IsHonest}

-- The pairs of a stream and an id that client `i` is asked for.
unfoldable pub reads_of : ℕ → ℕ → Map Bytes → List (Bytes × Bytes)
reads_of n i [] = []
reads_of n i ((a, o) ∷ m) =
    let rest = reads_of n i m in
    if i == shard n a then (events_key a, if bytes_eq o [] then codes "0-0" else o) ∷ rest else rest

keys-reads_of : (n i : ℕ) (m : Map Bytes) → keys_of n i m ≡ map (λ x. x.0) (reads_of n i m)
unfolding keys_of reads_of
keys-reads_of n i [] = refl
keys-reads_of n i ((a, o) ∷ m) = ground (arith, keys-reads_of n i m)

starts-reads_of : (n i : ℕ) (m : Map Bytes) → starts_of n i m ≡ map (λ x. x.1) (reads_of n i m)
unfolding starts_of reads_of
starts-reads_of n i [] = refl
starts-reads_of n i ((a, o) ∷ m) = ground (arith, starts-reads_of n i m)

flat_events-concat : (ss : List (List Entry)) → flat_events ss ≡ map event_from_stream (concat ss)
unfolding flat_events
flat_events-concat [] = refl
flat_events-concat (s ∷ ss) = rw (map-append, flat_events-concat ss)

Answer-cases :
    (x : Answer)
    → ((e : Error) × (x ≡ failed e))
      ⊎ ((x ≡ nothing) ⊎ ((ss : List (List Entry)) × (x ≡ streams ss)))
Answer-cases (failed e) = inl (e, refl)
Answer-cases nothing = inr (inl refl)
Answer-cases (streams ss) = inr (inr (ss, refl))

nil_if_empty : (rs : List (Bytes × Bytes)) → is_empty (map (λ x. x.0) rs) ≡ true → rs ≡ []
nil_if_empty [] e = refl
nil_if_empty (r ∷ rs) e = absurd (cc)

-- One round of the loop, by what it meets.
module _ (xread : Request → Answer) (count : ℤ) (left i : ℕ) (shards : ℕ → ShardRead)
    (last : Option ℕ) (out : List AuctionEvent) where
  skipped :
      is_empty (shards i).keys ≡ true
      → read_shards xread count (suc left) i shards last out
        ≡ read_shards xread count left (i + 1) shards last out
  unfolding read_shards
  skipped e = rw (read_shards, e) refl

  read_failed :
      (x : Error)
      → is_empty (shards i).keys ≡ false
      → xread (request xread count i (shards i) last) ≡ failed x
      → read_shards xread count (suc left) i shards last out ≡ err x
  unfolding read_shards
  read_failed x e f = rw (read_shards, e, f) refl

  read_nothing :
      is_empty (shards i).keys ≡ false
      → xread (request xread count i (shards i) last) ≡ nothing
      → read_shards xread count (suc left) i shards last out
        ≡ read_shards xread count left (i + 1) shards last out
  unfolding read_shards
  read_nothing e f = rw (read_shards, e, f) refl

  read_streams :
      (ss : List (List Entry))
      → is_empty (shards i).keys ≡ false
      → xread (request xread count i (shards i) last) ≡ streams ss
      → read_shards xread count (suc left) i shards last out
        ≡ read_shards xread count left (i + 1) shards last (out ++ flat_events ss)
  unfolding read_shards
  read_streams ss e f = rw (read_shards, e, f) refl

module _ (behind : Bytes → List Entry → List Entry) (w : World) (n : ℕ) (count : ℤ) where
  -- What client `i` has for the offsets.
  unfoldable pub shard_events : ℕ → Map Bytes → List AuctionEvent
  shard_events i offsets = map event_from_stream (asked behind w i count (reads_of n i offsets))

  unfoldable pub shards_from : ℕ → ℕ → Map Bytes → List AuctionEvent
  shards_from zero i offsets = []
  shards_from (suc left) i offsets = shard_events i offsets ++ shards_from left (i + 1) offsets

module _ (behind : Bytes → List Entry → List Entry) (w : World) (xread : Request → Answer)
    (answers : Answers behind w xread) (n : ℕ) (count : ℤ) where
  abbrev pub shards_of : Map Bytes → ℕ → ShardRead
  shards_of offsets = group n offsets (λ j. no_read)

  asked_of :
      (i : ℕ) (offsets : Map Bytes) (last : Option ℕ)
      → IsHonest behind
          (xread (request xread count i (shards_of offsets i) last))
          (asked behind w i count (reads_of n i offsets))
  unfolding request
  asked_of i offsets last =
      let (keys, ids) = group_lem n i offsets in
      answers.answer (request xread count i (shards_of offsets i) last) (reads_of n i offsets) (
        ap (λ ks. ks ++ (shards_of offsets i).ids) (keys ∙ keys-reads_of n i offsets)
        ∙ ap (λ is. map (λ x. x.0) (reads_of n i offsets) ++ is)
            (ids ∙ starts-reads_of n i offsets))

  nothing_asked :
      (i : ℕ) (offsets : Map Bytes)
      → is_empty (shards_of offsets i).keys ≡ true
      → shard_events behind w n count i offsets ≡ []
  unfolding shard_events asked
  nothing_asked i offsets e =
      let keys = (group_lem n i offsets).0 ∙ keys-reads_of n i offsets in
      ap (λ rs. map event_from_stream (asked behind w i count rs))
        (nil_if_empty (reads_of n i offsets) (sym (ap is_empty keys) ∙ e))

  pub read_shards-ok :
      (left i : ℕ) (offsets : Map Bytes) (last : Option ℕ) (out es : List AuctionEvent)
      → read_shards xread count left i (shards_of offsets) last out ≡ ok es
      → es ≡ out ++ shards_from behind w n count left i offsets
  unfolding shards_from shard_events
  read_shards-ok zero i offsets last out es e = sym (append-nil out ∙ unfold read_shards in cc)
  read_shards-ok (suc left) i offsets last out es e =
      elim (Bool-cases (is_empty (shards_of offsets i).keys)) [
        | inl empty ↦
            read_shards-ok left (i + 1) offsets last out es
              (sym (skipped xread count left i (shards_of offsets) last out empty) ∙ e)
            ∙ ap (λ xs. out ++ (xs ++ shards_from behind w n count left (i + 1) offsets))
                (sym (nothing_asked i offsets empty))
        | inr full ↦
            (let honest = asked_of i offsets last in
              elim (Answer-cases (xread (request xread count i (shards_of offsets i) last))) [
                | inl (x, failing) ↦ absurd (
                    cc (
                      read_failed xread count left i (shards_of offsets) last out x full failing,
                      e,
                    ))
                | inr (inl none_new) ↦
                    read_shards-ok left (i + 1) offsets last out es (
                      sym
                        (read_nothing xread count left i (shards_of offsets) last out full none_new)
                      ∙ e)
                    ∙ ap
                        (λ xs.
                          out
                          ++ (map event_from_stream xs
                              ++ shards_from behind w n count left (i + 1) offsets))
                        (sym (
                          subst
                            (λ x. IsHonest behind x (asked behind w i count (reads_of n i offsets)))
                            none_new honest))
                | inr (inr (ss, replied)) ↦
                    read_shards-ok left (i + 1) offsets last (out ++ flat_events ss) es (
                      sym (
                        read_streams xread count left i (shards_of offsets) last out ss full
                          replied)
                      ∙ e)
                    ∙ append_assoc out (flat_events ss)
                        (shards_from behind w n count left (i + 1) offsets)
                    ∙ ap (λ xs. out ++ (xs ++ shards_from behind w n count left (i + 1) offsets))
                        (flat_events-concat ss
                          ∙ ap (map event_from_stream) (
                              subst
                                (λ x.
                                  IsHonest behind x (asked behind w i count (reads_of n i offsets)))
                                replied honest))
              ])
      ]
