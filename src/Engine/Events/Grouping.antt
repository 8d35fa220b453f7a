-- ===== src/Engine/Events/Grouping.antt =====
-- Which stream is asked of which client.
use auctioneer.Base.{
  ℕ, ◌≡◌, ◌∙◌, sym, ◌==◌, Bool-cases, inl, inr, List, [], ◌∷◌, ◌++◌, append_assoc, append-nil,
  if◌then◌else◌,
}
use auctioneer.Text.{Bytes, codes, bytes_eq}
use auctioneer.Text.Map.{Map}
use auctioneer.Engine.Keys.{events_key}
use auctioneer.Engine.Router.{shard}
use auctioneer.Engine.Events.{ShardRead, no_read, group, start_of, append_read}

-- The streams of the auctions of shard `i`, and where to read on in them.
unfoldable pub keys_of : ℕ → ℕ → Map Bytes → List Bytes
keys_of n i [] = []
keys_of n i ((a, o) ∷ m) =
    let rest = keys_of n i m in if i == shard n a then events_key a ∷ rest else rest

unfoldable pub starts_of : ℕ → ℕ → Map Bytes → List Bytes
starts_of n i [] = []
starts_of n i ((a, o) ∷ m) =
    let rest = starts_of n i m in
    if i == shard n a then (if bytes_eq o [] then codes "0-0" else o) ∷ rest else rest

group-from :
    (n i : ℕ) (m : Map Bytes) (shards : ℕ → ShardRead)
    → ((group n m shards i).keys ≡ (shards i).keys ++ keys_of n i m)
      × ((group n m shards i).ids ≡ (shards i).ids ++ starts_of n i m)
unfolding group keys_of starts_of
group-from n i [] shards = (sym (append-nil (shards i).keys), sym (append-nil (shards i).ids))
group-from n i ((a, o) ∷ m) shards =
    let next = append_read (shard n a) (events_key a) (start_of o) shards in
    let (ks, is) = group-from n i m next in
    elim (Bool-cases (i == shard n a)) [
      | inl here ↦ (
        ks ∙ rw here (append_assoc (shards i).keys (events_key a ∷ []) (keys_of n i m)),
        is ∙ rw here (append_assoc (shards i).ids (start_of o ∷ []) (starts_of n i m)),
      )
      | inr other ↦ (ks ∙ rw other, is ∙ rw other)
    ]

-- Each client is asked for the streams of exactly the auctions that are sharded to it, each from its
-- own offset, or from the start where that is empty, and in the same order.
pub group_lem :
    (n i : ℕ) (offsets : Map Bytes)
    → ((group n offsets (λ j. no_read) i).keys ≡ keys_of n i offsets)
      × ((group n offsets (λ j. no_read) i).ids ≡ starts_of n i offsets)
group_lem n i offsets = group-from n i offsets (λ j. no_read)
