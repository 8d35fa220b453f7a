-- ===== src/Engine/Events.antt =====
-- `ReadEvents` of internal/engine/redis_store.go, with `eventFromStream` and `val`. What XREAD
-- returns for a request is given by the argument `xread`: Redis and the network decide it.
pub mod Grouping
pub mod Decoding
pub mod Streams
pub mod Simple
pub mod Reading
pub mod Each
use auctioneer.Base.{
  ℕ, zero, suc, ◌+◌, ◌==◌, Bool, true, false, Option, none, some, List, [], ◌∷◌, ◌++◌, map,
  if◌then◌else◌, ℤ, pos, negsuc,
}
use auctioneer.Text.{Bytes, codes, bytes_eq}
use auctioneer.Text.Map.{Map}
use auctioneer.Text.Parse.{parse_int64}
use auctioneer.Engine.Types.{AuctionEvent, Error, Result, ok, err}
use auctioneer.Engine.Redis.{Fields}
use auctioneer.Engine.Keys.{events_key}
use auctioneer.Engine.Router.{shard}

-- `val(m, key)`: the field of a stream entry, or the empty text. (go-redis keeps the last of two
-- fields with one name.)
val_from : Bytes → Fields → Bytes → Bytes
val_from found [] key = found
val_from found ((g, v) ∷ fs) key = val_from (if bytes_eq g key then v else found) fs key

unfoldable pub val : Fields → Bytes → Bytes
unfolding val_from
val fs key = val_from [] fs key

unfoldable pub event_from_stream : Bytes × Fields → AuctionEvent
event_from_stream (id, values) = record {
  id = id;
  auction_id = val values (codes "auction_id");
  bid_id = val values (codes "bid_id");
  user_id = val values (codes "user_id");
  amount_cents = parse_int64 (val values (codes "amount"));
  version = parse_int64 (val values (codes "version"));
  server_unix_milli = parse_int64 (val values (codes "server_ts"));
}

pub record ShardRead : Type 0 where
  pub keys : List Bytes
  pub ids : List Bytes

abbrev pub no_read : ShardRead
no_read = record { keys = []; ids = [] }

-- XReadArgs for a client; the block time is in nanoseconds, and negative for none.
pub record Request : Type 0 where
  pub client : ℕ
  pub streams : List Bytes
  pub count : ℤ
  pub block : ℤ

-- An error, redis.Nil, or for each stream its messages.
pub data Answer : Type 0 where
  failed : Error → Answer
  nothing : Answer
  streams : List (List (Bytes × Fields)) → Answer

start_of : Bytes → Bytes
start_of offset = if bytes_eq offset [] then codes "0-0" else offset

-- shards[i].keys = append(…), shards[i].ids = append(…)
append_read : ℕ → Bytes → Bytes → (ℕ → ShardRead) → ℕ → ShardRead
append_read i key id shards j =
    if j == i
    then record { keys = (shards j).keys ++ key ∷ []; ids = (shards j).ids ++ id ∷ [] }
    else shards j

unfoldable pub group : ℕ → Map Bytes → (ℕ → ShardRead) → ℕ → ShardRead
unfolding append_read start_of
group n [] shards = shards
group n ((auction_id, offset) ∷ rest) shards =
    group n rest (append_read (shard n auction_id) (events_key auction_id) (start_of offset) shards)

abbrev pub is_empty : List Bytes → Bool
is_empty [] = true
is_empty (k ∷ ks) = false

-- The last shard of those from `i` on that has keys, or `last`.
unfoldable pub last_used : ℕ → ℕ → (ℕ → ShardRead) → Option ℕ → Option ℕ
last_used zero i shards last = last
last_used (suc left) i shards last =
    last_used left (i + 1) shards (if is_empty (shards i).keys then last else some i)

-- time.Duration(-1), or 5 ms for the last shard.
block_of : ℕ → Option ℕ → ℤ
block_of i none = negsuc 0
block_of i (some last) = if i == last then pos 5000000 else negsuc 0

flat_events : List (List (Bytes × Fields)) → List AuctionEvent
flat_events [] = []
flat_events (messages ∷ rest) = map event_from_stream messages ++ flat_events rest

module _ (xread : Request → Answer) (count : ℤ) where
  request : ℕ → ShardRead → Option ℕ → Request
  request i read last = record {
    client = i;
    streams = read.keys ++ read.ids;
    count = count;
    block = block_of i last;
  }

  -- The loop over the shards from `i` on.
  unfoldable pub read_shards :
      ℕ → ℕ → (ℕ → ShardRead) → Option ℕ → List AuctionEvent → Result (List AuctionEvent)
  unfolding request block_of flat_events
  read_shards zero i shards last out = ok out
  read_shards (suc left) i shards last out = elim (is_empty (shards i).keys) [
    | true ↦ read_shards left (i + 1) shards last out
    | false ↦ elim (xread (request i (shards i) last)) [
      | failed e ↦ err e
      | nothing ↦ read_shards left (i + 1) shards last out
      | streams ss ↦ read_shards left (i + 1) shards last (out ++ flat_events ss)
    ]
  ]

  -- `n` is the number of clients.
  unfoldable pub read_events : ℕ → Map Bytes → Result (List AuctionEvent)
  unfolding group last_used read_shards
  read_events n [] = ok []
  read_events n (o ∷ offsets) =
      let shards = group n (o ∷ offsets) (λ i. no_read) in
      read_shards n 0 shards (last_used n 0 shards none) []
