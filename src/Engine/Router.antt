-- ===== src/Engine/Router.antt =====
-- `RedisRouter` of internal/engine/redis_store.go: its clients, and the sharding, which spreads the
-- auctions over them by CRC-32.
use Prim.Native.Nat.{bit_xor}
use auctioneer.Base.{
  ℕ, zero, suc, ◌/◌, ◌%◌, ◌^◌, [], ◌∷◌, ◌==◌, if◌then◌else◌, Bool, true, false, List, ltb, ℤ, pos,
  negsuc, map, ◌≡◌, refl, ◌<◌, arith,
}
use auctioneer.Text.{Bytes, codes, bytes_eq}
use auctioneer.Text.Space.{trim_space}

-- hash/crc32: the IEEE polynomial, bit-reversed, one bit and then one byte at a time.
crc_bits : ℕ → ℕ → ℕ
crc_bits zero crc = crc
crc_bits (suc k) crc = crc_bits k (if crc % 2 == 0 then crc / 2 else bit_xor (crc / 2) 0xEDB88320)

crc_bytes : ℕ → Bytes → ℕ
unfolding crc_bits
crc_bytes crc [] = crc
crc_bytes crc (c ∷ s) = crc_bytes (crc_bits 8 (bit_xor crc c)) s

pub checksum_ieee : Bytes → ℕ
unfolding crc_bytes
checksum_ieee s = bit_xor (crc_bytes 0xFFFFFFFF s) 0xFFFFFFFF

-- `n` is the number of clients; `uint32(n)` keeps its low 32 bits.
unfoldable pub shard : ℕ → Bytes → ℕ
shard n auction_id = if n == 1 then 0 else checksum_ieee auction_id % (n % 2 ^ 32)

check_value : checksum_ieee (codes "123456789") ≡ 0xCBF43926
unfolding checksum_ieee
check_value = refl

-- A router with clients always picks one of them.
pub shard-lt : (n : ℕ) (auction_id : Bytes) → 0 < n → n < 2 ^ 32 → shard n auction_id < n
unfolding shard
shard-lt n auction_id h k = ground arith

-- The options of a client. The times are in milliseconds.
pub record Options : Type 0 where
  pub addr : Bytes
  pub password : Bytes
  pub db : ℤ
  pub pool_size : ℤ
  pub min_idle_conns : ℤ
  pub read_timeout : ℕ
  pub write_timeout : ℕ
  pub dial_timeout : ℕ

-- A client, and how often it was closed.
pub record RedisClient : Type 0 where
  pub options : Options
  pub closes : ℕ

pub record RedisRouter : Type 0 where
  pub clients : List RedisClient
  pub closed : Bool

-- max(poolSize/8, 8): a negative quotient is below 8.
abbrev min_idle : ℤ → ℤ
min_idle (pos n) = if ltb (n / 8) 8 then pos 8 else pos (n / 8)
min_idle (negsuc n) = pos 8

abbrev pub options_of : Bytes → Bytes → ℤ → ℤ → Options
options_of addr password db pool_size = record {
  addr = addr;
  password = password;
  db = db;
  pool_size = pool_size;
  min_idle_conns = min_idle pool_size;
  read_timeout = 100;
  write_timeout = 100;
  dial_timeout = 200;
}

-- What NewRedisRouter comes to: redis.NewClient may panic, and a router needs a client.
pub data Made {ℓ} (A : Type ℓ) : Type ℓ where
  panicked no_clients : Made A
  made : A → Made A

-- `makes` says for which options redis.NewClient gives a client; it panics for the others.
unfoldable pub new_client : (Options → Bool) → Options → Made RedisClient
new_client makes options =
    if makes options then made (record { options = options; closes = 0 }) else panicked

abbrev pub with_client : Made RedisClient → Made (List RedisClient) → Made (List RedisClient)
with_client (made c) (made cs) = made (c ∷ cs)
with_client (made c) rest = rest
with_client panicked rest = panicked
with_client no_clients rest = no_clients

-- The loop over the addresses: those that are empty when trimmed are left out.
unfoldable pub new_clients : (Options → Bool) → List Bytes → Bytes → ℤ → ℤ → Made (List RedisClient)
new_clients makes [] password db pool_size = made []
new_clients makes (addr ∷ addresses) password db pool_size =
    let rest = new_clients makes addresses password db pool_size in
    let trimmed = trim_space addr in
    if bytes_eq trimmed []
    then rest
    else with_client (new_client makes (options_of trimmed password db pool_size)) rest

abbrev pub with_clients : Made (List RedisClient) → Made RedisRouter
with_clients panicked = panicked
with_clients no_clients = no_clients
with_clients (made []) = no_clients
with_clients (made (c ∷ cs)) = made (record { clients = c ∷ cs; closed = false })

-- NewRedisRouter; `no_clients` is the error "no redis clients configured".
unfoldable pub new_redis_router : (Options → Bool) → List Bytes → Bytes → ℤ → ℤ → Made RedisRouter
unfolding new_clients
new_redis_router makes addresses password db pool_size =
    with_clients (new_clients makes addresses password db pool_size)

abbrev pub close_client : RedisClient → RedisClient
close_client c = record c { closes = suc c.closes }

-- RedisRouter.Close: only the first call does something.
unfoldable pub close : RedisRouter → RedisRouter
close r = if r.closed then r else record { clients = map close_client r.clients; closed = true }
