-- ===== src/Process/Start.antt =====
-- What `main` starts with, by the environment.
use auctioneer.Base.{
  ℕ, suc, Bool, true, ◌<◌, ◌^◌, ◌≡◌, ◌≢◌, ◌∙◌, refl, sym, ap, false, Option, none, some, List, [],
  ◌∷◌, map, All, ℤ, pos, length, arith, Bool-cases, inl, inr, leb_ℤ,
}
use mathlib.Core.Path.{subst}
use auctioneer.Text.{Bytes, bytes_eq, ne→bytes_eq, bytes_eq→ne}
use auctioneer.Text.Space.{trim_space}
use auctioneer.Text.Space.Trimmed.{trim_space_again}
use auctioneer.Config.{Env, Config, ConfigError, loaded, load, checked, non_empty, split_addrs}
use auctioneer.Config.Reading.{first_of, errors, settings, load-first_error}
use auctioneer.Engine.Redis.{Redis}
use auctioneer.Engine.Router.{
  Options, RedisRouter, RedisClient, made, options_of, new_client, new_clients, with_clients,
  new_redis_router, shard, shard-lt,
}
use auctioneer.Engine.Store.{new_redis_store}
use auctioneer.Engine.Dispatcher.{new_event_dispatcher}
use auctioneer.Process.{App, started, parts, with_router, with_config, start}

-- An address that a router takes as it is.
abbrev IsTrimmed : Bytes → Type 0
IsTrimmed a = (a ≢ []) × (trim_space a ≡ a)

non_empty-IsTrimmed : (ps : List Bytes) → All IsTrimmed (non_empty ps)
unfolding non_empty
non_empty-IsTrimmed [] = tt
non_empty-IsTrimmed (p ∷ ps) = elim (Bool-cases (bytes_eq (trim_space p) [])) [
  | inl empty ↦ rw empty (non_empty-IsTrimmed ps)
  | inr some_text ↦
      rw some_text ((bytes_eq→ne _ _ some_text, trim_space_again p), non_empty-IsTrimmed ps)
]

abbrev pub addr_of : RedisClient → Bytes
addr_of c = c.options.addr

-- redis.NewClient gives a client for each of the addresses.
abbrev pub MakesFor : (Options → Bool) → List Bytes → Bytes → ℤ → ℤ → Type 0
MakesFor makes addresses password db pool_size =
    All (λ addr. makes (options_of addr password db pool_size) ≡ true) addresses

new_clients-addr :
    (makes : Options → Bool) (addresses : List Bytes) (password : Bytes) (db pool_size : ℤ)
    → All IsTrimmed addresses
    → MakesFor makes addresses password db pool_size
    → (cs : List RedisClient) × (new_clients makes addresses password db pool_size ≡ made cs)
      × (map addr_of cs ≡ addresses)
unfolding new_clients new_client
new_clients-addr makes [] password db pool_size h ok = ([], refl, refl)
new_clients-addr makes (a ∷ addresses) password db pool_size ((ne, same), hs) (ok, oks) =
    let (cs, rest, addrs) = new_clients-addr makes addresses password db pool_size hs oks in
    (
      record { options = options_of a password db pool_size; closes = 0 } ∷ cs,
      rw (new_clients, same, ne→bytes_eq a [] ne, ok, rest) refl,
      ap (λ l. a ∷ l) addrs,
    )

-- A configuration that Load returns is the one it has read, and has an address.
checked-loaded :
    (c cfg : Config) → checked none c ≡ loaded cfg → (c ≡ cfg) × (c.redis_addresses ≢ [])
checked-loaded c cfg e = go c.redis_addresses refl
  where
    go : (addrs : List Bytes) → c.redis_addresses ≡ addrs → (c ≡ cfg) × (c.redis_addresses ≢ [])
    go [] q = absurd (cc (rw q at e))
    go (a ∷ addrs) q = (cc, λ n. cc (q, n))

loaded_addresses :
    (part_of : ℕ → ℕ → ℕ → ℕ) (env : Env) (cfg : Config)
    → load part_of env ≡ loaded cfg
    → All IsTrimmed cfg.redis_addresses × (cfg.redis_addresses ≢ [])
unfolding split_addrs
loaded_addresses part_of env cfg e =
    go (first_of (errors part_of env)) (sym (load-first_error part_of env) ∙ e)
  where
    go :
        (o : Option ConfigError)
        → checked o (settings part_of env) ≡ loaded cfg
        → All IsTrimmed cfg.redis_addresses × (cfg.redis_addresses ≢ [])
    go (some x) q = absurd (cc q)
    go none q =
        let (same, ne) = checked-loaded (settings part_of env) cfg q in
        subst (λ c. All IsTrimmed c.redis_addresses × (c.redis_addresses ≢ [])) same
          (non_empty-IsTrimmed _, ne)

stream_count-positive :
    (count : ℤ) → leb_ℤ (new_event_dispatcher count).stream_count (pos 0) ≡ false
unfolding new_event_dispatcher
stream_count-positive count = elim (Bool-cases (leb_ℤ count (pos 0))) [
  | inl low ↦ rw low refl
  | inr high ↦ rw high high
]

-- A router for addresses that are trimmed has a client for each.
new_redis_router-made :
    (makes : Options → Bool) (addresses : List Bytes) (password : Bytes) (db pool_size : ℤ)
    → All IsTrimmed addresses
    → MakesFor makes addresses password db pool_size
    → addresses ≢ []
    → (router : RedisRouter) × (new_redis_router makes addresses password db pool_size
        ≡ made router)
      × (map addr_of router.clients ≡ addresses)
unfolding new_redis_router
new_redis_router-made makes addresses password db pool_size h ok ne =
    let (cs, all_made, same) = new_clients-addr makes addresses password db pool_size h ok in
    go cs all_made same
  where
    go :
        (cs : List RedisClient)
        → new_clients makes addresses password db pool_size ≡ made cs
        → map addr_of cs ≡ addresses
        → (router : RedisRouter) × (new_redis_router makes addresses password db pool_size
            ≡ made router)
          × (map addr_of router.clients ≡ addresses)
    go [] e same = absurd (ne (sym same))
    go (c ∷ cs) e same = (record { clients = c ∷ cs; closed = false }, ap with_clients e, same)

length-map : (cs : List RedisClient) → length (map addr_of cs) ≡ length cs
length-map [] = refl
length-map (c ∷ cs) = ap suc (length-map cs)

some_length : (addrs : List Bytes) → addrs ≢ [] → 0 < length addrs
some_length [] ne = absurd (ne refl)
some_length (a ∷ addrs) ne = omega arith

module _ (R : Redis) where
  open R use {Db}

  -- Once Load has returned a configuration, and redis.NewClient gives a client for each of its Redis
  -- addresses, `main` makes its parts: the router has one client for each Redis address of the
  -- configuration, in their order, the store finds a client of the router for every auction, the
  -- dispatcher reads a positive number of entries, and the gRPC server's limit is the configured one.
  -- (There are fewer than 2^32 addresses.)
  pub start-ready :
      (part_of : ℕ → ℕ → ℕ → ℕ) (makes : Options → Bool) (dbs : ℕ → Db) (env : Env) (cfg : Config)
      (auction_id : Bytes)
      → load part_of env ≡ loaded cfg
      → MakesFor makes cfg.redis_addresses cfg.redis_password cfg.redis_db cfg.redis_pool_size
      → length cfg.redis_addresses < 2 ^ 32
      → (app : App R) × (start R part_of makes dbs env ≡ started app)
        × (map addr_of app.router.clients ≡ cfg.redis_addresses)
        × (shard app.store.client_count auction_id < length app.router.clients)
        × (leb_ℤ app.dispatcher.stream_count (pos 0) ≡ false)
        × (app.max_in_flight_bids ≡ cfg.max_in_flight_bids)
  unfolding start parts new_redis_store
  start-ready part_of makes dbs env cfg auction_id e ok few =
      let (trimmed, ne) = loaded_addresses part_of env cfg e in
      let (router, done, same) =
        new_redis_router-made makes cfg.redis_addresses cfg.redis_password cfg.redis_db
          cfg.redis_pool_size trimmed ok ne in
      let count : length router.clients ≡ length cfg.redis_addresses =
        sym (length-map router.clients) ∙ ap length same in
      (
        parts R dbs cfg router,
        ap (with_config R makes dbs) e ∙ ap (with_router R dbs cfg) done,
        same,
        shard-lt (length router.clients) auction_id
            (omega (arith, count, some_length cfg.redis_addresses ne)) (omega (arith, count)),
        stream_count-positive cfg.stream_read_count,
        refl,
      )
