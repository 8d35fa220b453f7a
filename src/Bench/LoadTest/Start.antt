-- ===== src/Bench/LoadTest/Start.antt =====
-- bench/loadtest/main.go up to its goroutines: the flags, the connection and the auction. A negative
-- number of requests sends none, and a negative number of workers makes the size of the channel
-- negative, so `make` panics.
use auctioneer.Base.{ℕ, ◌≡◌, refl, Bool, true, false, ℤ, pos, negsuc}
use auctioneer.Text.{Bytes, codes}
use auctioneer.Transport.Grpc.{CreateAuctionMessage}
use auctioneer.Bench.LoadTest.{LoadTest, Outcome, new_load_test}

pub record Flags : Type 0 where
  pub grpc_addr : Bytes
  pub auction_id : Bytes
  pub requests : ℤ
  pub concurrency : ℤ
  pub rpc_timeout_ms : ℤ

abbrev pub default_flags : Flags
default_flags = record {
  grpc_addr = codes "127.0.0.1:8081";
  auction_id = codes "load-auction";
  requests = pos 1000000;
  concurrency = pos 512;
  rpc_timeout_ms = pos 500;
}

unfoldable pub create_message : Bytes → CreateAuctionMessage
create_message auction_id = record {
  auction_id = auction_id;
  opening_price_cents = pos 100;
  duration_sec = pos 3600;
}

abbrev pub at_least_zero : ℤ → ℕ
at_least_zero (pos n) = n
at_least_zero (negsuc n) = 0

pub data Begun : Type 0 where
  dial_failed panicked : Begun
  began : Outcome → LoadTest → Begun

unfoldable pub with_concurrency : ℤ → ℤ → Outcome → Begun
with_concurrency (negsuc n) requests created = panicked
with_concurrency (pos n) requests created = began created (new_load_test (at_least_zero requests) n)

-- `dials` says whether a client is made, and `create` what CreateAuction gives, which is only logged.
unfoldable pub begin : Flags → Bool → (CreateAuctionMessage → Outcome) → Begun
unfolding create_message with_concurrency
begin flags false create = dial_failed
begin flags true create =
    with_concurrency flags.concurrency flags.requests (create (create_message flags.auction_id))

-- With the default flags a load test begins, whatever CreateAuction gives.
begin-default_flags :
    (create : CreateAuctionMessage → Outcome)
    → begin default_flags true create
      ≡ began (create (create_message (codes "load-auction"))) (new_load_test 1000000 512)
unfolding begin
begin-default_flags create = refl
