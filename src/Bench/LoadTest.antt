-- ===== src/Bench/LoadTest.antt =====
-- bench/loadtest/main.go: a producer sends the numbers of the requests to a channel, the workers take
-- them and place bids, and their outcomes are counted. The goroutines' steps come in any order; a step
-- that has to wait does not happen: `none`. What a call of PlaceBid gives is chosen by the steps.
-- The counters and the amounts are far from 2 ^ 63.
pub mod Start
pub mod Counts
pub mod Progress
pub mod Ends
pub mod BidIds
pub mod Report
pub mod Tests
mod ReportTests
use auctioneer.Base.{
  ℕ, zero, suc, ◌+◌, ◌*◌, ◌==◌, Bool, true, false, ◌&&◌, Option, none, some, List, [], ◌∷◌, ◌++◌,
  if◌then◌else◌, ltb, length, pos,
}
use auctioneer.Text.{Bytes, codes}
use auctioneer.Text.Map
use auctioneer.Text.Map.{Map}
use auctioneer.Text.Decimal.{digits}
use auctioneer.Transport.Grpc.{PlaceBidMessage}

-- What PlaceBid gives: no error, or the code and the message of one.
pub data Outcome : Type 0 where
  ok : Outcome
  err : Bytes → Bytes → Outcome

-- A worker waits for a number; it has taken one; its bid is under way; it is answered and not yet
-- counted; its error is counted and not yet noted by code and message; and it has found the channel
-- closed.
pub data Worker : Type 0 where
  waiting returned : Worker
  holding bidding : ℕ → Worker
  answered : Outcome → Worker
  counting : Bytes → Bytes → Worker

-- `next` is the loop variable `i` of the producer.
pub record LoadTest : Type 0 where
  pub requests : ℕ
  pub concurrency : ℕ
  pub next : ℕ
  pub closed : Bool
  pub jobs : List ℕ
  pub workers : ℕ → Worker
  pub bids : List PlaceBidMessage
  pub ok_count : ℕ
  pub err_count : ℕ
  pub error_by_code : Map ℕ
  pub error_by_message : Map ℕ

unfoldable pub new_load_test : ℕ → ℕ → LoadTest
new_load_test requests concurrency = record {
  requests = requests;
  concurrency = concurrency;
  next = 0;
  closed = false;
  jobs = [];
  workers = λ w. waiting;
  bids = [];
  ok_count = 0;
  err_count = 0;
  error_by_code = [];
  error_by_message = [];
}

-- m[key]++
abbrev pub or_zero : Option ℕ → ℕ
or_zero none = 0
or_zero (some n) = n

unfoldable pub count_up : Bytes → Map ℕ → Map ℕ
count_up key m = Map.put key (suc (or_zero (Map.get key m))) m

unfoldable pub request : Bytes → ℕ → ℕ → PlaceBidMessage
request auction_id worker_id n = record {
  auction_id = auction_id;
  bid_id = codes "load-" ++ (digits worker_id ++ (codes "-" ++ digits n));
  user_id = codes "u-" ++ digits worker_id;
  amount_cents = pos (100 + n);
}

abbrev pub at : ℕ → Worker → (ℕ → Worker) → ℕ → Worker
at w v workers d = if d == w then v else workers d

-- The producer: `jobs <- i`, and `close(jobs)` behind the loop.
unfoldable pub send_job : LoadTest → Option LoadTest
send_job t =
    if ltb t.next t.requests && ltb (length t.jobs) (t.concurrency * 2)
    then some (record t { jobs = t.jobs ++ t.next ∷ []; next = suc t.next })
    else none

unfoldable pub close_jobs : LoadTest → Option LoadTest
close_jobs t =
    if ltb t.next t.requests
    then none
    else if t.closed
    then none
    else some (record t { closed = true })

-- A worker: `for n := range jobs`.
unfoldable pub take_job : ℕ → List ℕ → LoadTest → Option LoadTest
take_job w [] t = if t.closed then some (record t { workers = at w returned t.workers }) else none
take_job w (n ∷ rest) t = some (record t { jobs = rest; workers = at w (holding n) t.workers })

unfoldable pub if_waiting : Worker → Option LoadTest → Option LoadTest
if_waiting waiting next = next
if_waiting _ next = none

-- The call of PlaceBid.
unfoldable pub send_bid : Bytes → ℕ → Worker → LoadTest → Option LoadTest
unfolding request
send_bid auction_id w (holding n) t = some (record t {
  workers = at w (bidding n) t.workers;
  bids = t.bids ++ request auction_id w n ∷ [];
})
send_bid auction_id w _ t = none

unfoldable pub get_answer : Outcome → ℕ → Worker → LoadTest → Option LoadTest
get_answer outcome w (bidding n) t = some (record t { workers = at w (answered outcome) t.workers })
get_answer outcome w _ t = none

-- atomic.AddInt64
unfoldable pub count_outcome : ℕ → Worker → LoadTest → Option LoadTest
count_outcome w (answered ok) t =
    some (record t { workers = at w waiting t.workers; ok_count = suc t.ok_count })
count_outcome w (answered (err code message)) t =
    some
      (record t { workers = at w (counting code message) t.workers; err_count = suc t.err_count })
count_outcome w _ t = none

-- The maps, under the mutex.
unfoldable pub note_error : ℕ → Worker → LoadTest → Option LoadTest
unfolding count_up
note_error w (counting code message) t = some (record t {
  workers = at w waiting t.workers;
  error_by_code = count_up code t.error_by_code;
  error_by_message = count_up message t.error_by_message;
})
note_error w _ t = none

pub data Step : Type 0 where
  sends closes : Step
  takes places counts notes : ℕ → Step
  answers : ℕ → Outcome → Step

-- A worker is one of those that were started.
abbrev pub if_started : ℕ → LoadTest → Option LoadTest → Option LoadTest
if_started w t next = if ltb w t.concurrency then next else none

unfoldable pub step : Bytes → Step → LoadTest → Option LoadTest
unfolding send_job close_jobs take_job if_waiting send_bid get_answer count_outcome note_error
step auction_id sends t = send_job t
step auction_id closes t = close_jobs t
step auction_id (takes w) t = if_started w t (if_waiting (t.workers w) (take_job w t.jobs t))
step auction_id (places w) t = if_started w t (send_bid auction_id w (t.workers w) t)
step auction_id (answers w outcome) t = if_started w t (get_answer outcome w (t.workers w) t)
step auction_id (counts w) t = if_started w t (count_outcome w (t.workers w) t)
step auction_id (notes w) t = if_started w t (note_error w (t.workers w) t)

unfoldable pub steps : Bytes → List Step → LoadTest → Option LoadTest
unfolding step
steps auction_id [] t = some t
steps auction_id (x ∷ xs) t = elim (step auction_id x t) [
  | none ↦ none
  | some t' ↦ steps auction_id xs t'
]
