-- ===== src/Bench/LoadTest/Tests.antt =====
-- A load test of two requests with one worker: the first bid fails, and the second one does not.
use auctioneer.Base.{
  zero, suc, ◌+◌, ◌*◌, ◌≤◌, ◌≡◌, refl, none, some, List, [], ◌∷◌, map, arith, length, ◌⊎◌,
}
use auctioneer.Text.{Bytes, codes}
use auctioneer.Transport.Grpc.{PlaceBidMessage}
use auctioneer.Bench.LoadTest.{
  LoadTest, ok, err, new_load_test, Step, sends, closes, takes, places, counts, notes, answers,
  step, steps, send_job, close_jobs, take_job, send_bid, get_answer, count_outcome, note_error,
  if_waiting,
}
use auctioneer.Bench.LoadTest.Counts.{sum_below, has_number, in_flight, is_counting, total}
use auctioneer.Bench.LoadTest.Ends.{run-counts, run-ends, returned-counts, AllReturned, Moves}
use auctioneer.Bench.LoadTest.BidIds.{AllDiffer}

abbrev pub id : Bytes
id = codes "a"

abbrev pub acts : List Step
acts =
    sends
    ∷ takes 0
    ∷ sends
    ∷ places 0
    ∷ answers 0 (err (codes "Internal") (codes "down"))
    ∷ counts 0
    ∷ notes 0
    ∷ takes 0
    ∷ places 0
    ∷ closes
    ∷ answers 0 ok
    ∷ counts 0
    ∷ takes 0
    ∷ []

unfoldable pub finished : LoadTest
unfolding steps
finished = elim (steps id acts (new_load_test 2 1)) [ none ↦ new_load_test 0 0 | some t ↦ t ]

pub acts_end : steps id acts (new_load_test 2 1) ≡ some finished
unfolding finished new_load_test steps step send_job close_jobs take_job send_bid get_answer
    count_outcome note_error if_waiting
acts_end = refl

pub all_back : AllReturned finished
unfolding finished new_load_test steps step send_job close_jobs take_job send_bid get_answer
    count_outcome note_error if_waiting
all_back zero below = refl
all_back (suc w) below = absurd (omega arith)

run-counts_example :
    AllDiffer (map PlaceBidMessage.bid_id finished.bids)
    × (length finished.bids
          + (sum_below has_number finished.concurrency finished.workers + length finished.jobs)
        ≡ finished.next)
    × (finished.ok_count
          + (finished.err_count + sum_below in_flight finished.concurrency finished.workers)
        ≡ length finished.bids)
    × (total finished.error_by_code + sum_below is_counting finished.concurrency finished.workers
        ≡ finished.err_count)
    × (total finished.error_by_message + sum_below is_counting finished.concurrency finished.workers
        ≡ finished.err_count)
run-counts_example = run-counts id 2 1 acts finished acts_end

run-ends_example : (length acts ≤ 2 * 6 + suc 1) × (AllReturned finished ⊎ Moves id finished)
run-ends_example = run-ends id 2 1 acts finished acts_end (omega arith)

returned-counts_example :
    (length finished.bids ≡ 2)
    × (finished.ok_count + finished.err_count ≡ 2)
    × AllDiffer (map PlaceBidMessage.bid_id finished.bids)
returned-counts_example = returned-counts id 2 1 acts finished acts_end (omega arith) all_back
