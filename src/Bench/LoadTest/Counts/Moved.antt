-- ===== src/Bench/LoadTest/Counts/Moved.antt =====
-- bench/loadtest/main.go: a step of one worker, and what holds of the numbers, the workers and the counters.
use auctioneer.Base.{
  ℕ, suc, ◌+◌, ◌≢◌, ◌<◌, ◌==◌, ◌≡◌, ap, true, some, List, [], ◌∷◌, ◌++◌, arith, length,
  length-append, Bool-cases, inl, inr,
}
use mathlib.Core.Path.{subst}
use auctioneer.Text.{Bytes}
use auctioneer.Bench.LoadTest.{
  LoadTest, Worker, waiting, returned, holding, bidding, answered, counting, request, at, Outcome,
  ok, err, take_job, count_up,
}
use auctioneer.Bench.LoadTest.Counts.{
  IsValid, Tallied, has_number, holds, in_flight, is_counting, times, sum_below, sum_below-at,
  times-snoc, Placed-snoc, total-count_up, IsMap-count_up,
}
use auctioneer.Bench.LoadTest.Counts.Kept.{of_some, only_if}

-- One worker goes from `u` to `u'`.
module _ (a : Bytes) (w : ℕ) (u : Worker) (t : LoadTest) (started : w < t.concurrency)
    (here : t.workers w ≡ u) (v : IsValid a t) where
  abbrev moved_to : Worker → ℕ → Worker
  moved_to u' = at w u' t.workers

  moved :
      (u' : Worker) (f : Worker → ℕ)
      → sum_below f t.concurrency (moved_to u') + f u ≡ sum_below f t.concurrency t.workers + f u'
  moved u' f = omega (arith, sum_below-at f t.concurrency w u' t.workers started, ap f here)

  still_drained :
      (u' : Worker)
      → u' ≢ returned
      → (d : ℕ) → moved_to u' d ≡ returned
      → (t.closed ≡ true) × (t.jobs ≡ [])
  still_drained u' busy d r = elim (Bool-cases (d == w)) [
    | inl same ↦ absurd (busy (rw same at r))
    | inr other ↦ v.drained d (rw other at r)
  ]

  -- To a place with the same counts as before, but for that the channel was found closed.
  returned-IsValid :
      u ≡ waiting
      → t.jobs ≡ []
      → t.closed ≡ true
      → IsValid a (record t { workers = moved_to returned })
  returned-IsValid idle none_left over = record {
    numbers = v.numbers;
    placed = v.placed;
    once = λ m. omega (arith, v.once m, moved returned (holds m), ap (holds m) idle);
    sent = omega (arith, v.sent, moved returned has_number, ap has_number idle);
    balanced = omega (arith, v.balanced, moved returned in_flight, ap in_flight idle);
    tallied = record {
      codes_map = v.tallied.codes_map;
      messages_map = v.tallied.messages_map;
      codes_total =
          omega (arith, v.tallied.codes_total, moved returned is_counting, ap is_counting idle);
      messages_total =
          omega (arith, v.tallied.messages_total, moved returned is_counting, ap is_counting idle);
    };
    in_range = v.in_range;
    room = v.room;
    all_sent = v.all_sent;
    drained = λ d r. (over, none_left);
  }

  taken-IsValid :
      (n : ℕ) (rest : List ℕ)
      → u ≡ waiting
      → t.jobs ≡ n ∷ rest
      → IsValid a (record t { jobs = rest; workers = moved_to (holding n) })
  unfolding times
  taken-IsValid n rest idle first =
      let shorter : length t.jobs ≡ suc (length rest) = ap length first in
      record {
        numbers = v.numbers;
        placed = v.placed;
        once = λ m.
            omega
              (arith, v.once m, moved (holding n) (holds m), ap (holds m) idle, ap (times m) first);
        sent = omega (arith, v.sent, shorter, moved (holding n) has_number, ap has_number idle);
        balanced = omega (arith, v.balanced, moved (holding n) in_flight, ap in_flight idle);
        tallied = record {
          codes_map = v.tallied.codes_map;
          messages_map = v.tallied.messages_map;
          codes_total =
              omega
                (arith, v.tallied.codes_total, moved (holding n) is_counting, ap is_counting idle);
          messages_total =
              omega (
                arith,
                v.tallied.messages_total,
                moved (holding n) is_counting,
                ap is_counting idle,
              );
        };
        in_range = v.in_range;
        room = omega (arith, shorter, v.room);
        all_sent = v.all_sent;
        drained = λ d r. absurd (cc ((still_drained (holding n) (λ e. cc) d r).1, first));
      }

  pub take_job-IsValid :
      (js : List ℕ) (t' : LoadTest)
      → u ≡ waiting
      → t.jobs ≡ js
      → take_job w js t ≡ some t'
      → IsValid a t'
  unfolding take_job
  take_job-IsValid [] t' idle first e =
      let (over, same) = only_if _ _ _ e in
      subst (IsValid a) same (returned-IsValid idle first over)
  take_job-IsValid (n ∷ rest) t' idle first e =
      subst (IsValid a) (of_some e) (taken-IsValid n rest idle first)

  pub placed-IsValid :
      (n : ℕ)
      → u ≡ holding n
      → IsValid a (record t { workers = moved_to (bidding n); bids = t.bids ++ request a w n ∷ [] })
  placed-IsValid n with_it =
      let longer = length-append t.bids (request a w n ∷ []) in
      record {
        numbers = v.numbers ++ n ∷ [];
        placed = Placed-snoc a n w v.numbers t.bids v.placed;
        once = λ m. omega (
          arith,
          v.once m,
          moved (bidding n) (holds m),
          ap (holds m) with_it,
          times-snoc m n v.numbers,
        );
        sent = omega (arith, v.sent, longer, moved (bidding n) has_number, ap has_number with_it);
        balanced =
            omega (arith, v.balanced, longer, moved (bidding n) in_flight, ap in_flight with_it);
        tallied = record {
          codes_map = v.tallied.codes_map;
          messages_map = v.tallied.messages_map;
          codes_total =
              omega (
                arith,
                v.tallied.codes_total,
                moved (bidding n) is_counting,
                ap is_counting with_it,
              );
          messages_total = omega (
            arith,
            v.tallied.messages_total,
            moved (bidding n) is_counting,
            ap is_counting with_it,
          );
        };
        in_range = v.in_range;
        room = v.room;
        all_sent = v.all_sent;
        drained = still_drained (bidding n) (λ e. cc);
      }

  -- To a place without a number, where the outcomes and errors that are counted add up again.
  recounted-IsValid :
      (u' : Worker) (t' : LoadTest)
      → u' ≢ returned
      → ((m : ℕ) → holds m u ≡ holds m u')
      → has_number u ≡ has_number u'
      → (t'.ok_count + t'.err_count) + in_flight u' ≡ (t.ok_count + t.err_count) + in_flight u
      → Tallied t'.err_count
          (sum_below is_counting t.concurrency (moved_to u'))
          t'.error_by_code
          t'.error_by_message
      → IsValid a (record t {
        workers = moved_to u';
        ok_count = t'.ok_count;
        err_count = t'.err_count;
        error_by_code = t'.error_by_code;
        error_by_message = t'.error_by_message;
      })
  recounted-IsValid u' t' busy numbers number counts tallied = record {
    numbers = v.numbers;
    placed = v.placed;
    once = λ m. omega (arith, v.once m, moved u' (holds m), numbers m);
    sent = omega (arith, v.sent, moved u' has_number, number);
    balanced = omega (arith, v.balanced, moved u' in_flight, counts);
    tallied = tallied;
    in_range = v.in_range;
    room = v.room;
    all_sent = v.all_sent;
    drained = still_drained u' busy;
  }

  pub get_answer-IsValid :
      (outcome : Outcome) (n : ℕ)
      → u ≡ bidding n
      → IsValid a (record t { workers = moved_to (answered outcome) })
  get_answer-IsValid outcome n busy =
      recounted-IsValid (answered outcome) t (λ e. cc) (λ m. ap (holds m) busy) (ap has_number busy)
        (omega (arith, ap in_flight busy))
        (record {
          codes_map = v.tallied.codes_map;
          messages_map = v.tallied.messages_map;
          codes_total = omega (
            arith,
            v.tallied.codes_total,
            moved (answered outcome) is_counting,
            ap is_counting busy,
          );
          messages_total = omega (
            arith,
            v.tallied.messages_total,
            moved (answered outcome) is_counting,
            ap is_counting busy,
          );
        })

  pub succeeded-IsValid :
      u ≡ answered ok
      → IsValid a (record t { workers = moved_to waiting; ok_count = suc t.ok_count })
  succeeded-IsValid done =
      recounted-IsValid waiting (record t { ok_count = suc t.ok_count }) (λ e. cc)
        (λ m. ap (holds m) done) (ap has_number done) (omega (arith, ap in_flight done))
        (record {
          codes_map = v.tallied.codes_map;
          messages_map = v.tallied.messages_map;
          codes_total =
              omega (arith, v.tallied.codes_total, moved waiting is_counting, ap is_counting done);
          messages_total =
              omega
                (arith, v.tallied.messages_total, moved waiting is_counting, ap is_counting done);
        })

  pub failed-IsValid :
      (code message : Bytes)
      → u ≡ answered (err code message)
      → IsValid a
          (record t { workers = moved_to (counting code message); err_count = suc t.err_count })
  failed-IsValid code message done =
      let one_more = moved (counting code message) is_counting in
      recounted-IsValid (counting code message) (record t { err_count = suc t.err_count }) (λ e. cc)
        (λ m. ap (holds m) done) (ap has_number done) (omega (arith, ap in_flight done))
        (record {
          codes_map = v.tallied.codes_map;
          messages_map = v.tallied.messages_map;
          codes_total = omega (arith, v.tallied.codes_total, one_more, ap is_counting done);
          messages_total = omega (arith, v.tallied.messages_total, one_more, ap is_counting done);
        })

  pub noted-IsValid :
      (code message : Bytes)
      → u ≡ counting code message
      → IsValid a (record t {
        workers = moved_to waiting;
        error_by_code = count_up code t.error_by_code;
        error_by_message = count_up message t.error_by_message;
      })
  noted-IsValid code message open_still =
      let noted : LoadTest = record t {
        error_by_code = count_up code t.error_by_code;
        error_by_message = count_up message t.error_by_message;
      } in
      recounted-IsValid waiting noted (λ e. cc) (λ m. ap (holds m) open_still)
        (ap has_number open_still) (omega (arith, ap in_flight open_still))
        (record {
          codes_map = IsMap-count_up code _ v.tallied.codes_map;
          messages_map = IsMap-count_up message _ v.tallied.messages_map;
          codes_total = omega (
            arith,
            total-count_up code _ v.tallied.codes_map,
            v.tallied.codes_total,
            moved waiting is_counting,
            ap is_counting open_still,
          );
          messages_total = omega (
            arith,
            total-count_up message _ v.tallied.messages_map,
            v.tallied.messages_total,
            moved waiting is_counting,
            ap is_counting open_still,
          );
        })
