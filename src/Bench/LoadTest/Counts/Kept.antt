-- ===== src/Bench/LoadTest/Counts/Kept.antt =====
-- bench/loadtest/main.go: the start and the producer, and what holds of the numbers, the workers and the counters.
use auctioneer.Base.{
  ℕ, suc, ◌*◌, ◌<◌, ◌≡◌, refl, Bool, true, false, Option, none, some, [], ◌∷◌, ◌++◌, if◌then◌else◌,
  arith, length, length-append, ltb,
}
use mathlib.Core.Path.{subst}
use auctioneer.Text.{Bytes}
use auctioneer.Bench.LoadTest.{LoadTest, waiting, new_load_test, send_job, close_jobs}
use auctioneer.Bench.LoadTest.Counts.{
  IsValid, has_number, holds, in_flight, is_counting, times, sum_below-zero, times-snoc, total,
}

pub new_load_test-IsValid :
    (a : Bytes) (requests concurrency : ℕ) → IsValid a (new_load_test requests concurrency)
unfolding new_load_test times total
new_load_test-IsValid a requests concurrency = record {
  numbers = [];
  placed = tt;
  once = λ m. omega (arith, sum_below-zero (holds m) concurrency waiting refl);
  sent = omega (arith, sum_below-zero has_number concurrency waiting refl);
  balanced = omega (arith, sum_below-zero in_flight concurrency waiting refl);
  tallied = record {
    codes_map = tt;
    messages_map = tt;
    codes_total = omega (arith, sum_below-zero is_counting concurrency waiting refl);
    messages_total = omega (arith, sum_below-zero is_counting concurrency waiting refl);
  };
  in_range = omega arith;
  room = omega arith;
  all_sent = λ e. absurd (cc);
  drained = λ w e. absurd (cc);
}

pub of_some : {t u : LoadTest} → some t ≡ some u → t ≡ u
of_some e = cc

pub only_if :
    (b : Bool) (t u : LoadTest) → (if b then some t else none) ≡ some u → (b ≡ true) × (t ≡ u)
only_if true t u e = (refl, of_some e)
only_if false t u e = absurd (cc)

pub unless :
    (b : Bool) (o : Option LoadTest) (u : LoadTest)
    → (if b then none else o) ≡ some u
    → (b ≡ false) × (o ≡ some u)
unless true o u e = absurd (cc)
unless false o u e = (refl, e)

-- What lets the producer send.
pub send_job-some :
    (t t' : LoadTest)
    → send_job t ≡ some t'
    → (t.next < t.requests)
      × (length t.jobs < t.concurrency * 2)
      × (record t { jobs = t.jobs ++ t.next ∷ []; next = suc t.next } ≡ t')
unfolding send_job
send_job-some t t' e =
    let (goes, same) = only_if _ _ _ e in (ground (arith, goes), ground (arith, goes), same)

pub send_job-IsValid :
    (a : Bytes) (t t' : LoadTest) → IsValid a t → send_job t ≡ some t' → IsValid a t'
send_job-IsValid a t t' v e =
    let (more, space, same) = send_job-some t t' e in
    let longer = length-append t.jobs (t.next ∷ []) in
    subst (IsValid a) same (record {
      numbers = v.numbers;
      placed = v.placed;
      once = λ m. ground (arith, v.once m, times-snoc m t.next t.jobs);
      sent = omega (arith, longer, v.sent);
      balanced = v.balanced;
      tallied = v.tallied;
      in_range = omega arith;
      room = omega (arith, longer);
      all_sent = λ c. absurd (omega (arith, v.all_sent c));
      drained = λ w r. absurd (omega (arith, v.all_sent (v.drained w r).0));
    })

pub close_jobs-IsValid :
    (a : Bytes) (t t' : LoadTest) → IsValid a t → close_jobs t ≡ some t' → IsValid a t'
unfolding close_jobs
close_jobs-IsValid a t t' v e =
    let (all, again) = unless (ltb t.next t.requests) _ _ e in
    let (first, same) = unless t.closed _ _ again in
    subst (IsValid a) (of_some same) (record {
      numbers = v.numbers;
      placed = v.placed;
      once = v.once;
      sent = v.sent;
      balanced = v.balanced;
      tallied = v.tallied;
      in_range = v.in_range;
      room = v.room;
      all_sent = λ c. ground (arith, all, v.in_range);
      drained = λ w r. absurd (cc ((v.drained w r).0, first));
    })
