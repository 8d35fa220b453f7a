-- ===== src/Bench/LoadTest/Progress.antt =====
-- bench/loadtest/main.go: how many steps are left, and that there is one as long as a worker is not back.
use auctioneer.Base.{
  ℕ, zero, suc, ◌+◌, ◌-◌, ◌*◌, ◌≤◌, ◌<◌, ◌≡◌, ◌∙◌, refl, sym, ap, Bool, true, false, some, List, [],
  ◌∷◌, arith, length, length-append, ltb,
}
use mathlib.Core.Path.{subst}
use auctioneer.Text.{Bytes}
use auctioneer.Bench.LoadTest.{
  LoadTest, Worker, waiting, returned, holding, bidding, answered, counting, Outcome, ok, err,
  new_load_test, send_job, close_jobs, take_job, send_bid, get_answer, count_outcome, note_error,
  Step, sends, closes, takes, places, counts, notes, answers, step, steps,
}
use auctioneer.Bench.LoadTest.Counts.{sum_below, sum_below-at}
use auctioneer.Bench.LoadTest.Counts.Kept.{of_some, only_if, unless, send_job-some}
use auctioneer.Bench.LoadTest.Counts.Steps.{if_waiting-some, of_started, steps-first}

-- The steps that a worker has before it at most, once the channel is closed and empty.
abbrev pub weight : Worker → ℕ
weight waiting = 1
weight (holding n) = 5
weight (bidding n) = 4
weight (answered outcome) = 3
weight (counting code message) = 2
weight returned = 0

abbrev pub open_weight : Bool → ℕ
open_weight true = 0
open_weight false = 1

-- The steps that are left, at most: six for a number that is not sent yet, five for one in the channel.
unfoldable pub steps_left : LoadTest → ℕ
steps_left t =
    (t.requests - t.next) * 6
    + (length t.jobs * 5 + (open_weight t.closed + sum_below weight t.concurrency t.workers))

sum_below-started : (n : ℕ) → sum_below weight n (λ w. waiting) ≡ n
unfolding sum_below
sum_below-started zero = refl
sum_below-started (suc n) = omega (arith, sum_below-started n)

pub steps_left-new :
    (requests concurrency : ℕ)
    → steps_left (new_load_test requests concurrency) ≡ requests * 6 + suc concurrency
unfolding steps_left new_load_test
steps_left-new requests concurrency = omega (arith, sum_below-started concurrency)

-- A step leaves the flags alone, and one step fewer is left, or more than one.
pub record Falls (t t' : LoadTest) : Type 0 where
  pub same_requests : t'.requests ≡ t.requests
  pub same_concurrency : t'.concurrency ≡ t.concurrency
  pub falls : suc (steps_left t') ≤ steps_left t

send_job-Falls : (t t' : LoadTest) → send_job t ≡ some t' → Falls t t'
unfolding steps_left
send_job-Falls t t' e =
    let (more, space, same) = send_job-some t t' e in
    subst (Falls t) same (record {
      same_requests = refl;
      same_concurrency = refl;
      falls = omega (arith, length-append t.jobs (t.next ∷ []));
    })

close_jobs-Falls : (t t' : LoadTest) → close_jobs t ≡ some t' → Falls t t'
unfolding close_jobs steps_left
close_jobs-Falls t t' e =
    let (all, again) = unless (ltb t.next t.requests) _ _ e in
    let (first, same) = unless t.closed _ _ again in
    subst (Falls t) (of_some same) (record {
      same_requests = refl;
      same_concurrency = refl;
      falls = omega (arith, ap open_weight first);
    })

take_job-Falls :
    (w : ℕ) (js : List ℕ) (t t' : LoadTest)
    → w < t.concurrency
    → t.workers w ≡ waiting
    → t.jobs ≡ js
    → take_job w js t ≡ some t'
    → Falls t t'
unfolding take_job steps_left
take_job-Falls w [] t t' started idle first e =
    let (over, same) = only_if _ _ _ e in
    subst (Falls t) same (record {
      same_requests = refl;
      same_concurrency = refl;
      falls =
          omega
            (arith, sum_below-at weight t.concurrency w returned t.workers started, ap weight idle);
    })
take_job-Falls w (n ∷ rest) t t' started idle first e =
    let shorter : length t.jobs ≡ suc (length rest) = ap length first in
    subst (Falls t) (of_some e) (record {
      same_requests = refl;
      same_concurrency = refl;
      falls = omega (
        arith,
        shorter,
        ap weight idle,
        sum_below-at weight t.concurrency w (holding n) t.workers started,
      );
    })

send_bid-Falls :
    (a : Bytes) (w : ℕ) (u : Worker) (t t' : LoadTest)
    → w < t.concurrency
    → t.workers w ≡ u
    → send_bid a w u t ≡ some t'
    → Falls t t'
unfolding send_bid steps_left
send_bid-Falls a w (holding n) t t' started here e = subst (Falls t) (of_some e) (record {
  same_requests = refl;
  same_concurrency = refl;
  falls =
      omega
        (arith, ap weight here, sum_below-at weight t.concurrency w (bidding n) t.workers started);
})
send_bid-Falls a w waiting t t' started here e = absurd (cc)
send_bid-Falls a w returned t t' started here e = absurd (cc)
send_bid-Falls a w (bidding n) t t' started here e = absurd (cc)
send_bid-Falls a w (answered o) t t' started here e = absurd (cc)
send_bid-Falls a w (counting code message) t t' started here e = absurd (cc)

get_answer-Falls :
    (outcome : Outcome) (w : ℕ) (u : Worker) (t t' : LoadTest)
    → w < t.concurrency
    → t.workers w ≡ u
    → get_answer outcome w u t ≡ some t'
    → Falls t t'
unfolding get_answer steps_left
get_answer-Falls outcome w (bidding n) t t' started here e = subst (Falls t) (of_some e) (record {
  same_requests = refl;
  same_concurrency = refl;
  falls = omega (
    arith,
    ap weight here,
    sum_below-at weight t.concurrency w (answered outcome) t.workers started,
  );
})
get_answer-Falls outcome w waiting t t' started here e = absurd (cc)
get_answer-Falls outcome w returned t t' started here e = absurd (cc)
get_answer-Falls outcome w (holding n) t t' started here e = absurd (cc)
get_answer-Falls outcome w (answered o) t t' started here e = absurd (cc)
get_answer-Falls outcome w (counting code message) t t' started here e = absurd (cc)

count_outcome-Falls :
    (w : ℕ) (u : Worker) (t t' : LoadTest)
    → w < t.concurrency
    → t.workers w ≡ u
    → count_outcome w u t ≡ some t'
    → Falls t t'
unfolding count_outcome steps_left
count_outcome-Falls w (answered ok) t t' started here e = subst (Falls t) (of_some e) (record {
  same_requests = refl;
  same_concurrency = refl;
  falls =
      omega (arith, ap weight here, sum_below-at weight t.concurrency w waiting t.workers started);
})
count_outcome-Falls w (answered (err code message)) t t' started here e =
    subst (Falls t) (of_some e) (record {
      same_requests = refl;
      same_concurrency = refl;
      falls = omega (
        arith,
        ap weight here,
        sum_below-at weight t.concurrency w (counting code message) t.workers started,
      );
    })
count_outcome-Falls w waiting t t' started here e = absurd (cc)
count_outcome-Falls w returned t t' started here e = absurd (cc)
count_outcome-Falls w (holding n) t t' started here e = absurd (cc)
count_outcome-Falls w (bidding n) t t' started here e = absurd (cc)
count_outcome-Falls w (counting code message) t t' started here e = absurd (cc)

note_error-Falls :
    (w : ℕ) (u : Worker) (t t' : LoadTest)
    → w < t.concurrency
    → t.workers w ≡ u
    → note_error w u t ≡ some t'
    → Falls t t'
unfolding note_error steps_left
note_error-Falls w (counting code message) t t' started here e =
    subst (Falls t) (of_some e) (record {
      same_requests = refl;
      same_concurrency = refl;
      falls =
          omega
            (arith, ap weight here, sum_below-at weight t.concurrency w waiting t.workers started);
    })
note_error-Falls w waiting t t' started here e = absurd (cc)
note_error-Falls w returned t t' started here e = absurd (cc)
note_error-Falls w (holding n) t t' started here e = absurd (cc)
note_error-Falls w (bidding n) t t' started here e = absurd (cc)
note_error-Falls w (answered o) t t' started here e = absurd (cc)

step-Falls : (a : Bytes) (x : Step) (t t' : LoadTest) → step a x t ≡ some t' → Falls t t'
unfolding step
step-Falls a sends t t' e = send_job-Falls t t' e
step-Falls a closes t t' e = close_jobs-Falls t t' e
step-Falls a (takes w) t t' e =
    let (started, taking) = of_started w t.concurrency _ t' e in
    let (idle, goes) = if_waiting-some (t.workers w) _ t' taking in
    take_job-Falls w t.jobs t t' started idle refl goes
step-Falls a (places w) t t' e =
    let (started, goes) = of_started w t.concurrency _ t' e in
    send_bid-Falls a w (t.workers w) t t' started refl goes
step-Falls a (answers w outcome) t t' e =
    let (started, goes) = of_started w t.concurrency _ t' e in
    get_answer-Falls outcome w (t.workers w) t t' started refl goes
step-Falls a (counts w) t t' e =
    let (started, goes) = of_started w t.concurrency _ t' e in
    count_outcome-Falls w (t.workers w) t t' started refl goes
step-Falls a (notes w) t t' e =
    let (started, goes) = of_started w t.concurrency _ t' e in
    note_error-Falls w (t.workers w) t t' started refl goes

-- The flags stay, and each step of a run is one of those that were left.
pub steps-Falls :
    (a : Bytes) (xs : List Step) (t t' : LoadTest)
    → steps a xs t ≡ some t'
    → (t'.requests ≡ t.requests)
      × (t'.concurrency ≡ t.concurrency)
      × (length xs + steps_left t' ≤ steps_left t)
unfolding steps
steps-Falls a [] t t' e =
    let same = of_some e in
    (
      sym (ap LoadTest.requests same),
      sym (ap LoadTest.concurrency same),
      omega (arith, ap steps_left same),
    )
steps-Falls a (x ∷ xs) t t' e =
    let (u, first, others) = steps-first a x xs t t' e in
    let f = step-Falls a x t u first in
    let (requests, concurrency, left) = steps-Falls a xs u t' others in
    (requests ∙ f.same_requests, concurrency ∙ f.same_concurrency, omega (arith, left, f.falls))
