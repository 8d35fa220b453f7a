-- ===== src/Bench/LoadTest/Counts/Steps.antt =====
-- bench/loadtest/main.go: every step keeps what holds of the numbers, the workers and the counters.
use auctioneer.Base.{
  ℕ, ◌<◌, ◌≡◌, refl, Option, none, some, List, [], ◌∷◌, if◌then◌else◌, Bool-cases, Option-cases,
  inl, inr, ltb, ltb→lt,
}
use mathlib.Core.Path.{subst}
use auctioneer.Text.{Bytes}
use auctioneer.Bench.LoadTest.{
  LoadTest, Worker, waiting, returned, holding, bidding, answered, counting, Outcome, ok, err,
  if_waiting, send_bid, get_answer, count_outcome, note_error, Step, sends, closes, takes, places,
  counts, notes, answers, step, steps,
}
use auctioneer.Bench.LoadTest.Counts.{IsValid}
use auctioneer.Bench.LoadTest.Counts.Kept.{of_some, send_job-IsValid, close_jobs-IsValid}
use auctioneer.Bench.LoadTest.Counts.Moved.{
  take_job-IsValid, placed-IsValid, get_answer-IsValid, succeeded-IsValid, failed-IsValid,
  noted-IsValid,
}

pub if_waiting-some :
    (v : Worker) (next : Option LoadTest) (t : LoadTest)
    → if_waiting v next ≡ some t
    → (v ≡ waiting) × (next ≡ some t)
unfolding if_waiting
if_waiting-some waiting next t e = (refl, e)
if_waiting-some returned next t e = absurd (cc)
if_waiting-some (holding n) next t e = absurd (cc)
if_waiting-some (bidding n) next t e = absurd (cc)
if_waiting-some (answered o) next t e = absurd (cc)
if_waiting-some (counting code message) next t e = absurd (cc)

send_bid-IsValid :
    (a : Bytes) (w : ℕ) (u : Worker) (t t' : LoadTest)
    → w < t.concurrency
    → t.workers w ≡ u
    → IsValid a t
    → send_bid a w u t ≡ some t'
    → IsValid a t'
unfolding send_bid
send_bid-IsValid a w (holding n) t t' started here v e =
    subst (IsValid a) (of_some e) (placed-IsValid a w (holding n) t started here v n refl)
send_bid-IsValid a w waiting t t' started here v e = absurd (cc)
send_bid-IsValid a w returned t t' started here v e = absurd (cc)
send_bid-IsValid a w (bidding n) t t' started here v e = absurd (cc)
send_bid-IsValid a w (answered o) t t' started here v e = absurd (cc)
send_bid-IsValid a w (counting code message) t t' started here v e = absurd (cc)

answers-IsValid :
    (a : Bytes) (outcome : Outcome) (w : ℕ) (u : Worker) (t t' : LoadTest)
    → w < t.concurrency
    → t.workers w ≡ u
    → IsValid a t
    → get_answer outcome w u t ≡ some t'
    → IsValid a t'
unfolding get_answer
answers-IsValid a outcome w (bidding n) t t' started here v e =
    subst (IsValid a) (of_some e)
      (get_answer-IsValid a w (bidding n) t started here v outcome n refl)
answers-IsValid a outcome w waiting t t' started here v e = absurd (cc)
answers-IsValid a outcome w returned t t' started here v e = absurd (cc)
answers-IsValid a outcome w (holding n) t t' started here v e = absurd (cc)
answers-IsValid a outcome w (answered o) t t' started here v e = absurd (cc)
answers-IsValid a outcome w (counting code message) t t' started here v e = absurd (cc)

count_outcome-IsValid :
    (a : Bytes) (w : ℕ) (u : Worker) (t t' : LoadTest)
    → w < t.concurrency
    → t.workers w ≡ u
    → IsValid a t
    → count_outcome w u t ≡ some t'
    → IsValid a t'
unfolding count_outcome
count_outcome-IsValid a w (answered ok) t t' started here v e =
    subst (IsValid a) (of_some e) (succeeded-IsValid a w (answered ok) t started here v refl)
count_outcome-IsValid a w (answered (err code message)) t t' started here v e =
    subst (IsValid a) (of_some e)
      (failed-IsValid a w (answered (err code message)) t started here v code message refl)
count_outcome-IsValid a w waiting t t' started here v e = absurd (cc)
count_outcome-IsValid a w returned t t' started here v e = absurd (cc)
count_outcome-IsValid a w (holding n) t t' started here v e = absurd (cc)
count_outcome-IsValid a w (bidding n) t t' started here v e = absurd (cc)
count_outcome-IsValid a w (counting code message) t t' started here v e = absurd (cc)

note_error-IsValid :
    (a : Bytes) (w : ℕ) (u : Worker) (t t' : LoadTest)
    → w < t.concurrency
    → t.workers w ≡ u
    → IsValid a t
    → note_error w u t ≡ some t'
    → IsValid a t'
unfolding note_error
note_error-IsValid a w (counting code message) t t' started here v e =
    subst (IsValid a) (of_some e)
      (noted-IsValid a w (counting code message) t started here v code message refl)
note_error-IsValid a w waiting t t' started here v e = absurd (cc)
note_error-IsValid a w returned t t' started here v e = absurd (cc)
note_error-IsValid a w (holding n) t t' started here v e = absurd (cc)
note_error-IsValid a w (bidding n) t t' started here v e = absurd (cc)
note_error-IsValid a w (answered o) t t' started here v e = absurd (cc)

-- A step of a worker is one of those that were started.
pub of_started :
    (w n : ℕ) (o : Option LoadTest) (t : LoadTest)
    → (if ltb w n then o else none) ≡ some t
    → (w < n) × (o ≡ some t)
of_started w n o t e = elim (Bool-cases (ltb w n)) [
  | inl below ↦ (ltb→lt w n below, rw below at e)
  | inr beyond ↦ absurd (cc (rw beyond at e))
]

pub step-IsValid :
    (a : Bytes) (x : Step) (t t' : LoadTest) → IsValid a t → step a x t ≡ some t' → IsValid a t'
unfolding step
step-IsValid a sends t t' v e = send_job-IsValid a t t' v e
step-IsValid a closes t t' v e = close_jobs-IsValid a t t' v e
step-IsValid a (takes w) t t' v e =
    let (started, taking) = of_started w t.concurrency _ t' e in
    let (idle, goes) = if_waiting-some (t.workers w) _ t' taking in
    take_job-IsValid a w (t.workers w) t started refl v t.jobs t' idle refl goes
step-IsValid a (places w) t t' v e =
    let (started, goes) = of_started w t.concurrency _ t' e in
    send_bid-IsValid a w (t.workers w) t t' started refl v goes
step-IsValid a (answers w outcome) t t' v e =
    let (started, goes) = of_started w t.concurrency _ t' e in
    answers-IsValid a outcome w (t.workers w) t t' started refl v goes
step-IsValid a (counts w) t t' v e =
    let (started, goes) = of_started w t.concurrency _ t' e in
    count_outcome-IsValid a w (t.workers w) t t' started refl v goes
step-IsValid a (notes w) t t' v e =
    let (started, goes) = of_started w t.concurrency _ t' e in
    note_error-IsValid a w (t.workers w) t t' started refl v goes

-- One step and the others.
pub steps-first :
    (a : Bytes) (x : Step) (xs : List Step) (t t' : LoadTest)
    → steps a (x ∷ xs) t ≡ some t'
    → (u : LoadTest) × (step a x t ≡ some u) × (steps a xs u ≡ some t')
unfolding steps
steps-first a x xs t t' e = elim (Option-cases (step a x t)) [
  | inl stuck ↦ absurd (cc (rw (steps, stuck) at e))
  | inr (u, goes) ↦ (u, goes, rw (steps, goes) at e)
]

pub steps-IsValid :
    (a : Bytes) (xs : List Step) (t t' : LoadTest)
    → IsValid a t
    → steps a xs t ≡ some t'
    → IsValid a t'
unfolding steps
steps-IsValid a [] t t' v e = subst (IsValid a) (of_some e) v
steps-IsValid a (x ∷ xs) t t' v e =
    let (u, first, others) = steps-first a x xs t t' e in
    steps-IsValid a xs u t' (step-IsValid a x t u v first) others
