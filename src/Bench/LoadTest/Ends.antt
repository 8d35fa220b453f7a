-- ===== src/Bench/LoadTest/Ends.antt =====
-- bench/loadtest/main.go from the start to `wg.Wait()`.
use auctioneer.Base.{
  ℕ, zero, suc, ◌+◌, ◌*◌, ◌≤◌, ◌<◌, ◌==◌, ◌≡◌, ◌≢◌, ◌∙◌, refl, ap, true, false, none, some, List,
  [], ◌∷◌, map, arith, length, Bool-cases, Option-cases, inl, inr, ◌⊎◌, ltb, ltb→lt, lt→ltb, ==_iff,
  le→ltb,
}
use auctioneer.Text.{Bytes}
use auctioneer.Text.Map.{is_some}
use auctioneer.Bench.LoadTest.{
  LoadTest, Worker, waiting, returned, holding, bidding, answered, counting, ok, err, new_load_test,
  send_job, close_jobs, take_job, if_waiting, send_bid, get_answer, count_outcome, note_error, Step,
  sends, closes, takes, places, counts, notes, answers, step, steps,
}
use auctioneer.Transport.Grpc.{PlaceBidMessage}
use auctioneer.Bench.LoadTest.BidIds.{AllDiffer, Placed-AllDiffer}
use auctioneer.Bench.LoadTest.Counts.{IsValid, sum_below, has_number, in_flight, is_counting, total}
use auctioneer.Bench.LoadTest.Counts.Kept.{new_load_test-IsValid}
use auctioneer.Bench.LoadTest.Counts.Steps.{steps-IsValid}
use auctioneer.Bench.LoadTest.Progress.{steps_left, steps_left-new, steps-Falls}

-- Some step can happen.
abbrev pub Moves : Bytes → LoadTest → Type 0
Moves a t = (x : Step) × (t' : LoadTest) × (step a x t ≡ some t')

-- All workers that were started are back, which `wg.Wait()` waits for.
abbrev pub AllReturned : LoadTest → Type 0
AllReturned t = (w : ℕ) → w < t.concurrency → t.workers w ≡ returned

moving : (a : Bytes) (x : Step) (t : LoadTest) → is_some (step a x t) ≡ true → Moves a t
moving a x t h = elim (Option-cases (step a x t)) [
  | inl stuck ↦ absurd (cc (rw stuck at h))
  | inr (t', goes) ↦ (x, t', goes)
]

sends-Moves :
    (a : Bytes) (t : LoadTest) → t.next < t.requests → length t.jobs < t.concurrency * 2 → Moves a t
unfolding step send_job
sends-Moves a t more space = moving a sends t (rw (lt→ltb _ _ more, lt→ltb _ _ space) refl)

closes-Moves : (a : Bytes) (t : LoadTest) → t.requests ≤ t.next → t.closed ≡ false → Moves a t
unfolding step close_jobs
closes-Moves a t all first = moving a closes t (rw (le→ltb _ _ all, first) refl)

-- A worker that is not back: its call ends, it gets a number, or it finds the channel closed.
worker-Moves :
    (a : Bytes) (w : ℕ) (v : Worker) (js : List ℕ) (t : LoadTest)
    → w < t.concurrency
    → t.workers w ≡ v
    → v ≢ returned
    → t.jobs ≡ js
    → (t.closed ≡ true) ⊎ (js ≢ [])
    → Moves a t
unfolding step take_job if_waiting send_bid get_answer count_outcome note_error
worker-Moves a w returned js t started here busy first some_reason = absurd (busy refl)
worker-Moves a w (bidding n) js t started here busy first some_reason =
    moving a (answers w ok) t (rw (lt→ltb _ _ started, here) refl)
worker-Moves a w (holding n) js t started here busy first some_reason =
    moving a (places w) t (rw (lt→ltb _ _ started, here) refl)
worker-Moves a w (answered ok) js t started here busy first some_reason =
    moving a (counts w) t (rw (lt→ltb _ _ started, here) refl)
worker-Moves a w (answered (err code message)) js t started here busy first some_reason =
    moving a (counts w) t (rw (lt→ltb _ _ started, here) refl)
worker-Moves a w (counting code message) js t started here busy first some_reason =
    moving a (notes w) t (rw (lt→ltb _ _ started, here) refl)
worker-Moves a w waiting (n ∷ rest) t started here busy first some_reason =
    moving a (takes w) t (rw (lt→ltb _ _ started, here, first) refl)
worker-Moves a w waiting [] t started here busy first (inl over) =
    moving a (takes w) t (rw (lt→ltb _ _ started, here, first, over) refl)
worker-Moves a w waiting [] t started here busy first (inr job) = absurd (job refl)

is_back : (v : Worker) → (v ≡ returned) ⊎ (v ≢ returned)
is_back waiting = inr λ e. cc
is_back returned = inl refl
is_back (holding n) = inr λ e. cc
is_back (bidding n) = inr λ e. cc
is_back (answered outcome) = inr λ e. cc
is_back (counting code message) = inr λ e. cc

find_busy :
    (n : ℕ) (workers : ℕ → Worker)
    → ((w : ℕ) → w < n → workers w ≡ returned) ⊎ ((w : ℕ) × (w < n) × (workers w ≢ returned))
find_busy zero workers = inl λ w h. absurd (omega arith)
find_busy (suc n) workers = elim (is_back (workers n)) [
  | inr busy ↦ inr (n, omega arith, busy)
  | inl back ↦ elim (find_busy n workers) [
    | inr (w, below, busy) ↦ inr (w, omega arith, busy)
    | inl others ↦ inl λ w h. elim (Bool-cases (w == n)) [
      | inl here ↦ ap workers ((==_iff w n).0 here) ∙ back
      | inr there ↦ others w (ground arith)
    ]
  ]
]

-- Somebody moves until all are back.
goes_or_returned :
    (a : Bytes) (t : LoadTest) → IsValid a t → 0 < t.concurrency → AllReturned t ⊎ Moves a t
goes_or_returned a t v started = elim (Bool-cases (ltb t.next t.requests)) [
  | inl more ↦ elim (Bool-cases (ltb (length t.jobs) (t.concurrency * 2))) [
    | inl space ↦ inr (sends-Moves a t (ltb→lt _ _ more) (ltb→lt _ _ space))
    | inr full ↦ inr (
        worker-Moves a 0 (t.workers 0) t.jobs t started refl
          (λ back. absurd (ground (arith, more, v.all_sent (v.drained 0 back).0))) refl
          (inr λ e. absurd (ground (arith, full, ap length e))))
  ]
  | inr all ↦ elim (Bool-cases t.closed) [
    | inl over ↦ elim (find_busy t.concurrency t.workers) [
      | inl all_back ↦ inl all_back
      | inr (w, below, busy) ↦
          inr (worker-Moves a w (t.workers w) t.jobs t below refl busy refl (inl over))
    ]
    | inr open_still ↦ inr (closes-Moves a t (ground (arith, all)) open_still)
  ]
]

-- Nothing is counted of workers that are back.
pub none_left_of :
    (f : Worker → ℕ) (n : ℕ) (workers : ℕ → Worker)
    → f returned ≡ 0
    → ((w : ℕ) → w < n → workers w ≡ returned)
    → sum_below f n workers ≡ 0
unfolding sum_below
none_left_of f zero workers h back = refl
none_left_of f (suc n) workers h back = omega (
  arith,
  h,
  ap f (back n (omega arith)),
  none_left_of f n workers h (λ w below. back w (omega arith)),
)

module _ (a : Bytes) (requests concurrency : ℕ) (xs : List Step) (t : LoadTest)
    (reached : steps a xs (new_load_test requests concurrency) ≡ some t) where
  valid : IsValid a t
  valid = steps-IsValid a xs _ t (new_load_test-IsValid a requests concurrency) reached

  -- In every state that a run reaches from the start, in whatever order the goroutines act: no two bids
  -- have the same id; the numbers sent are as many as the bids, the numbers that workers hold and those in the
  -- channel; the outcomes counted and the bids that are not counted yet are the bids placed; and the
  -- counts by code, and those by message, are with the errors that are not noted yet all the errors.
  pub run-counts :
      AllDiffer (map PlaceBidMessage.bid_id t.bids)
      × (length t.bids + (sum_below has_number t.concurrency t.workers + length t.jobs) ≡ t.next)
      × (t.ok_count + (t.err_count + sum_below in_flight t.concurrency t.workers) ≡ length t.bids)
      × (total t.error_by_code + sum_below is_counting t.concurrency t.workers ≡ t.err_count)
      × (total t.error_by_message + sum_below is_counting t.concurrency t.workers ≡ t.err_count)
  run-counts = (
    Placed-AllDiffer a valid.numbers t.bids (λ m. ground (arith, valid.once m)) valid.placed,
    valid.sent,
    valid.balanced,
    valid.tallied.codes_total,
    valid.tallied.messages_total,
  )

  -- With a worker at least, a run takes at most six steps for each request, one for each worker and
  -- one more; and as long as a worker is not back, some step can happen. So the load test always ends.
  pub run-ends :
      0 < concurrency → (length xs ≤ requests * 6 + suc concurrency) × (AllReturned t ⊎ Moves a t)
  run-ends some_worker =
      let (_, same, left) = steps-Falls a xs _ t reached in
      let enough : length xs + steps_left t ≤ requests * 6 + suc concurrency =
        omega (arith, left, steps_left-new requests concurrency) in
      (
        omega (arith, enough),
        goes_or_returned a t valid (unfold new_load_test in omega (arith, same)),
      )

  -- When all workers are back, of one at least, as many bids were placed as requests were asked for, and
  -- each was counted once, as a success or as an error; and no two of them had the same bid id.
  pub returned-counts :
      0 < concurrency
      → AllReturned t
      → (length t.bids ≡ requests)
        × (t.ok_count + t.err_count ≡ requests)
        × AllDiffer (map PlaceBidMessage.bid_id t.bids)
  returned-counts some_worker back =
      let (all, same, _) = steps-Falls a xs _ t reached in
      let started : 0 < t.concurrency = unfold new_load_test in omega (arith, same) in
      let (over, none_left) = valid.drained 0 (back 0 started) in
      let placed : length t.bids ≡ requests =
        unfold new_load_test in
        omega (
          arith,
          all,
          valid.sent,
          valid.all_sent over,
          ap length none_left,
          none_left_of has_number t.concurrency t.workers refl back,
        ) in
      (
        placed,
        omega (
          arith,
          placed,
          valid.balanced,
          none_left_of in_flight t.concurrency t.workers refl back,
        ),
        run-counts.0,
      )

-- With no worker and a request to send, nothing can happen: the channel has no room and no receiver.
stuck-without_workers :
    (a : Bytes) (requests : ℕ) (x : Step) → step a x (new_load_test (suc requests) 0) ≡ none
unfolding step send_job close_jobs new_load_test
stuck-without_workers a requests sends = rw (lt→ltb 0 (suc requests) (omega arith)) refl
stuck-without_workers a requests closes = rw (lt→ltb 0 (suc requests) (omega arith)) refl
stuck-without_workers a requests (takes w) = rw (le→ltb w 0 (omega arith)) refl
stuck-without_workers a requests (answers w outcome) = rw (le→ltb w 0 (omega arith)) refl
stuck-without_workers a requests (places w) = rw (le→ltb w 0 (omega arith)) refl
stuck-without_workers a requests (counts w) = rw (le→ltb w 0 (omega arith)) refl
stuck-without_workers a requests (notes w) = rw (le→ltb w 0 (omega arith)) refl
