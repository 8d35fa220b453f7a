-- ===== src/Bench/LoadTest/Counts.antt =====
-- bench/loadtest/main.go: what holds of the numbers, the workers and the counters after every step.
pub mod Kept
pub mod Moved
pub mod Steps
use auctioneer.Base.{
  ℕ, ltb, zero, suc, ◌+◌, ◌*◌, ◌≤◌, ◌<◌, ◌==◌, ◌≡◌, ◌∙◌, refl, sym, ap, Bool, true, false, Option,
  none, some, List, [], ◌∷◌, ◌++◌, if◌then◌else◌, arith, length, length-append, Bool-cases, inl,
  inr, ==_iff, append_assoc,
}
use auctioneer.Text.{Bytes, bytes_eq, bytes_eq_iff}
use auctioneer.Text.Map
use auctioneer.Text.Map.{Map, IsMap}
use auctioneer.Transport.Grpc.{PlaceBidMessage}
use auctioneer.Bench.LoadTest.{
  LoadTest, Worker, waiting, returned, holding, bidding, answered, counting, request, at, count_up,
  or_zero,
}

-- The sum of `f` over the workers below `n`.
unfoldable pub sum_below : (Worker → ℕ) → ℕ → (ℕ → Worker) → ℕ
sum_below f zero workers = 0
sum_below f (suc n) workers = f (workers n) + sum_below f n workers

-- A worker with a number that it has not bid with; with that number; with a bid that is not counted; and
-- with an error that is not noted.
abbrev pub has_number : Worker → ℕ
has_number (holding n) = 1
has_number _ = 0

abbrev pub holds : ℕ → Worker → ℕ
holds m (holding n) = if n == m then 1 else 0
holds m _ = 0

abbrev pub in_flight : Worker → ℕ
in_flight (bidding n) = 1
in_flight (answered outcome) = 1
in_flight _ = 0

abbrev pub is_counting : Worker → ℕ
is_counting (counting code message) = 1
is_counting _ = 0

-- How often `m` is in the list.
unfoldable pub times : ℕ → List ℕ → ℕ
times m [] = 0
times m (n ∷ ns) = (if n == m then 1 else 0) + times m ns

-- The bids are those of the numbers, each of some worker.
abbrev pub Placed : Bytes → List ℕ → List PlaceBidMessage → Type 0
Placed a [] [] = Unit
Placed a [] (b ∷ bs) = ⊥
Placed a (n ∷ ns) [] = ⊥
Placed a (n ∷ ns) (b ∷ bs) = ((w : ℕ) × (b ≡ request a w n)) × Placed a ns bs

-- The sum of the values of a map.
unfoldable pub total : Map ℕ → ℕ
total [] = 0
total ((k, n) ∷ m) = n + total m

-- Each error but those that are not noted yet is counted once by its code, and once by its message.
pub record Tallied (errors open_still : ℕ) (by_code by_message : Map ℕ) : Type 0 where
  pub codes_map : IsMap by_code
  pub messages_map : IsMap by_message
  pub codes_total : total by_code + open_still ≡ errors
  pub messages_total : total by_message + open_still ≡ errors

-- A number below `next` is in one place at most: with a bid, with a worker or in the channel.
pub record IsValid (a : Bytes) (t : LoadTest) : Type 0 where
  pub numbers : List ℕ
  pub placed : Placed a numbers t.bids
  pub once :
      (m : ℕ)
      → times m numbers + (sum_below (holds m) t.concurrency t.workers + times m t.jobs)
        ≤ (if ltb m t.next then 1 else 0)
  pub sent : length t.bids + (sum_below has_number t.concurrency t.workers + length t.jobs) ≡ t.next
  pub balanced :
      t.ok_count + (t.err_count + sum_below in_flight t.concurrency t.workers) ≡ length t.bids
  pub tallied :
      Tallied t.err_count
        (sum_below is_counting t.concurrency t.workers)
        t.error_by_code
        t.error_by_message
  pub in_range : t.next ≤ t.requests
  pub room : length t.jobs ≤ t.concurrency * 2
  pub all_sent : t.closed ≡ true → t.next ≡ t.requests
  pub drained : (w : ℕ) → t.workers w ≡ returned → (t.closed ≡ true) × (t.jobs ≡ [])

sum_below-beyond :
    (f : Worker → ℕ) (n w : ℕ) (v : Worker) (workers : ℕ → Worker)
    → n ≤ w
    → sum_below f n (at w v workers) ≡ sum_below f n workers
unfolding sum_below
sum_below-beyond f zero w v workers h = refl
sum_below-beyond f (suc n) w v workers h =
    ground (arith, sum_below-beyond f n w v workers (omega arith))

-- One worker changes.
pub sum_below-at :
    (f : Worker → ℕ) (n w : ℕ) (v : Worker) (workers : ℕ → Worker)
    → w < n
    → sum_below f n (at w v workers) + f (workers w) ≡ sum_below f n workers + f v
unfolding sum_below
sum_below-at f zero w v workers h = absurd (omega arith)
sum_below-at f (suc n) w v workers h = elim (Bool-cases (n == w)) [
  | inl here ↦
      (let same = (==_iff n w).0 here in
        rw here (
          omega
            (arith, sum_below-beyond f n w v workers (omega arith), ap (λ i. f (workers i)) same)))
  | inr there ↦ rw there (omega (arith, sum_below-at f n w v workers (ground arith)))
]

pub sum_below-zero : (f : Worker → ℕ) (n : ℕ) (v : Worker) → f v ≡ 0 → sum_below f n (λ w. v) ≡ 0
unfolding sum_below
sum_below-zero f zero v h = refl
sum_below-zero f (suc n) v h = omega (arith, sum_below-zero f n v h, h)

pub times-snoc :
    (m n : ℕ) (ns : List ℕ) → times m (ns ++ n ∷ []) ≡ times m ns + (if n == m then 1 else 0)
unfolding times
times-snoc m n [] = omega arith
times-snoc m n (k ∷ ns) = omega (arith, times-snoc m n ns)

pub Placed-snoc :
    (a : Bytes) (n w : ℕ) (ns : List ℕ) (bs : List PlaceBidMessage)
    → Placed a ns bs
    → Placed a (ns ++ n ∷ []) (bs ++ request a w n ∷ [])
Placed-snoc a n w [] [] h = ((w, refl), tt)
Placed-snoc a n w [] (b ∷ bs) h = absurd h
Placed-snoc a n w (k ∷ ns) [] h = absurd h
Placed-snoc a n w (k ∷ ns) (b ∷ bs) (h, hs) = (h, Placed-snoc a n w ns bs hs)

total-fresh : (k : Bytes) (m : Map ℕ) → Map.get k m ≡ none → total (Map.delete k m) ≡ total m
unfolding total Map.delete Map.get
total-fresh k [] e = refl
total-fresh k ((j, n) ∷ m) e = ground (arith, total-fresh k m)

total-delete :
    (k : Bytes) (m : Map ℕ) → IsMap m → or_zero (Map.get k m) + total (Map.delete k m) ≡ total m
unfolding total Map.delete Map.get
total-delete k [] h = refl
total-delete k ((j, n) ∷ m) (fresh, h) = elim (Bool-cases (bytes_eq j k)) [
  | inl same ↦ rw same (
      ap (λ i. n + i)
        (total-fresh k m (ap (λ i. Map.get i m) (sym ((bytes_eq_iff j k).0 same)) ∙ fresh)))
  | inr other ↦ rw other (omega (arith, total-delete k m h))
]

-- m[key]++
pub total-count_up : (k : Bytes) (m : Map ℕ) → IsMap m → total (count_up k m) ≡ suc (total m)
unfolding count_up Map.put total
total-count_up k m h = omega (arith, total-delete k m h)

pub IsMap-count_up : (k : Bytes) (m : Map ℕ) → IsMap m → IsMap (count_up k m)
unfolding count_up
IsMap-count_up k m h = Map.IsMap-put k _ m h
