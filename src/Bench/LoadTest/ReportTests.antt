-- ===== src/Bench/LoadTest/ReportTests.antt =====
-- The report of a load test, with an insertion sort as `sort.Slice`.
use auctioneer.Base.{
  ℕ, ◌≤◌, ◌<◌, ◌≡◌, some, [], ◌∷◌, ◌++◌, arith, length, ltb, if◌then◌else◌, Bool-cases, inl, inr,
}
use mathlib.Core.List.{Mem, Perm, Pairwise, Pairwise-singleton, forall_mem-cons}
use mathlib.Core.List.Perm
use native.Mathlib.Bridge.{le_prop}
use auctioneer.Text.{Bytes}
use auctioneer.Text.Map.{Map}
use auctioneer.Bench.LoadTest.{
  new_load_test, steps, step, send_job, close_jobs, take_job, send_bid, get_answer, count_outcome,
  note_error, if_waiting,
}
use auctioneer.Bench.LoadTest.Counts.{total}
use auctioneer.Bench.LoadTest.Report.{report, report-explains, Falling}
use auctioneer.Bench.LoadTest.Tests.{id, acts, finished, acts_end, all_back}

unfoldable insert : Bytes × ℕ → Map ℕ → Map ℕ
insert x [] = x ∷ []
insert x (y ∷ ys) = let rest = insert x ys in if ltb x.1 y.1 then y ∷ rest else x ∷ y ∷ ys

unfoldable sorted : Map ℕ → Map ℕ
unfolding insert
sorted [] = []
sorted (x ∷ xs) = insert x (sorted xs)

insert-perm : (x : Bytes × ℕ) (l : Map ℕ) → Perm (insert x l) (x ∷ l)
unfolding insert
insert-perm x [] = Perm.rfl
insert-perm x (y ∷ ys) = elim (Bool-cases (ltb x.1 y.1)) [
  | inl less ↦ rw less (Perm.trans (Perm.cons y (insert-perm x ys)) (Perm.swap x y ys))
  | inr most ↦ rw most Perm.rfl
]

sorted-perm : (m : Map ℕ) → Perm (sorted m) m
unfolding sorted
sorted-perm [] = Perm.rfl
sorted-perm (x ∷ xs) = Perm.trans (insert-perm x (sorted xs)) (Perm.cons x (sorted-perm xs))

IsBelow : Bytes × ℕ → Map ℕ → Type 0
IsBelow x l = (y : Bytes × ℕ) → Mem y l → y.1 ≤ x.1

IsBelow-cons : (x y : Bytes × ℕ) (l : Map ℕ) → y.1 ≤ x.1 → IsBelow x l → IsBelow x (y ∷ l)
unfolding IsBelow
IsBelow-cons x y l h hs = (forall_mem-cons (λ z. le_prop)).1 (h, hs)

insert-Falling : (x : Bytes × ℕ) (l : Map ℕ) → Falling l → Falling (insert x l)
unfolding insert IsBelow
insert-Falling x [] f = Pairwise-singleton _ x
insert-Falling x (y ∷ ys) (Pairwise.cons below f) = elim (Bool-cases (ltb x.1 y.1)) [
  | inl less ↦ rw less (
      Pairwise.cons
        (λ z m.
          IsBelow-cons y x ys (ground (arith, less)) below z
            ((Perm.mem_iff (insert-perm x ys)).0 m))
        (insert-Falling x ys f))
  | inr most ↦
      let lower : y.1 ≤ x.1 = ground (arith, most) in
      rw most (
        Pairwise.cons (IsBelow-cons x y ys lower (λ z m. omega (arith, below z m, lower)))
          (Pairwise.cons below f))
]

sorted-Falling : (m : Map ℕ) → Falling (sorted m)
unfolding sorted
sorted-Falling [] = Pairwise.nil
sorted-Falling (x ∷ xs) = insert-Falling x (sorted xs) (sorted-Falling xs)

some_error : 0 < finished.err_count
unfolding finished new_load_test steps step send_job close_jobs take_job send_bid get_answer
    count_outcome note_error if_waiting
some_error = omega arith

report-explains_example :
    (printed rest : Map ℕ) × (report sorted finished
      ≡ some (sorted finished.error_by_code, printed))
    × (total (sorted finished.error_by_code) ≡ finished.err_count)
    × Perm (printed ++ rest) finished.error_by_message
    × (length printed ≤ 5)
    × (length printed < 5 → rest ≡ [])
    × ((x : Bytes × ℕ) → Mem x printed → (y : Bytes × ℕ) → Mem y rest → y.1 ≤ x.1)
report-explains_example =
    report-explains sorted sorted-perm sorted-Falling id 2 1 acts finished acts_end all_back
      some_error
