-- ===== src/Bench/LoadTest/Report.antt =====
-- bench/loadtest/main.go from `wg.Wait()` on: what is printed of the errors.
use auctioneer.Base.{
  ℕ, zero, suc, ◌≤◌, ◌<◌, ◌≡◌, ◌∙◌, refl, ap, Option, none, some, List, [], ◌∷◌, ◌++◌,
  if◌then◌else◌, arith, length, ltb, lt→ltb,
}
use mathlib.Core.Path.{subst}
use mathlib.Core.Logic.{∥∥₁_elim}
use mathlib.Core.List.{Mem, Perm, Permᴰ, Pairwise, Pairwise-append}
use native.Mathlib.Nat.{ℕ_set}
use native.Mathlib.Bridge.{le_prop}
use auctioneer.Text.{Bytes}
use auctioneer.Text.Map.{Map}
use auctioneer.Bench.LoadTest.{LoadTest, new_load_test, Step, steps}
use auctioneer.Bench.LoadTest.Counts.{total, is_counting}
use auctioneer.Bench.LoadTest.Ends.{AllReturned, none_left_of}
use auctioneer.Bench.LoadTest.Counts.Kept.{new_load_test-IsValid}
use auctioneer.Bench.LoadTest.Counts.Steps.{steps-IsValid}

-- `limit`: five, or the messages if they are fewer.
unfoldable pub limit_of : Map ℕ → ℕ
limit_of messages = if ltb (length messages) 5 then length messages else 5

-- The loop that prints `messages[i]` for `i` below `n`: `none` is an index that is out of range.
unfoldable pub first : ℕ → Map ℕ → Option (Map ℕ)
first zero messages = some []
first (suc n) [] = none
first (suc n) (m ∷ messages) = elim (first n messages) [ none ↦ none | some ms ↦ some (m ∷ ms) ]

-- What is printed: the codes and the messages, with their counts. `sorted` is the loop over a map, in
-- the order that Go picks, with `sort.Slice` behind it.
unfoldable pub report : (Map ℕ → Map ℕ) → LoadTest → Option (Map ℕ × Map ℕ)
unfolding limit_of first
report sorted t =
    let messages = sorted t.error_by_message in
    let printed = first (limit_of messages) messages in
    if ltb 0 t.err_count
    then (elim printed [ none ↦ none | some ms ↦ some (sorted t.error_by_code, ms) ])
    else some ([], [])

-- `sort.Slice` with the counts, the largest first.
abbrev pub Falling : Map ℕ → Type 0
Falling = Pairwise (λ x y. y.1 ≤ x.1)

abbrev count : Bytes × ℕ → ℕ
count (k, n) = n

total-same : {m m' : Map ℕ} → Permᴰ m m' → total m ≡ total m'
unfolding total
total-same Permᴰ.nil = refl
total-same (Permᴰ.cons e p) = omega (arith, ap count e, total-same p)
total-same (Permᴰ.swap e e') = omega (arith, ap count e, ap count e')
total-same (Permᴰ.trans p q) = total-same p ∙ total-same q

total-perm : {m m' : Map ℕ} → Perm m m' → total m ≡ total m'
total-perm {m} {m'} p = ∥∥₁_elim p (ℕ_set (total m) (total m')) total-same

first-some :
    (n : ℕ) (messages : Map ℕ)
    → n ≤ length messages
    → (ms rest : Map ℕ) × (first n messages ≡ some ms) × (messages ≡ ms ++ rest) × (length ms ≡ n)
unfolding first
first-some zero messages h = ([], messages, refl, refl, refl)
first-some (suc n) [] h = absurd (omega arith)
first-some (suc n) (m ∷ messages) h =
    let (ms, rest, goes, same, size) = first-some n messages (omega arith) in
    (m ∷ ms, rest, rw goes refl, ap (λ q. m ∷ q) same, ap suc size)

limit_of-le : (messages : Map ℕ) → limit_of messages ≤ length messages
unfolding limit_of
limit_of-le messages = ground arith

none_behind : (ms rest : Map ℕ) → length (ms ++ rest) ≤ length ms → rest ≡ []
none_behind [] [] h = refl
none_behind [] (m ∷ rest) h = absurd (omega arith)
none_behind (m ∷ ms) rest h = none_behind ms rest (omega arith)

module _ (sorted : Map ℕ → Map ℕ) (sorted-perm : (m : Map ℕ) → Perm (sorted m) m)
    (sorted-Falling : (m : Map ℕ) → Falling (sorted m)) where
  -- The report of the errors of a load test of which all workers are back, if there were any and `sorted` gives the entries of a map
  -- ordered by falling counts: it is printed, with no index out of range; the counts of the codes add up
  -- to the errors; of the messages at most five are printed, all if they are fewer, and none that is
  -- left out was more frequent than one that is printed.
  pub report-explains :
      (a : Bytes) (requests concurrency : ℕ) (xs : List Step) (t : LoadTest)
      → steps a xs (new_load_test requests concurrency) ≡ some t
      → AllReturned t
      → 0 < t.err_count
      → (printed rest : Map ℕ) × (report sorted t ≡ some (sorted t.error_by_code, printed))
        × (total (sorted t.error_by_code) ≡ t.err_count)
        × Perm (printed ++ rest) t.error_by_message
        × (length printed ≤ 5)
        × (length printed < 5 → rest ≡ [])
        × ((x : Bytes × ℕ) → Mem x printed → (y : Bytes × ℕ) → Mem y rest → y.1 ≤ x.1)
  unfolding report limit_of
  report-explains a requests concurrency xs t reached back some_error =
      let valid = steps-IsValid a xs _ t (new_load_test-IsValid a requests concurrency) reached in
      let messages = sorted t.error_by_message in
      let (printed, rest, goes, same, size) =
        first-some (limit_of messages) messages (limit_of-le messages) in
      (
        printed,
        rest,
        rw (lt→ltb _ _ some_error, goes) refl,
        omega (
          arith,
          total-perm (sorted-perm t.error_by_code),
          valid.tallied.codes_total,
          none_left_of is_counting t.concurrency t.workers refl back,
        ),
        subst (λ q. Perm q t.error_by_message) same (sorted-perm t.error_by_message),
        ground (arith, size),
        (λ few. none_behind printed rest (ground (arith, size, few, ap length same))),
        ((Pairwise-append (λ x y. le_prop) {l₁ = printed} {l₂ = rest}).0
            (subst Falling same (sorted-Falling t.error_by_message))).2,
      )
