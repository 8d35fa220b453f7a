-- ===== src/Engine/Breaker/Behaviour.antt =====
-- What the breaker promises: it lets calls through until enough failures came in a row, then
-- refuses them for a while, and starts anew.
use auctioneer.Base.{
  ℕ, suc, ◌+◌, ◌≤◌, ◌<◌, ◌^◌, ◌≡◌, ◌∙◌, refl, true, false, not, List, [], ◌∷◌, length, arith,
  if◌then◌else◌, ℤ, pos, ◌+ℤ◌, ◌<ℤ◌, ◌≤ℤ◌, ltb, ltb_ℤ, InInt64, wrap32, wrap64, wrap64-id, +ℤ_parts,
}
use auctioneer.Engine.Breaker.{CircuitBreaker, new_circuit_breaker, allow, fail, is_open}

-- `allow` refuses exactly while `isOpen` holds, and then changes nothing.
pub allow-is_open :
    (now : ℤ) (b : CircuitBreaker)
    → ((allow now b).1 ≡ not (is_open now b)) × (is_open now b ≡ true → allow now b ≡ (b, false))
unfolding allow is_open
allow-is_open now b = (ground arith, λ e. ground arith)

-- From the end of its time on an open breaker lets the call through, and counts from zero again.
pub allow-recovers :
    (now : ℤ) (b : CircuitBreaker)
    → b.open_until_ns ≤ℤ now
    → ((allow now b).1 ≡ true)
      × ((allow now b).0.open_until_ns ≡ pos 0)
      × (is_open now (allow now b).0 ≡ false)
unfolding allow is_open
allow-recovers now b h = (ground arith, ground arith, ground arith)

-- Failures one after the other, with the times at which they are counted.
unfoldable pub fail_all : List ℤ → CircuitBreaker → CircuitBreaker
fail_all [] b = b
fail_all (now ∷ ts) b = fail_all ts (fail now b)

abbrev pub last_or : ℤ → List ℤ → ℤ
last_or d [] = d
last_or d (t ∷ ts) = last_or t ts

wrap32-small : (n : ℕ) → suc n < 2 ^ 31 → wrap32 (pos n +ℤ pos 1) ≡ pos (suc n)
unfolding wrap32 ◌+ℤ◌
wrap32-small n h = ground arith

-- One failure of a breaker that has counted `n` of them.
fail_step :
    (now : ℤ) (b : CircuitBreaker) (n t : ℕ)
    → b.consecutive_fails ≡ pos n
    → b.failure_threshold ≡ pos t
    → suc n < 2 ^ 31
    → fail now b ≡ record b {
      consecutive_fails = pos (suc n);
      open_until_ns = if ltb (suc n) t then b.open_until_ns else wrap64 (now +ℤ b.open_for_ns);
    }
unfolding fail
fail_step now b n t counted threshold h = rw (counted, wrap32-small n h, threshold) (ground arith)

-- When the breaker closes again after failures at these times, if they opened it.
reopening : List ℤ → ℤ → ℤ → ℤ
reopening [] until open_for = until
reopening (t ∷ ts) until open_for = wrap64 (last_or t ts +ℤ open_for)

fail_all-cons :
    (x : ℤ) (ts : List ℤ) (b : CircuitBreaker) → fail_all (x ∷ ts) b ≡ fail_all ts (fail x b)
unfolding fail_all
fail_all-cons x ts b = refl

fail_all-nil : (b : CircuitBreaker) → fail_all [] b ≡ b
unfolding fail_all
fail_all-nil b = refl

fail_all_lem :
    (ts : List ℤ) (b : CircuitBreaker) (n t : ℕ)
    → b.consecutive_fails ≡ pos n
    → b.failure_threshold ≡ pos t
    → n + length ts < 2 ^ 31
    → fail_all ts b ≡ record b {
      consecutive_fails = pos (n + length ts);
      open_until_ns =
          if ltb (n + length ts) t
          then b.open_until_ns
          else reopening ts b.open_until_ns b.open_for_ns;
    }
unfolding reopening
fail_all_lem [] b n t counted threshold h = ground (arith, fail_all-nil b)
fail_all_lem (x ∷ []) b n t counted threshold h = ground (
  arith,
  fail_all-cons x [] b,
  fail_all-nil (fail x b),
  fail_step x b n t counted threshold (omega arith),
)
fail_all_lem (x ∷ y ∷ ts) b n t counted threshold h =
    rw (fail_all-cons x (y ∷ ts) b, fail_step x b n t counted threshold (omega arith))
      (fail_all_lem (y ∷ ts) _ (suc n) t refl threshold (omega arith) ∙ ground arith)

threshold_kept :
    (threshold : ℕ) (open_for : ℤ)
    → 0 < threshold
    → threshold < 2 ^ 31
    → (new_circuit_breaker (pos threshold) open_for).failure_threshold ≡ pos threshold
unfolding new_circuit_breaker wrap32
threshold_kept threshold open_for h k = ground arith

-- After failures in a row a new breaker counts them all; with fewer than the threshold it has no
-- end, and from the threshold on its end is the last failure's time plus the breaker's time. (A
-- positive threshold that fits an int32, fewer than 2 ^ 31 failures, a positive breaker's time, and
-- an end that fits an int64.)
pub fail_all-opens :
    (threshold : ℕ) (open_for now : ℤ) (ts : List ℤ)
    → 0 < threshold
    → threshold < 2 ^ 31
    → pos 0 <ℤ open_for
    → length (now ∷ ts) < 2 ^ 31
    → InInt64 (last_or now ts +ℤ open_for)
    → let b : CircuitBreaker = fail_all (now ∷ ts) (new_circuit_breaker (pos threshold) open_for) in
      (b.consecutive_fails ≡ pos (length (now ∷ ts)))
      × (b.open_until_ns
          ≡ (if ltb (length (now ∷ ts)) threshold then pos 0 else last_or now ts +ℤ open_for))
unfolding new_circuit_breaker reopening
fail_all-opens threshold open_for now ts pos_t fits pos_d few room =
    rw
      (fail_all_lem (now ∷ ts) (new_circuit_breaker (pos threshold) open_for) 0 threshold refl
        (threshold_kept threshold open_for pos_t fits) (omega arith))
      (ground arith, ground (arith, wrap64-id (last_or now ts +ℤ open_for) room))

kept_time :
    (threshold : ℕ) (open_for : ℤ)
    → pos 0 <ℤ open_for
    → (new_circuit_breaker (pos threshold) open_for).open_for_ns ≡ open_for
unfolding new_circuit_breaker
kept_time threshold open_for h = ground arith

wide_threshold :
    (threshold : ℕ) (open_for : ℤ)
    → 2 ^ 31 ≤ threshold
    → threshold ≤ 2 ^ 32
    → ltb_ℤ (pos 1) (new_circuit_breaker (pos threshold) open_for).failure_threshold ≡ false
unfolding new_circuit_breaker wrap32
wide_threshold threshold open_for low high = ground arith

-- A threshold from 2 ^ 31 up to 2 ^ 32 does not fit the int32 that keeps it: the first failure of a
-- new breaker opens it. (A positive time of day and breaker's time, and an end that fits an int64.)
pub fail-opens_early :
    (threshold : ℕ) (open_for now : ℤ)
    → 2 ^ 31 ≤ threshold
    → threshold ≤ 2 ^ 32
    → pos 0 <ℤ open_for
    → pos 0 <ℤ now
    → InInt64 (now +ℤ open_for)
    → is_open now (fail now (new_circuit_breaker (pos threshold) open_for)) ≡ true
unfolding is_open fail wrap32 ◌+ℤ◌ new_circuit_breaker
fail-opens_early threshold open_for now low high pos_d pos_now room =
    rw
      (
        wide_threshold threshold open_for low high,
        kept_time threshold open_for pos_d,
        wrap64-id (now +ℤ open_for) room,
      )
      (ground (arith, +ℤ_parts now open_for))

-- A closed breaker lets every call through.
pub allow-closed : (now : ℤ) (b : CircuitBreaker) → b.open_until_ns ≡ pos 0 → (allow now b).1 ≡ true
unfolding allow
allow-closed now b e = ground arith
