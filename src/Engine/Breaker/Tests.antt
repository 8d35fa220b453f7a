-- ===== src/Engine/Breaker/Tests.antt =====
-- Runs of the breaker, as in TestCircuitBreakerOpensAfterThreshold, and its theorems at them.
use auctioneer.Base.{
  ◌≡◌, refl, true, false, List, [], ◌∷◌, arith, ℤ, pos, ◌+ℤ◌, ltb, length, if◌then◌else◌, wrap32,
  wrap64,
}
use auctioneer.Engine.Breaker.{CircuitBreaker, new_circuit_breaker, allow, fail, is_open}
use auctioneer.Engine.Breaker.Behaviour.{fail_all, fail_all-opens, fail-opens_early, last_or}

abbrev times : List ℤ
times = pos 1001 ∷ pos 1002 ∷ []

fail_all-opens_example :
    let b : CircuitBreaker = fail_all (pos 1000 ∷ times) (new_circuit_breaker (pos 3) (pos 1000)) in
    (b.consecutive_fails ≡ pos (length (pos 1000 ∷ times)))
    × (b.open_until_ns ≡ (
        if ltb (length (pos 1000 ∷ times)) 3 then pos 0 else last_or (pos 1000) times +ℤ pos 1000))
unfolding ◌+ℤ◌
fail_all-opens_example =
    fail_all-opens 3 (pos 1000) (pos 1000) times (omega arith) (omega arith) (omega arith)
      (omega arith) (omega arith)

fail-opens_early_example :
    is_open (pos 1000) (fail (pos 1000) (new_circuit_breaker (pos 4294967296) (pos 1000))) ≡ true
unfolding ◌+ℤ◌
fail-opens_early_example =
    fail-opens_early 4294967296 (pos 1000) (pos 1000) (omega arith) (omega arith) (omega arith)
      (omega arith) (omega arith)

two_failures : (allow (pos 1002) (fail_all times (new_circuit_breaker (pos 3) (pos 1000)))).1 ≡ true
unfolding fail_all fail new_circuit_breaker allow wrap32 wrap64 ◌+ℤ◌
two_failures = refl

three_failures :
    (allow (pos 2001) (fail_all (pos 1000 ∷ times) (new_circuit_breaker (pos 3) (pos 1000)))).1
    ≡ false
unfolding fail_all fail new_circuit_breaker allow wrap32 wrap64 ◌+ℤ◌
three_failures = refl
