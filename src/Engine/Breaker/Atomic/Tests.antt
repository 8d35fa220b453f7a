-- ===== src/Engine/Breaker/Atomic/Tests.antt =====
-- Two calls of `allow` at an open breaker, and a failure that opens it anew between their accesses.
use auctioneer.Base.{ℕ, zero, ◌+◌, ◌*◌, ◌≤◌, ◌≡◌, refl, Bool, List, [], ◌∷◌, suc, ℤ, pos, arith}
use auctioneer.Engine.Breaker.{CircuitBreaker}
use auctioneer.Engine.Breaker.Atomic.{
  Place, Running, loads, counts, stores, returned, access, on_access, run, allow_loads,
  allow_checks, allow_swaps,
}
use auctioneer.Engine.Breaker.Atomic.Returns.{own, changes, allow-returns}
use auctioneer.Engine.Breaker.Atomic.Openings.{HoldsEnd, held, all_ends, all_opens, run-ends_once}

abbrev opened : CircuitBreaker
opened = record {
  failure_threshold = pos 3;
  open_for_ns = pos 5;
  consecutive_fails = pos 2;
  open_until_ns = pos 10;
}

-- Call 1 is about to open the breaker; call 2 counts a failure; the others ask.
abbrev place : ℕ → Place
place (suc zero) = stores (pos 30)
place (suc (suc zero)) = counts
place _ = loads

abbrev start : Running
start = record { breaker = opened; places = place }

abbrev schedule : List (ℕ × ℤ)
schedule =
    (0, pos 19)
    ∷ (3, pos 19)
    ∷ (0, pos 20)
    ∷ (1, pos 21)
    ∷ (0, pos 22)
    ∷ (3, pos 22)
    ∷ (0, pos 23)
    ∷ (0, pos 40)
    ∷ (0, pos 41)
    ∷ (0, pos 42)
    ∷ []

enough : 4 + 3 * changes 0 schedule start ≤ own 0 schedule
unfolding changes own on_access access allow_loads allow_checks allow_swaps
enough = omega arith

allow-returns_example : (r : Bool) × ((run schedule start).places 0 ≡ returned r)
allow-returns_example = allow-returns schedule 0 start refl enough

holds : (c : ℕ) → HoldsEnd (place c)
holds zero = tt
holds (suc zero) = tt
holds (suc (suc zero)) = tt
holds (suc (suc (suc c))) = tt

run-ends_once_example :
    all_ends schedule start + held (run schedule start).breaker
    ≤ all_opens schedule start + held start.breaker
run-ends_once_example = run-ends_once schedule start holds
