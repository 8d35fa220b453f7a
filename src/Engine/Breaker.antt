-- ===== src/Engine/Breaker.antt =====
-- internal/engine/breaker.go. Each method runs here from its first atomic access to its last with
-- no other goroutine between, so the compare-and-swap of `allow` succeeds in its first round
-- (Breaker/Atomic has the accesses one by one).
-- Times are nanoseconds since 1970, given as arguments.
pub mod Behaviour
pub mod Atomic
mod Tests
use auctioneer.Base.{
  ◌&&◌, not, Bool, true, false, if◌then◌else◌, ℕ, ◌*◌, ◌^◌, ℤ, pos, ◌+ℤ◌, ltb_ℤ, leb_ℤ, eqb_ℤ,
  wrap32, wrap64,
}

pub record CircuitBreaker : Type 0 where
  pub failure_threshold : ℤ
  pub open_for_ns : ℤ
  pub consecutive_fails : ℤ
  pub open_until_ns : ℤ

-- time.Millisecond
abbrev pub millisecond : ℕ
millisecond = 1000000

unfoldable pub new_circuit_breaker : ℤ → ℤ → CircuitBreaker
unfolding wrap32
new_circuit_breaker failure_threshold open_for = record {
  failure_threshold = wrap32 (if leb_ℤ failure_threshold (pos 0) then pos 5 else failure_threshold);
  open_for_ns = if leb_ℤ open_for (pos 0) then pos (500 * millisecond) else open_for;
  consecutive_fails = pos 0;
  open_until_ns = pos 0;
}

unfoldable pub allow : ℤ → CircuitBreaker → CircuitBreaker × Bool
allow now b =
    if eqb_ℤ b.open_until_ns (pos 0)
    then (b, true)
    else if ltb_ℤ now b.open_until_ns
    then (b, false)
    else (record b { open_until_ns = pos 0; consecutive_fails = pos 0 }, true)

unfoldable pub success : CircuitBreaker → CircuitBreaker
success b = record b { consecutive_fails = pos 0; open_until_ns = pos 0 }

unfoldable pub fail : ℤ → CircuitBreaker → CircuitBreaker
fail now b =
    let fails = wrap32 (b.consecutive_fails +ℤ pos 1) in
    if ltb_ℤ fails b.failure_threshold
    then record b { consecutive_fails = fails }
    else record b { consecutive_fails = fails; open_until_ns = wrap64 (now +ℤ b.open_for_ns) }

unfoldable pub is_open : ℤ → CircuitBreaker → Bool
is_open now b = not (eqb_ℤ b.open_until_ns (pos 0)) && ltb_ℤ now b.open_until_ns
