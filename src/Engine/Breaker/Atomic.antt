-- ===== src/Engine/Breaker/Atomic.antt =====
-- internal/engine/breaker.go, access by access: overlapping calls of the methods, whose atomic
-- accesses and clock readings come in any order. A call is a number, and `places` says where it is.
pub mod Returns
pub mod Openings
pub mod Alone
mod Tests
use auctioneer.Base.{
  ℕ, ◌==◌, Bool, true, false, not, ◌&&◌, List, [], ◌∷◌, if◌then◌else◌, ℤ, pos, ◌+ℤ◌, ltb_ℤ, eqb_ℤ,
  wrap32, wrap64,
}
use auctioneer.Engine.Breaker.{CircuitBreaker}

-- What a call does next. `checks`, `swaps` and `asks` hold the value `until` that was loaded, and
-- `stores` the end of the open time.
pub data Place : Type 0 where
  loads resets : Place
  checks swaps : ℤ → Place
  succeeds closes : Place
  counts reads_clock : Place
  stores : ℤ → Place
  loads_to_ask : Place
  asks : ℤ → Place
  returned : Bool → Place
  returned_nothing : Place

-- allow: one access.
unfoldable pub allow_loads : CircuitBreaker → Place
allow_loads b = if eqb_ℤ b.open_until_ns (pos 0) then returned true else checks b.open_until_ns

unfoldable pub allow_checks : ℤ → ℤ → Place
allow_checks now until = if ltb_ℤ now until then returned false else swaps until

-- openUntilNs.CompareAndSwap(until, 0)
unfoldable pub allow_swaps : ℤ → CircuitBreaker → CircuitBreaker × Place
allow_swaps until b =
    if eqb_ℤ until b.open_until_ns then (record b { open_until_ns = pos 0 }, resets) else (b, loads)

-- fail: the addition to consecutiveFails.
unfoldable pub fail_counts : CircuitBreaker → CircuitBreaker × Place
fail_counts b =
    let fails = wrap32 (b.consecutive_fails +ℤ pos 1) in
    (
      record b { consecutive_fails = fails },
      if ltb_ℤ fails b.failure_threshold then returned_nothing else reads_clock,
    )

-- One access or clock reading of a call.
unfoldable pub access : ℤ → Place → CircuitBreaker → CircuitBreaker × Place
unfolding allow_loads allow_checks allow_swaps fail_counts
access now loads b = (b, allow_loads b)
access now (checks until) b = (b, allow_checks now until)
access now (swaps until) b = allow_swaps until b
access now resets b = (record b { consecutive_fails = pos 0 }, returned true)
access now succeeds b = (record b { consecutive_fails = pos 0 }, closes)
access now closes b = (record b { open_until_ns = pos 0 }, returned_nothing)
access now counts b = fail_counts b
access now reads_clock b = (b, stores (wrap64 (now +ℤ b.open_for_ns)))
access now (stores until) b = (record b { open_until_ns = until }, returned_nothing)
access now loads_to_ask b = (b, asks b.open_until_ns)
access now (asks until) b = (b, returned (not (eqb_ℤ until (pos 0)) && ltb_ℤ now until))
access now (returned r) b = (b, returned r)
access now returned_nothing b = (b, returned_nothing)

pub record Running : Type 0 where
  pub breaker : CircuitBreaker
  pub places : ℕ → Place

-- An access of call `c` at the clock's time `now`.
unfoldable pub on_access : ℕ → ℤ → Running → Running
unfolding access
on_access c now s =
    let (b, p) = access now (s.places c) s.breaker in
    record { breaker = b; places = λ d. if d == c then p else s.places d }

-- A schedule: which call goes on, and what time it is then.
unfoldable pub run : List (ℕ × ℤ) → Running → Running
unfolding on_access
run [] s = s
run ((c, now) ∷ xs) s = run xs (on_access c now s)
