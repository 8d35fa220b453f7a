-- ===== src/Engine/Breaker/Atomic/Openings.antt =====
-- Counting how often the breaker opens, and how often a call of `allow` ends that.
use auctioneer.Base.{
  ℕ, ◌+◌, ◌≤◌, ◌≡◌, ◌==◌, wrap32, ◌+ℤ◌, false, List, [], ◌∷◌, if◌then◌else◌, ℤ, pos, ltb_ℤ, eqb_ℤ,
  arith, Bool-cases, inl, inr,
}
use auctioneer.Engine.Breaker.{CircuitBreaker}
use auctioneer.Engine.Breaker.Atomic.{
  Place, loads, checks, swaps, resets, succeeds, closes, counts, reads_clock, stores, loads_to_ask,
  asks, returned, returned_nothing, Running, allow_loads, allow_checks, allow_swaps, fail_counts,
  access, on_access, run,
}

-- Whether the next access is a swap that succeeds, or the store of `fail`.
abbrev pub ends : Place → CircuitBreaker → ℕ
ends (swaps until) b = if eqb_ℤ until b.open_until_ns then 1 else 0
ends _ b = 0

abbrev pub opens : Place → ℕ
opens (stores until) = 1
opens _ = 0

unfoldable pub all_ends : List (ℕ × ℤ) → Running → ℕ
all_ends [] s = 0
all_ends ((c, now) ∷ xs) s = ends (s.places c) s.breaker + all_ends xs (on_access c now s)

unfoldable pub all_opens : List (ℕ × ℤ) → Running → ℕ
all_opens [] s = 0
all_opens ((c, now) ∷ xs) s = opens (s.places c) + all_opens xs (on_access c now s)

-- 1 while an end of the open time is stored.
abbrev pub held : CircuitBreaker → ℕ
held b = if eqb_ℤ b.open_until_ns (pos 0) then 0 else 1

-- A call of `allow` holds no zero.
abbrev pub HoldsEnd : Place → Type 0
HoldsEnd (checks until) = eqb_ℤ until (pos 0) ≡ false
HoldsEnd (swaps until) = eqb_ℤ until (pos 0) ≡ false
HoldsEnd _ = Unit

access-HoldsEnd :
    (now : ℤ) (p : Place) (b : CircuitBreaker)
    → HoldsEnd p
    → HoldsEnd (access now p b).1 × (ends p b + held (access now p b).0 ≤ opens p + held b)
unfolding access allow_loads allow_checks allow_swaps fail_counts
access-HoldsEnd now loads b h = elim (Bool-cases (eqb_ℤ b.open_until_ns (pos 0))) [
  | inl free ↦ rw free (tt, omega arith)
  | inr some_end ↦ rw some_end (some_end, omega arith)
]
access-HoldsEnd now (checks until) b h = elim (Bool-cases (ltb_ℤ now until)) [
  | inl early ↦ rw early (tt, omega arith)
  | inr late ↦ rw late (h, omega arith)
]
access-HoldsEnd now (swaps until) b h = elim (Bool-cases (eqb_ℤ until b.open_until_ns)) [
  | inl same ↦ rw same (tt, ground arith)
  | inr other ↦ rw other (tt, omega arith)
]
access-HoldsEnd now counts b h =
    elim (Bool-cases (ltb_ℤ (wrap32 (b.consecutive_fails +ℤ pos 1)) b.failure_threshold)) [
      | inl few ↦ rw few (tt, omega arith)
      | inr many ↦ rw many (tt, omega arith)
    ]
access-HoldsEnd now closes b h = (tt, ground arith)
access-HoldsEnd now (stores until) b h = (tt, ground arith)
access-HoldsEnd now resets b h = (tt, omega arith)
access-HoldsEnd now succeeds b h = (tt, omega arith)
access-HoldsEnd now reads_clock b h = (tt, omega arith)
access-HoldsEnd now loads_to_ask b h = (tt, omega arith)
access-HoldsEnd now (asks until) b h = (tt, omega arith)
access-HoldsEnd now (returned r) b h = (tt, omega arith)
access-HoldsEnd now returned_nothing b h = (tt, omega arith)

-- In any run of overlapping calls, the open times that calls of `allow` end, by a swap that
-- succeeds, are no more than the times that `fail` opened the breaker, and one if it was open at the
-- start: no opening is ended by two calls. (At the start no call of `allow` holds a zero that it
-- loaded.)
pub run-ends_once :
    (xs : List (ℕ × ℤ)) (s : Running)
    → ((c : ℕ) → HoldsEnd (s.places c))
    → all_ends xs s + held (run xs s).breaker ≤ all_opens xs s + held s.breaker
unfolding run all_ends all_opens on_access
run-ends_once [] s h = omega arith
run-ends_once ((c, now) ∷ xs) s h =
    let (here, less) = access-HoldsEnd now (s.places c) s.breaker (h c) in
    let later =
      run-ends_once xs (on_access c now s)
        (λ d. elim (Bool-cases (d == c)) [ inl own ↦ rw own here | inr other ↦ rw other (h d) ]) in
    omega (arith, less, later)
