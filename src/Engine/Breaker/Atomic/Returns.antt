-- ===== src/Engine/Breaker/Atomic/Returns.antt =====
-- How many accesses a call of `allow` takes, with other calls between them.
use auctioneer.Base.{
  ℕ, suc, ◌+◌, ◌*◌, ◌≤◌, ◌≡◌, ◌∙◌, refl, sym, ap, ◌==◌, ==_iff, Bool, true, false, not, ◌&&◌, List,
  [], ◌∷◌, if◌then◌else◌, ℤ, pos, ltb_ℤ, eqb_ℤ, arith, Bool-cases, inl, inr, ◌⊎◌,
}
use mathlib.Core.Path.{subst}
use auctioneer.Engine.Breaker.{CircuitBreaker}
use auctioneer.Engine.Breaker.Atomic.{
  Place, loads, checks, swaps, resets, succeeds, closes, counts, reads_clock, stores, loads_to_ask,
  asks, returned, returned_nothing, Running, allow_loads, allow_checks, allow_swaps, access,
  on_access, run,
}

-- The accesses of call `c`, and those of others that change `openUntilNs`.
unfoldable pub own : ℕ → List (ℕ × ℤ) → ℕ
own c [] = 0
own c ((d, now) ∷ xs) = (if c == d then 1 else 0) + own c xs

unfoldable pub changes : ℕ → List (ℕ × ℤ) → Running → ℕ
changes c [] s = 0
changes c ((d, now) ∷ xs) s =
    let s' = on_access d now s in
    (if not (c == d) && not (eqb_ℤ s.breaker.open_until_ns s'.breaker.open_until_ns) then 1 else 0)
    + changes c xs s'

-- An upper bound of the accesses of a call of `allow` that are left, if nobody changes `openUntilNs`.
unfoldable left : CircuitBreaker → Place → ℕ
left b loads = 4
left b (checks until) = if eqb_ℤ until b.open_until_ns then 3 else 6
left b (swaps until) = if eqb_ℤ until b.open_until_ns then 2 else 5
left b resets = 1
left b _ = 0

-- The places of `allow`.
abbrev InAllow : Place → Type 0
InAllow loads = Unit
InAllow (checks until) = Unit
InAllow (swaps until) = Unit
InAllow resets = Unit
InAllow (returned r) = Unit
InAllow _ = ⊥

-- An access of a call of `allow` that has not returned.
own_access :
    (now : ℤ) (p : Place) (b : CircuitBreaker)
    → InAllow p
    → ((r : Bool) × (p ≡ returned r))
      ⊎ (InAllow (access now p b).1 × (suc (left (access now p b).0 (access now p b).1) ≤ left b p))
unfolding left access allow_loads allow_checks allow_swaps
own_access now loads b h = elim (Bool-cases (eqb_ℤ b.open_until_ns (pos 0))) [
  | inl free ↦ inr (rw free (tt, omega arith))
  | inr held ↦ inr (rw held (tt, ground arith))
]
own_access now (checks until) b h = elim (Bool-cases (ltb_ℤ now until)) [
  | inl early ↦ inr (rw early (tt, ground arith))
  | inr late ↦ inr (rw late (tt, ground arith))
]
own_access now (swaps until) b h = elim (Bool-cases (eqb_ℤ until b.open_until_ns)) [
  | inl same ↦ inr (rw same (tt, omega arith))
  | inr other ↦ inr (rw other (tt, omega arith))
]
own_access now resets b h = inr (tt, omega arith)
own_access now (returned r) b h = inl (r, refl)
own_access now succeeds b h = elim h [ ]
own_access now closes b h = elim h [ ]
own_access now counts b h = elim h [ ]
own_access now reads_clock b h = elim h [ ]
own_access now (stores _) b h = elim h [ ]
own_access now loads_to_ask b h = elim h [ ]
own_access now (asks _) b h = elim h [ ]
own_access now returned_nothing b h = elim h [ ]

-- An access of another call.
other_access :
    (p : Place) (b b' : CircuitBreaker)
    → left b' p ≤ left b p + 3 * (if not (eqb_ℤ b.open_until_ns b'.open_until_ns) then 1 else 0)
unfolding left
other_access (checks until) b b' = ground arith
other_access (swaps until) b b' = ground arith
other_access _ b b' = omega arith

none_left :
    (p : Place) (b : CircuitBreaker) → InAllow p → left b p ≡ 0 → (r : Bool) × (p ≡ returned r)
unfolding left
none_left loads b h e = absurd (omega arith)
none_left (checks until) b h e = absurd (ground arith)
none_left (swaps until) b h e = absurd (ground arith)
none_left resets b h e = absurd (omega arith)
none_left (returned r) b h e = (r, refl)
none_left succeeds b h e = elim h [ ]
none_left closes b h e = elim h [ ]
none_left counts b h e = elim h [ ]
none_left reads_clock b h e = elim h [ ]
none_left (stores _) b h e = elim h [ ]
none_left loads_to_ask b h e = elim h [ ]
none_left (asks _) b h e = elim h [ ]
none_left returned_nothing b h e = elim h [ ]

pub access_own :
    (c d : ℕ) (now : ℤ) (s : Running)
    → (c == d) ≡ true
    → ((on_access d now s).places c ≡ (access now (s.places c) s.breaker).1)
      × ((on_access d now s).breaker ≡ (access now (s.places c) s.breaker).0)
unfolding on_access
access_own c d now s e =
    let same = (==_iff c d).0 e in
    (
      rw e (ap (λ x. (access now (s.places x) s.breaker).1) (sym same)),
      ap (λ x. (access now (s.places x) s.breaker).0) (sym same),
    )

access_of_other :
    (c d : ℕ) (now : ℤ) (s : Running) → (c == d) ≡ false → (on_access d now s).places c ≡ s.places c
unfolding on_access
access_of_other c d now s e = rw e refl

-- A call that has returned stays where it is.
run-returned :
    (xs : List (ℕ × ℤ)) (c : ℕ) (s : Running) (r : Bool)
    → s.places c ≡ returned r
    → (run xs s).places c ≡ returned r
unfolding run access
run-returned [] c s r e = e
run-returned ((d, now) ∷ xs) c s r e = elim (Bool-cases (c == d)) [
  | inl here ↦
      run-returned xs c (on_access d now s) r
        ((access_own c d now s here).0 ∙ ap (λ p. (access now p s.breaker).1) e)
  | inr there ↦ run-returned xs c (on_access d now s) r (access_of_other c d now s there ∙ e)
]

run-left :
    (xs : List (ℕ × ℤ)) (c : ℕ) (s : Running)
    → InAllow (s.places c)
    → left s.breaker (s.places c) + 3 * changes c xs s ≤ own c xs
    → (r : Bool) × ((run xs s).places c ≡ returned r)
unfolding run own changes
run-left [] c s h enough = none_left (s.places c) s.breaker h (omega arith)
run-left ((d, now) ∷ xs) c s h enough = elim (Bool-cases (c == d)) [
  | inl here ↦
      (let (p, b) = access_own c d now s here in
        elim (own_access now (s.places c) s.breaker h) [
          | inl (r, e) ↦ (r, run-returned ((d, now) ∷ xs) c s r e)
          | inr (h', less) ↦ run-left xs c (on_access d now s) (subst InAllow (sym p) h') (
              omega (
                arith,
                rw here at enough,
                less,
                ap (λ q. left (on_access d now s).breaker q) p,
                ap (λ w. left w (access now (s.places c) s.breaker).1) b,
              ))
        ])
  | inr there ↦
      (let p = access_of_other c d now s there in
        run-left xs c (on_access d now s) (subst InAllow (sym p) h) (
          omega (
            arith,
            rw there at enough,
            other_access (s.places c) s.breaker (on_access d now s).breaker,
            ap (left (on_access d now s).breaker) p,
          )))
]

-- A call of `allow` returns, whatever the others do: at the latest with its fourth access, and three
-- more for each change of `openUntilNs` that another call makes meanwhile.
pub allow-returns :
    (xs : List (ℕ × ℤ)) (c : ℕ) (s : Running)
    → s.places c ≡ loads
    → 4 + 3 * changes c xs s ≤ own c xs
    → (r : Bool) × ((run xs s).places c ≡ returned r)
unfolding left
allow-returns xs c s e enough =
    run-left xs c s (subst InAllow (sym e) tt) (omega (arith, enough, ap (left s.breaker) e))
