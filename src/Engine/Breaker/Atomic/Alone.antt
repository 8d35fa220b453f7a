-- ===== src/Engine/Breaker/Atomic/Alone.antt =====
-- A call that nobody disturbs, and its method in one step.
use auctioneer.Base.{
  ℕ, ◌≡◌, ◌∙◌, refl, ap, ==_refl, true, List, [], ◌∷◌, ℤ, pos, ltb_ℤ, eqb_ℤ, ◌+ℤ◌, wrap32, arith,
  Bool-cases, inl, inr, map,
}
use auctioneer.Engine.Breaker.{CircuitBreaker, allow, success, fail, is_open}
use auctioneer.Engine.Breaker.Atomic.{
  Place, loads, succeeds, counts, loads_to_ask, returned, returned_nothing, Running, allow_loads,
  allow_checks, allow_swaps, fail_counts, access, on_access, run,
}
use auctioneer.Engine.Breaker.Atomic.Returns.{access_own}

pub data Method : Type 0 where
  allows succeeded failed asked : Method

-- Where a call of a method starts.
abbrev pub entry : Method → Place
entry allows = loads
entry succeeded = succeeds
entry failed = counts
entry asked = loads_to_ask

-- The method in one step, with what it returns.
abbrev pub in_one_step : Method → ℤ → CircuitBreaker → CircuitBreaker × Place
in_one_step allows now b = let (b', r) = allow now b in (b', returned r)
in_one_step succeeded now b = (success b, returned_nothing)
in_one_step failed now b = (fail now b, returned_nothing)
in_one_step asked now b = (b, returned (is_open now b))

-- Accesses of one call alone.
solo : List ℤ → Place → CircuitBreaker → CircuitBreaker × Place
unfolding access
solo [] p b = (b, p)
solo (now ∷ ts) p b = let (b', p') = access now p b in solo ts p' b'

run-solo :
    (ts : List ℤ) (c : ℕ) (s : Running)
    → ((run (map (λ t. (c, t)) ts) s).breaker ≡ (solo ts (s.places c) s.breaker).0)
      × ((run (map (λ t. (c, t)) ts) s).places c ≡ (solo ts (s.places c) s.breaker).1)
unfolding run solo
run-solo [] c s = (refl, refl)
run-solo (now ∷ ts) c s =
    let (p, b) = access_own c c now s (==_refl c) in
    let (b', p') = run-solo ts c (on_access c now s) in
    (
      b'
          ∙ ap (λ q. (solo ts q (on_access c now s).breaker).0) p
          ∙ ap (λ w. (solo ts (access now (s.places c) s.breaker).1 w).0) b,
      p'
          ∙ ap (λ q. (solo ts q (on_access c now s).breaker).1) p
          ∙ ap (λ w. (solo ts (access now (s.places c) s.breaker).1 w).1) b,
    )

eqb_ℤ-refl : (z : ℤ) → eqb_ℤ z z ≡ true
eqb_ℤ-refl z = ground arith

solo_lem :
    (m : Method) (first now third fourth : ℤ) (b : CircuitBreaker)
    → solo (first ∷ now ∷ third ∷ fourth ∷ []) (entry m) b ≡ in_one_step m now b
unfolding solo access allow_loads allow_checks allow_swaps fail_counts allow success fail is_open
solo_lem allows first now third fourth b = elim (Bool-cases (eqb_ℤ b.open_until_ns (pos 0))) [
  | inl free ↦ rw free refl
  | inr held ↦ elim (Bool-cases (ltb_ℤ now b.open_until_ns)) [
    | inl early ↦ rw (held, early) refl
    | inr late ↦ rw (held, late, eqb_ℤ-refl b.open_until_ns) refl
  ]
]
solo_lem succeeded first now third fourth b = refl
solo_lem failed first now third fourth b =
    elim (Bool-cases (ltb_ℤ (wrap32 (b.consecutive_fails +ℤ pos 1)) b.failure_threshold)) [
      | inl few ↦ rw few refl
      | inr many ↦ rw many refl
    ]
solo_lem asked first now third fourth b = refl

-- A call of `allow`, `success`, `fail` or `isOpen` with no access of another call between its own
-- has, after four accesses, done what the method does in one step, at the time of the second
-- access: the breaker and what is returned are the same.
pub run-alone :
    (m : Method) (c : ℕ) (first now third fourth : ℤ) (s : Running)
    → s.places c ≡ entry m
    → ((run (map (λ t. (c, t)) (first ∷ now ∷ third ∷ fourth ∷ [])) s).breaker
        ≡ (in_one_step m now s.breaker).0)
      × ((run (map (λ t. (c, t)) (first ∷ now ∷ third ∷ fourth ∷ [])) s).places c
          ≡ (in_one_step m now s.breaker).1)
run-alone m c first now third fourth s e =
    let (b, p) = run-solo (first ∷ now ∷ third ∷ fourth ∷ []) c s in
    let all = solo_lem m first now third fourth s.breaker in
    (
      b ∙ ap (λ q. (solo (first ∷ now ∷ third ∷ fourth ∷ []) q s.breaker).0) e ∙ ap (λ r. r.0) all,
      p ∙ ap (λ q. (solo (first ∷ now ∷ third ∷ fourth ∷ []) q s.breaker).1) e ∙ ap (λ r. r.1) all,
    )
