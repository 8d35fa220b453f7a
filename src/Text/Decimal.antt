-- ===== src/Text/Decimal.antt =====
-- Decimal printing of integers: `strconv.FormatInt(v, 10)`, as go-redis formats integer arguments.
use auctioneer.Base.{
  ℕ, zero, suc, ◌+◌, ◌-◌, ◌*◌, ◌/◌, ◌%◌, ◌≤◌, ◌<◌, ◌≡◌, ◌≢◌, List, [], ◌∷◌, arith, ltb,
  if◌then◌else◌, ℤ, pos, negsuc, All, Lacks,
}

abbrev pub IsDigit : ℕ → Type 0
IsDigit c = (b'0' ≤ c) × (c ≤ b'9')

-- A digit for each round; each round divides `n` by ten. `suc n` rounds are enough.
emit : ℕ → ℕ → List ℕ → List ℕ
emit zero n out = out
emit (suc f) n out =
    let c = b'0' + n % 10 in
    let rest = emit f (n / 10) (c ∷ out) in if ltb n 10 then c ∷ out else rest

unfoldable pub digits : ℕ → List ℕ
unfolding emit
digits n = emit (suc n) n []

unfoldable pub print_int : ℤ → List ℕ
unfolding digits
print_int (pos n) = digits n
print_int (negsuc n) = b'-' ∷ digits (suc n)

-- The number that digits spell behind `n`, with no bound.
abbrev pub value : ℕ → List ℕ → ℕ
value n [] = n
value n (c ∷ s) = value (n * 10 + (c - b'0')) s

value-emit : (f n : ℕ) (out : List ℕ) → n < f → value 0 (emit f n out) ≡ value n out
unfolding emit
value-emit zero n out h = absurd (omega arith)
value-emit (suc f) n out h = ground (arith, value-emit f (n / 10) ((b'0' + n % 10) ∷ out))

emit-IsDigit : (f n : ℕ) (out : List ℕ) → All IsDigit out → All IsDigit (emit f n out)
unfolding emit
emit-IsDigit zero n out h = h
emit-IsDigit (suc f) n out h = ground (arith, emit-IsDigit f (n / 10) ((b'0' + n % 10) ∷ out))

emit-ne-nil : (f n : ℕ) (out : List ℕ) → out ≢ [] → emit f n out ≢ []
unfolding emit
emit-ne-nil zero n out h = h
emit-ne-nil (suc f) n out h = ground (arith, emit-ne-nil f (n / 10) ((b'0' + n % 10) ∷ out))

pub value-digits : (n : ℕ) → value 0 (digits n) ≡ n
unfolding digits
value-digits n = value-emit (suc n) n [] (omega arith)

pub digits-IsDigit : (n : ℕ) → All IsDigit (digits n)
unfolding digits
digits-IsDigit n = emit-IsDigit (suc n) n [] tt

pub digits-ne-nil : (n : ℕ) → digits n ≢ []
unfolding digits
digits-ne-nil n = ground (arith, emit-ne-nil n (n / 10) ((b'0' + n % 10) ∷ []))

-- A digit is no bar, and neither is a minus sign.
digits-Lacks : (s : List ℕ) → All IsDigit s → Lacks b'|' s
digits-Lacks [] _ = tt
digits-Lacks (c ∷ s) (hc, hs) = (omega arith, digits-Lacks s hs)

pub print_int-Lacks : (z : ℤ) → Lacks b'|' (print_int z)
unfolding print_int
print_int-Lacks (pos n) = digits-Lacks (digits n) (digits-IsDigit n)
print_int-Lacks (negsuc n) = (omega arith, digits-Lacks (digits (suc n)) (digits-IsDigit (suc n)))
