-- ===== src/Lua/Numbers.antt =====
-- Where Lua's numbers agree with int64, and where they do not.
use mathlib.Core.Option
use auctioneer.Base.{
  ℕ, zero, suc, ◌+◌, ◌-◌, ◌*◌, ◌^◌, ◌≤◌, ◌<◌, ◌≡◌, ◌≢◌, refl, arith, some, [], ◌∷◌, ◌++◌, All,
  lt→ltb, le→ltb, Bool-cases, inl, inr, ◌==◌, ℤ, pos, negsuc, abs,
}
use auctioneer.Text.{Bytes}
use auctioneer.Text.Decimal.{
  IsDigit, digits, print_int, value, value-digits, digits-IsDigit, digits-ne-nil,
}
use auctioneer.Text.Parse.{parse_int64, parse_int64_refuses}
use auctioneer.Lua.{
  round_half_even, exponent, double, to_double, strip_zeros, point, print_exponent, mantissa,
  scientific, print_number, tostring, scan_digits, scaled, read_number, tonumber,
}

-- A number that is printed digit by digit: at most 14 digits.
abbrev pub IsExact : ℤ → Type 0
IsExact z = abs z < 10 ^ 14

print_number-exact : (n : ℕ) → n < 10 ^ 14 → print_number n ≡ digits n
unfolding print_number
print_number-exact n h = rw (lt→ltb n (10 ^ 14) h)

pub tostring-exact : (z : ℤ) → IsExact z → tostring (some z) ≡ print_int z
unfolding tostring print_int
tostring-exact (pos n) h = print_number-exact n (omega arith)
tostring-exact (negsuc n) h = rw (print_number-exact (suc n) (omega arith))

exponent-zero : (base limit f n : ℕ) → n < limit → exponent base limit f n ≡ 0
unfolding exponent
exponent-zero base limit zero n h = refl
exponent-zero base limit (suc f) n h = ground arith

round_half_even-one : (n : ℕ) → round_half_even n 1 ≡ n
unfolding round_half_even
round_half_even-one n = ground arith

double-exact : (n : ℕ) → n < 2 ^ 53 → double n ≡ n
unfolding double
double-exact n h = rw (exponent-zero 2 (2 ^ 53) n n h, round_half_even-one n) (omega arith)

pub to_double-exact : (z : ℤ) → abs z < 2 ^ 53 → to_double z ≡ z
unfolding to_double
to_double-exact (pos n) h = rw (double-exact n (omega arith))
to_double-exact (negsuc n) h = rw (double-exact (suc n) (omega arith))

scan_digits-All :
    (s : Bytes) (n k : ℕ)
    → All IsDigit s
    → (j : ℕ) × (scan_digits s n k ≡ record { number = value n s; count = j; rest = [] })
      × (k ≤ j)
      × (s ≢ [] → k < j)
unfolding scan_digits
scan_digits-All [] n k _ = (k, refl, omega arith, λ h. absurd (h refl))
scan_digits-All (c ∷ s) n k (hc, hs) =
    let (j, e, le, _) = scan_digits-All s (n * 10 + (c - b'0')) (k + 1) hs in
    (j, ground arith, omega arith, λ _. omega arith)

read_number-digits : (n : ℕ) → n < 2 ^ 53 → read_number (digits n) ≡ some n
unfolding read_number scaled
read_number-digits n h =
    let (j, e, _, counted) = scan_digits-All (digits n) 0 0 (digits-IsDigit n) in
    let some_digit = counted (digits-ne-nil n) in
    rw e (ground (arith, value-digits n, double-exact n h))

-- A digit is not a minus sign.
tonumber_unsigned :
    (s : Bytes) → s ≢ [] → All IsDigit s → tonumber s ≡ Option.map pos (read_number s)
unfolding tonumber
tonumber_unsigned [] h _ = absurd (h refl)
tonumber_unsigned (c ∷ s) _ (hc, hs) = ground arith

-- `tonumber` reads back what FormatInt printed, for numbers that fit the 53 bits of a double.
pub tonumber-print_int : (z : ℤ) → abs z < 2 ^ 53 → tonumber (print_int z) ≡ some z
unfolding print_int
tonumber-print_int (pos n) h = rw (
  tonumber_unsigned (digits n) (digits-ne-nil n) (digits-IsDigit n),
  read_number-digits n (omega arith),
)
tonumber-print_int (negsuc n) h = unfold tonumber in rw (read_number-digits (suc n) (omega arith))

-- From 10 ^ 14 on `tostring` prints a point or an exponent behind the first digit, and `parseInt64`
-- takes such a text for 0.
first-IsDigit : (m : ℕ) → (c : ℕ) × (s : Bytes) × (digits m ≡ c ∷ s) × IsDigit c
first-IsDigit m = go (digits m) (digits-ne-nil m) (digits-IsDigit m) refl
  where
    go :
        (t : Bytes)
        → t ≢ []
        → All IsDigit t
        → digits m ≡ t
        → (c : ℕ) × (s : Bytes) × (digits m ≡ c ∷ s) × IsDigit c
    go [] h _ _ = absurd (h refl)
    go (c ∷ s) _ (hc, _) e = (c, s, e, hc)

refused_after_digit :
    (c b : ℕ) (rest : Bytes) → IsDigit c → ¬ IsDigit b → parse_int64 (c ∷ b ∷ rest) ≡ pos 0
refused_after_digit c b rest hc hb =
    parse_int64_refuses (c ∷ []) rest b (cc) (hc, tt) hb (omega arith)

refused_fraction :
    (c : ℕ) (z : Bytes) (x : ℕ)
    → IsDigit c
    → parse_int64 (c ∷ (point z ++ print_exponent x)) ≡ pos 0
unfolding point print_exponent
refused_fraction c [] x hc = refused_after_digit c _ _ hc (omega arith)
refused_fraction c (d ∷ z) x hc = refused_after_digit c _ _ hc (omega arith)

parse_int64-mantissa : (m x : ℕ) → parse_int64 (mantissa (digits m) x) ≡ pos 0
unfolding mantissa
parse_int64-mantissa m x =
    let (c, s, e, hc) = first-IsDigit m in rw e (refused_fraction c (strip_zeros s) x hc)

parse_int64-scientific : (n : ℕ) → parse_int64 (scientific n) ≡ pos 0
unfolding scientific
parse_int64-scientific n =
    let e = exponent 10 (10 ^ 14) n n in
    let m = round_half_even n (10 ^ e) in
    elim (Bool-cases (m == 10 ^ 14)) [
      | inl carried ↦ rw carried (parse_int64-mantissa (10 ^ 13) (e + 14))
      | inr fits ↦ rw fits (parse_int64-mantissa m (e + 13))
    ]

-- A number of 15 digits or more is printed in a form that Go's ParseInt refuses, so that parseInt64
-- reads it as 0.
pub parse_int64-tostring_large :
    (n : ℕ) → 10 ^ 14 ≤ n → parse_int64 (tostring (some (pos n))) ≡ pos 0
unfolding tostring print_number
parse_int64-tostring_large n h = rw (le→ltb n (10 ^ 14) h) (parse_int64-scientific n)
