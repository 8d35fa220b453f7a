-- ===== src/Text/Parse.antt =====
-- `strconv.ParseInt(v, 10, 64)`, and `parseInt64` of internal/engine/redis_store.go, which drops
-- its error.
use auctioneer.Base.{
  ℕ, zero, suc, Bool, ◌+◌, ◌-◌, ◌*◌, ◌^◌, ◌≤◌, ◌<◌, ◌≡◌, ◌≢◌, refl, List, [], ◌∷◌, ◌++◌, arith, ltb,
  ◌==◌, if◌then◌else◌, ℤ, pos, negsuc, All, InInt64, true, false, ◌||◌,
}
use auctioneer.Text.Decimal.{
  IsDigit, digits, print_int, value, value-digits, digits-IsDigit, digits-ne-nil,
}

-- What ParseUint and ParseInt return: a value, `ErrSyntax`, or `ErrRange` with the nearest value.
pub data Parsed {ℓ} (A : Type ℓ) : Type ℓ where
  ok : A → Parsed A
  syntax : Parsed A
  out_of_range : A → Parsed A

-- The loop of ParseUint: it stops at the first byte that is no digit, or at the first overflow.
scan : List ℕ → ℕ → Parsed ℕ
scan [] n = ok n
scan (c ∷ s) n =
    let d = c - b'0' in
    if ltb c b'0' || ltb b'9' c
    then syntax
    else if ltb (2 ^ 64 - 1) (n * 10 + d)
    then out_of_range (2 ^ 64 - 1)
    else scan s (n * 10 + d)

unfoldable pub parse_uint : List ℕ → Parsed ℕ
unfolding scan
parse_uint [] = syntax
parse_uint (c ∷ s) = scan (c ∷ s) 0

abbrev pub negate : ℕ → ℤ
negate zero = pos 0
negate (suc n) = negsuc n

-- The tests against the cutoff, for a text with or without a minus sign.
signed : Bool → Parsed ℕ → Parsed ℤ
signed neg syntax = syntax
signed true (ok n) = if ltb (2 ^ 63) n then out_of_range (negsuc (2 ^ 63 - 1)) else ok (negate n)
signed true (out_of_range n) = out_of_range (negsuc (2 ^ 63 - 1))
signed false (ok n) = if ltb n (2 ^ 63) then ok (pos n) else out_of_range (pos (2 ^ 63 - 1))
signed false (out_of_range n) = out_of_range (pos (2 ^ 63 - 1))

unfoldable pub parse_int : List ℕ → Parsed ℤ
unfolding parse_uint signed
parse_int [] = syntax
parse_int (c ∷ s) =
    if c == b'+'
    then signed false (parse_uint s)
    else if c == b'-'
    then signed true (parse_uint s)
    else signed false (parse_uint (c ∷ s))

-- The value that ParseInt returns beside its error.
abbrev pub returned : Parsed ℤ → ℤ
returned (ok z) = z
returned syntax = pos 0
returned (out_of_range z) = z

unfoldable pub parse_int64 : List ℕ → ℤ
unfolding parse_int
parse_int64 v = returned (parse_int v)

pub value_grows : (t : List ℕ) (m : ℕ) → m ≤ value m t
value_grows [] m = omega arith
value_grows (d ∷ t) m =
    let step : m ≤ m * 10 + (d - b'0') = omega arith in
    omega (arith, step, value_grows t (m * 10 + (d - b'0')))

-- A run of digits in range is read to its end.
scan_complete :
    (t : List ℕ) (acc : ℕ) → value acc t < 2 ^ 64 → All IsDigit t → scan t acc ≡ ok (value acc t)
unfolding scan
scan_complete [] acc _ _ = refl
scan_complete (d ∷ t) acc small (is_digit, digits_follow) =
    let next = acc * 10 + (d - b'0') in
    ground (arith, value_grows t next, scan_complete t next small digits_follow)

parse_uint_complete :
    (s : List ℕ) → s ≢ [] → All IsDigit s → value 0 s < 2 ^ 64 → parse_uint s ≡ ok (value 0 s)
unfolding parse_uint
parse_uint_complete [] h _ _ = absurd (h refl)
parse_uint_complete (c ∷ s) _ ds fits = scan_complete (c ∷ s) 0 fits ds

parse_uint-digits : (n : ℕ) → n < 2 ^ 64 → parse_uint (digits n) ≡ ok n
parse_uint-digits n h =
    ground
      (arith, parse_uint_complete (digits n) (digits-ne-nil n) (digits-IsDigit n), value-digits n)

-- A digit is neither sign.
parse_int_unsigned :
    (s : List ℕ) → s ≢ [] → All IsDigit s → parse_int s ≡ signed false (parse_uint s)
unfolding parse_int
parse_int_unsigned [] h _ = absurd (h refl)
parse_int_unsigned (c ∷ s) _ (hc, hs) = ground arith

pub parse_int-print_int : (z : ℤ) → InInt64 z → parse_int (print_int z) ≡ ok z
unfolding print_int
parse_int-print_int (pos n) h =
    rw (parse_int_unsigned (digits n) (digits-ne-nil n) (digits-IsDigit n))
      (unfold signed in ground (arith, parse_uint-digits n))
parse_int-print_int (negsuc n) h =
    unfold parse_int signed in ground (arith, parse_uint-digits (suc n))

pub parse_int64-print_int : (z : ℤ) → InInt64 z → parse_int64 (print_int z) ≡ z
unfolding parse_int64
parse_int64-print_int z h = rw (parse_int-print_int z h)

-- Digits that are followed by some other byte are refused, as long as they do not overflow first.
scan_refuses :
    (s rest : List ℕ) (b n : ℕ)
    → All IsDigit s
    → ¬ IsDigit b
    → value n s < 2 ^ 64
    → scan (s ++ b ∷ rest) n ≡ syntax
unfolding scan
scan_refuses [] rest b n _ hb fits = ground arith
scan_refuses (c ∷ s) rest b n (hc, hs) hb fits =
    let m = n * 10 + (c - b'0') in
    ground (arith, scan_refuses s rest b m hs hb fits, value_grows s m)

-- A digit followed by a byte that is neither a digit: `parseInt64` reads 0.
pub parse_int64_refuses :
    (s rest : List ℕ) (b : ℕ)
    → s ≢ []
    → All IsDigit s
    → ¬ IsDigit b
    → value 0 s < 2 ^ 64
    → parse_int64 (s ++ b ∷ rest) ≡ pos 0
unfolding parse_int64 parse_int signed
parse_int64_refuses [] rest b h _ _ _ = absurd (h refl)
parse_int64_refuses (c ∷ s) rest b _ (hc, hs) hb fits =
    unfold parse_uint in ground (arith, scan_refuses (c ∷ s) rest b 0 (hc, hs) hb fits)

tests_of_parse_int64 :
    (parse_int64 (b'1' ∷ b'5' ∷ b'0' ∷ []) ≡ pos 150)
    × (parse_int64 (b'-' ∷ b'7' ∷ []) ≡ negsuc 6)
    × (parse_int64 [] ≡ pos 0)
    × (parse_int64 (b'1' ∷ b'e' ∷ b'+' ∷ []) ≡ pos 0)
unfolding parse_int64
tests_of_parse_int64 = (refl, refl, refl, refl)
