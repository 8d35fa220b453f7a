-- ===== src/Lua.antt =====
-- The numbers of the Lua runtime in which `bidScript` of internal/engine/redis_store.go runs: IEEE
-- doubles, `tonumber` and `tostring` (the format "%.14g" of Lua 5.1, which Redis embeds). Every
-- number of the script is whole, so a double is the integer that it stands for.
pub mod Numbers
mod Tests
use auctioneer.Base.{
  ℕ, zero, suc, ◌+◌, ◌-◌, ◌*◌, ◌/◌, ◌%◌, ◌^◌, ◌||◌, ◌&&◌, not, ◌≡◌, refl, Option, none, some, List,
  [], ◌∷◌, ◌++◌, ltb, leb, ◌==◌, if◌then◌else◌, ℤ, pos, negsuc, Bool, true, false,
}
use mathlib.Core.Option
use auctioneer.Text.{Bytes, codes}
use auctioneer.Text.Decimal.{digits, print_int}
use auctioneer.Text.Parse.{negate}

-- `n / d` to the nearest whole number, and to the even one of two that are equally near.
round_half_even : ℕ → ℕ → ℕ
round_half_even n d =
    let q = n / d in
    let r = 2 * (n % d) in
    if ltb r d then q else if ltb d r then q + 1 else if q % 2 == 0 then q else q + 1

-- How often `n` has to be divided by the base to fall below the limit; `n` rounds are enough.
exponent : ℕ → ℕ → ℕ → ℕ → ℕ
exponent base limit zero n = 0
exponent base limit (suc f) n =
    let rest = suc (exponent base limit f (n / base)) in if ltb n limit then 0 else rest

-- The double nearest to a whole number: 53 bits are kept.
double : ℕ → ℕ
unfolding round_half_even exponent
double n = let k = exponent 2 (2 ^ 53) n n in round_half_even n (2 ^ k) * 2 ^ k

pub to_double : ℤ → ℤ
unfolding double
to_double (pos n) = pos (double n)
to_double (negsuc n) = negate (double (suc n))

-- Trailing zeros do not show in "%g".
keep_digit : ℕ → Bytes → Bytes
keep_digit c [] = if c == b'0' then [] else c ∷ []
keep_digit c (d ∷ t) = c ∷ d ∷ t

strip_zeros : Bytes → Bytes
unfolding keep_digit
strip_zeros [] = []
strip_zeros (c ∷ s) = keep_digit c (strip_zeros s)

point : Bytes → Bytes
point [] = []
point (c ∷ s) = b'.' ∷ c ∷ s

-- An exponent has two digits at least.
print_exponent : ℕ → Bytes
print_exponent x = codes "e+" ++ (if ltb x 10 then b'0' ∷ digits x else digits x)

mantissa : Bytes → ℕ → Bytes
unfolding strip_zeros point print_exponent
mantissa [] x = print_exponent x
mantissa (d ∷ ds) x = d ∷ (point (strip_zeros ds) ++ print_exponent x)

-- "%.14g" of a number with more than 14 digits.
scientific : ℕ → Bytes
unfolding mantissa exponent round_half_even
scientific n =
    let e = exponent 10 (10 ^ 14) n n in
    let m = round_half_even n (10 ^ e) in
    if m == 10 ^ 14 then mantissa (digits (10 ^ 13)) (e + 14) else mantissa (digits m) (e + 13)

print_number : ℕ → Bytes
print_number n = if ltb n (10 ^ 14) then digits n else scientific n

-- `tostring` of a number, or of the `nil` that a failed `tonumber` gives.
pub tostring : Option ℤ → Bytes
unfolding print_number
tostring none = codes "nil"
tostring (some (pos n)) = print_number n
tostring (some (negsuc n)) = b'-' ∷ print_number (suc n)

-- What a run of digits leaves: the number, how many digits it had, and the text behind it.
record Scanned : Type 0 where
  number : ℕ
  count : ℕ
  rest : Bytes

scan_digits : Bytes → ℕ → ℕ → Scanned
scan_digits [] n k = record { number = n; count = k; rest = [] }
scan_digits (c ∷ s) n k =
    if ltb c b'0' || ltb b'9' c
    then record { number = n; count = k; rest = c ∷ s }
    else scan_digits s (n * 10 + (c - b'0')) (k + 1)

-- number / 10 ^ frac * 10 ^ x, which is whole in every text that the program writes.
scaled : ℕ → ℕ → ℕ → Option ℕ
unfolding double
scaled number frac x = if leb frac x then some (double (number * 10 ^ (x - frac))) else none

at_end : Bytes → Bool
at_end [] = true
at_end (c ∷ s) = false

read_power : ℕ → ℕ → Scanned → Option ℕ
unfolding scaled at_end
read_power number frac x =
    if x.count == 0 || not (at_end x.rest) then none else scaled number frac x.number

-- Behind the digits: nothing, or an exponent "e+XX".
read_exponent : ℕ → ℕ → Bytes → Option ℕ
unfolding read_power scan_digits
read_exponent number frac [] = scaled number frac 0
read_exponent number frac (c ∷ []) = none
read_exponent number frac (c ∷ d ∷ s) =
    if c == b'e' && d == b'+' then read_power number frac (scan_digits s 0 0) else none

-- Behind the whole part: a fraction, or what may stand behind one. The fraction's digits go on
-- from the whole part's number.
read_fraction : ℕ → Bytes → Option ℕ
unfolding read_exponent scan_digits
read_fraction number [] = read_exponent number 0 []
read_fraction number (c ∷ s) =
    if c == b'.'
    then (let f = scan_digits s number 0 in read_exponent f.number f.count f.rest)
    else read_exponent number 0 (c ∷ s)

read_number : Bytes → Option ℕ
unfolding read_fraction scan_digits
read_number s =
    let w = scan_digits s 0 0 in if w.count == 0 then none else read_fraction w.number w.rest

-- `tonumber` of the texts that `strconv.FormatInt` and `tostring` write; any other text, which the
-- script never meets, gives `none` (nil).
pub tonumber : Bytes → Option ℤ
unfolding read_number
tonumber [] = none
tonumber (c ∷ s) =
    if c == b'-' then Option.map negate (read_number s) else Option.map pos (read_number (c ∷ s))
