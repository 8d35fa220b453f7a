-- ===== src/Text/Duration.antt =====
-- time.ParseDuration. A fraction is rounded in floating point: `part_of f unit k` stands for
-- uint64(float64(f) * (float64(unit) / scale)), where `scale` is ten to the power of `k`.
pub mod RoundTrip
use auctioneer.Base.{
  ℕ, zero, suc, ◌+◌, ◌-◌, ◌*◌, ◌/◌, ◌%◌, ◌^◌, ◌<◌, ◌≤◌, ◌≡◌, ◌≢◌, refl, Bool, true, false, not,
  ◌&&◌, ◌||◌, Option, none, some, List, [], ◌∷◌, ◌++◌, ltb, leb, ◌==◌, if◌then◌else◌, length, ℤ,
  pos, negsuc, InInt64, arith, All,
}
use auctioneer.Text.{Bytes, codes, bytes_eq}
use auctioneer.Text.Decimal.{
  IsDigit, digits, print_int, value, value-digits, digits-IsDigit, digits-ne-nil,
}
use auctioneer.Text.Parse.{negate}

abbrev pub is_digit : ℕ → Bool
is_digit c = leb b'0' c && leb c b'9'

unfoldable pub leading_int : Bytes → ℕ → Option (ℕ × Bytes)
leading_int [] x = some (x, [])
leading_int (c ∷ s) x =
    let y = x * 10 + (c - b'0') in
    elim (is_digit c) [
      | false ↦ some (x, c ∷ s)
      | true ↦ if ltb (2 ^ 63 / 10) x || ltb (2 ^ 63) y then none else leading_int s y
    ]

-- `k` is the number of digits that count; behind an overflow the digits are skipped.
unfoldable pub leading_fraction : Bytes → Bool → ℕ → ℕ → ℕ × ℕ × Bytes
leading_fraction [] overflow x k = (x, k, [])
leading_fraction (c ∷ s) overflow x k =
    let y = x * 10 + (c - b'0') in
    elim (is_digit c) [
      | false ↦ (x, k, c ∷ s)
      | true ↦
          if overflow || ltb ((2 ^ 63 - 1) / 10) x || ltb (2 ^ 63) y
          then leading_fraction s true x k
          else leading_fraction s false y (suc k)
    ]

-- (\.[0-9]*)?, and whether it has a digit.
unfoldable pub fraction : Bytes → (ℕ × ℕ × Bytes) × Bool
unfolding leading_fraction
fraction [] = ((0, 0, []), false)
fraction (c ∷ s) =
    if c == b'.'
    then (let (f, k, rest) = leading_fraction s false 0 0 in
        ((f, k, rest), not (length s == length rest)))
    else ((0, 0, c ∷ s), false)

-- The unit: all up to the next digit or point.
unfoldable pub span_unit : Bytes → Bytes × Bytes
span_unit [] = ([], [])
span_unit (c ∷ s) =
    let (u, rest) = span_unit s in if c == b'.' || is_digit c then ([], c ∷ s) else (c ∷ u, rest)

-- unitMap
unfoldable pub unit_of : Bytes → Option ℕ
unit_of u =
    if bytes_eq u (codes "ns")
    then some 1
    else if bytes_eq u (codes "us")
        || bytes_eq u (194 ∷ 181 ∷ b's' ∷ [])
        || bytes_eq u (206 ∷ 188 ∷ b's' ∷ [])
    then some 1000
    else if bytes_eq u (codes "ms")
    then some 1000000
    else if bytes_eq u (codes "s")
    then some 1000000000
    else if bytes_eq u (codes "m")
    then some (60 * 1000000000)
    else if bytes_eq u (codes "h")
    then some (3600 * 1000000000)
    else none

module _ (part_of : ℕ → ℕ → ℕ → ℕ) where
  -- The nanoseconds of a number with its unit.
  unfoldable pub scaled : ℕ → ℕ → ℕ → ℕ → Option ℕ
  scaled v f k unit =
      let d = (v * unit + (if f == 0 then 0 else part_of f unit k)) % 2 ^ 64 in
      if ltb (2 ^ 63 / unit) v || ltb (2 ^ 63) d then none else some d

  -- A number with its unit, and what follows.
  unfoldable pub one_part : Bytes → Option (ℕ × Bytes)
  unfolding leading_int fraction span_unit unit_of scaled
  one_part s = elim (leading_int s 0) [
    | none ↦ none
    | some (v, s₁) ↦
        (let ((f, k, s₂), post) = fraction s₁ in
          let (u, rest) = span_unit s₂ in
          if (length s == length s₁) && not post then none else elim (unit_of u) [
            | none ↦ none
            | some unit ↦ elim (scaled v f k unit) [ none ↦ none | some d ↦ some (d, rest) ]
          ])
  ]

  -- The sum of the parts. Each takes a byte at least.
  unfoldable pub sum_parts : ℕ → Bytes → ℕ → Option ℕ
  unfolding one_part
  sum_parts f [] d = some d
  sum_parts zero (c ∷ s) d = none
  sum_parts (suc f) (c ∷ s) d = elim (one_part (c ∷ s)) [
    | none ↦ none
    | some (v, rest) ↦
        (let d' = (d + v) % 2 ^ 64 in if ltb (2 ^ 63) d' then none else sum_parts f rest d')
  ]

  abbrev pub unsigned : Bytes → Option ℕ
  unsigned [] = none
  unsigned (c ∷ s) =
      if bytes_eq (c ∷ s) (codes "0") then some 0 else sum_parts (length (c ∷ s)) (c ∷ s) 0

  abbrev pub signed : Bool → Option ℕ → Option ℤ
  signed neg none = none
  signed true (some d) = some (negate d)
  signed false (some d) = if ltb (2 ^ 63 - 1) d then none else some (pos d)

  unfoldable pub parse_duration : Bytes → Option ℤ
  unfolding sum_parts
  parse_duration [] = none
  parse_duration (c ∷ s) =
      if c == b'-'
      then signed true (unsigned s)
      else if c == b'+'
      then signed false (unsigned s)
      else signed false (unsigned (c ∷ s))

tests_of_parse_duration :
    (parse_duration (λ f u k. f * u / 10 ^ k) (codes "1h30m") ≡ some (pos 5400000000000))
    × (parse_duration (λ f u k. f * u / 10 ^ k) (codes "-1.5s") ≡ some (negsuc 1499999999))
    × (parse_duration (λ f u k. f * u / 10 ^ k) (codes ".s") ≡ none)
    × (parse_duration (λ f u k. f * u / 10 ^ k) (codes "10") ≡ none)
unfolding parse_duration bytes_eq
tests_of_parse_duration = (refl, refl, refl, refl)
