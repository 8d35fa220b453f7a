-- ===== src/Text/Duration/RoundTrip.antt =====
-- A number of nanoseconds, written out with its unit, is read as that number.
use auctioneer.Base.{
  ℕ, suc, ◌+◌, ◌-◌, ◌*◌, ◌^◌, ◌≤◌, ◌≡◌, ◌≢◌, ◌∙◌, ap, refl, false, some, [], ◌∷◌, ◌++◌, ◌==◌,
  length, ℤ, pos, negsuc, InInt64, arith, All, length-append,
}
use auctioneer.Text.{Bytes, codes, bytes_eq}
use auctioneer.Text.Decimal.{
  IsDigit, digits, print_int, value, value-digits, digits-IsDigit, digits-ne-nil,
}
use auctioneer.Text.Parse.{value_grows}
use auctioneer.Text.Duration.{
  leading_int, fraction, span_unit, unit_of, scaled, one_part, sum_parts, signed, unsigned,
  parse_duration,
}

-- The text of a number of nanoseconds.
abbrev pub print_ns : ℤ → Bytes
print_ns z = print_int z ++ codes "ns"

leading_int-digits :
    (t : Bytes) (acc : ℕ)
    → All IsDigit t
    → value acc t ≤ 2 ^ 63
    → leading_int (t ++ codes "ns") acc ≡ some (value acc t, codes "ns")
unfolding leading_int
leading_int-digits [] acc h fits = refl
leading_int-digits (c ∷ t) acc (hc, ht) fits =
    let next = acc * 10 + (c - b'0') in
    ground (arith, value_grows t next, leading_int-digits t next ht fits)

some_length : (s : Bytes) → s ≢ [] → (length (s ++ codes "ns") == 2) ≡ false
some_length [] h = absurd (h refl)
some_length (c ∷ s) h = ground (arith, length-append s (codes "ns"))

module _ (part_of : ℕ → ℕ → ℕ → ℕ) where
  scaled_ns : (n : ℕ) → n ≤ 2 ^ 63 → scaled part_of n 0 0 1 ≡ some n
  unfolding scaled
  scaled_ns n h = ground arith

  one_part-digits : (n : ℕ) → n ≤ 2 ^ 63 → one_part part_of (digits n ++ codes "ns") ≡ some (n, [])
  unfolding one_part fraction span_unit unit_of bytes_eq
  one_part-digits n h =
      let leading : leading_int (digits n ++ codes "ns") 0 ≡ some (n, codes "ns") =
        leading_int-digits (digits n) 0 (digits-IsDigit n) (omega (arith, value-digits n))
        ∙ ap (λ v. some (v, codes "ns")) (value-digits n) in
      rw (one_part, leading, some_length (digits n) (digits-ne-nil n)) (rw (scaled_ns n h) refl)

  sum_parts-digits :
      (f n : ℕ) (s : Bytes)
      → s ≢ []
      → n ≤ 2 ^ 63
      → one_part part_of s ≡ some (n, [])
      → sum_parts part_of (suc f) s 0 ≡ some n
  unfolding sum_parts
  sum_parts-digits f n [] h fits e = absurd (h refl)
  sum_parts-digits f n (c ∷ s) h fits e = rw (sum_parts, e) (ground arith)

  not_zero : (s : Bytes) → s ≢ [] → bytes_eq (s ++ codes "ns") (codes "0") ≡ false
  unfolding bytes_eq
  not_zero [] h = refl
  not_zero (c ∷ []) h = ground arith
  not_zero (c ∷ d ∷ s) h = ground arith

  unsigned-digits : (n : ℕ) → n ≤ 2 ^ 63 → unsigned part_of (digits n ++ codes "ns") ≡ some n
  unsigned-digits n h = go (digits n) (digits-ne-nil n) (one_part-digits n h)
    where
      go :
          (s : Bytes)
          → s ≢ []
          → one_part part_of (s ++ codes "ns") ≡ some (n, [])
          → unsigned part_of (s ++ codes "ns") ≡ some n
      go [] ne e = absurd (ne refl)
      go (c ∷ s) ne e =
          rw (not_zero (c ∷ s) ne) (sum_parts-digits _ n (c ∷ s ++ codes "ns") (λ q. cc) h e)

  unsigned_first :
      (s : Bytes)
      → s ≢ []
      → All IsDigit s
      → parse_duration part_of (s ++ codes "ns")
        ≡ signed part_of false (unsigned part_of (s ++ codes "ns"))
  unfolding parse_duration
  unsigned_first [] ne h = absurd (ne refl)
  unsigned_first (c ∷ s) ne (hc, hs) =
      let minus : (c == b'-') ≡ false = ground arith in
      let plus : (c == b'+') ≡ false = ground arith in rw (parse_duration, minus, plus) refl

  pub parse_duration-print_ns : (z : ℤ) → InInt64 z → parse_duration part_of (print_ns z) ≡ some z
  unfolding print_int
  parse_duration-print_ns (pos n) h =
      rw
        (
          unsigned_first (digits n) (digits-ne-nil n) (digits-IsDigit n),
          unsigned-digits n (omega arith),
        )
        (ground arith)
  parse_duration-print_ns (negsuc n) h =
      unfold parse_duration in rw (unsigned-digits (suc n) (omega arith)) refl
