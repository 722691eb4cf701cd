-- ===== src/Text/Number.antt =====
-- The package `strconv`: `Atoi`, `ParseInt` in base ten at 64 bits, `Itoa`, and `%d`.
use satfarm.Prelude.{
  ℕ, zero, suc, ◌+◌, ◌-◌, ◌*◌, ◌/◌, ◌%◌, ◌^◌, ◌||◌, [], ◌∷◌, Option, none, some, ltb, ◌==◌,
  if◌then◌else◌,
}
use satfarm.Prelude.Int.{ℤ, pos, negsuc}
use satfarm.Text.Words.{Text}

-- Decimal digits behind the number read so far.
unfoldable pub scan_digits : Text → ℕ → Option ℕ
scan_digits [] n = some n
scan_digits (c ∷ s) n =
    let rest = scan_digits s (n * 10 + (c - b'0')) in
    if ltb c b'0' || ltb b'9' c then none else rest

-- One digit or more.
unfoldable pub parse_digits : Text → Option ℕ
unfolding scan_digits
parse_digits [] = none
parse_digits (c ∷ s) = scan_digits (c ∷ s) 0

abbrev pub in_range_pos : Option ℕ → Option ℤ
in_range_pos none = none
in_range_pos (some n) = if ltb n (2 ^ 63) then some (pos n) else none

-- `n` below zero: the least 64-bit integer is -2^63, and "-0" is 0.
abbrev pub in_range_neg : Option ℕ → Option ℤ
in_range_neg none = none
in_range_neg (some zero) = some (pos 0)
in_range_neg (some (suc n)) = if ltb n (2 ^ 63) then some (negsuc n) else none

-- `strconv.Atoi(s)`, which is `strconv.ParseInt(s, 10, 64)` where `int` has 64 bits; `none` for
-- either of its errors.
unfoldable pub parse_int : Text → Option ℤ
unfolding parse_digits
parse_int [] = none
parse_int (c ∷ s) =
    if c == b'-'
    then in_range_neg (parse_digits s)
    else if c == b'+'
    then in_range_pos (parse_digits s)
    else in_range_pos (parse_digits (c ∷ s))

-- The digits of `n` in front of `out`; the fuel is more than `n` has digits.
unfoldable pub digits : ℕ → ℕ → Text → Text
digits zero n out = out
digits (suc fuel) n out =
    let more = digits fuel (n / 10) ((b'0' + n % 10) ∷ out) in
    if n / 10 == 0 then (b'0' + n % 10) ∷ out else more

unfoldable pub show_nat : ℕ → Text
unfolding digits
show_nat n = digits (suc n) n []

-- `strconv.Itoa`, and `%d`.
unfoldable pub itoa : ℤ → Text
unfolding show_nat
itoa (pos n) = show_nat n
itoa (negsuc n) = b'-' ∷ show_nat (suc n)
