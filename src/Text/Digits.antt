-- ===== src/Text/Digits.antt =====
-- What `Itoa` prints, `Atoi` reads back.
use satfarm.Prelude.{
  ℕ, zero, suc, ◌+◌, ◌/◌, ◌%◌, ◌<◌, ◌≤◌, ◌≡◌, refl, [], ◌∷◌, some, ap, sym, ◌∙◌, arith, ◌==◌,
  Bool-cases, inl, inr,
}
use satfarm.Prelude.Int.{ℤ, pos, negsuc, Fits}
use satfarm.Text.Words.{Text}
use satfarm.Text.Number.{scan_digits, parse_digits, in_range_pos, parse_int, digits, show_nat, itoa}

-- The digits of `n` are one digit or more.
digits_head :
    (fuel n : ℕ) (out : Text)
    → (d : ℕ) × (rest : Text) × (digits (suc fuel) n out ≡ d ∷ rest) × (b'0' ≤ d) × (d ≤ b'9')
unfolding digits
digits_head zero n out = elim (Bool-cases (n / 10 == 0)) [
  | inl e ↦ (b'0' + n % 10, out, rw e, omega arith, omega arith)
  | inr e ↦ (b'0' + n % 10, out, rw e, omega arith, omega arith)
]
digits_head (suc fuel) n out = elim (Bool-cases (n / 10 == 0)) [
  | inl e ↦ (b'0' + n % 10, out, rw e, omega arith, omega arith)
  | inr e ↦
      let (d, rest, eq, lo, hi) = digits_head fuel (n / 10) ((b'0' + n % 10) ∷ out) in
      (d, rest, rw e eq, lo, hi)
]

-- Reading them from the left gives `n`.
scan_digits-digits :
    (fuel n : ℕ) (out : Text) → n < fuel → scan_digits (digits fuel n out) 0 ≡ scan_digits out n
unfolding digits scan_digits
scan_digits-digits zero n out h = elim h [ ]
scan_digits-digits (suc fuel) n out h =
    ground (arith, scan_digits-digits fuel (n / 10) ((b'0' + n % 10) ∷ out))

parse_digits-show_nat : (n : ℕ) → parse_digits (show_nat n) ≡ some n
unfolding parse_digits show_nat
parse_digits-show_nat n =
    let (d, rest, eq, lo, hi) = digits_head n n [] in
    rw eq (
      ap (λ t. scan_digits t 0) (sym eq)
      ∙ scan_digits-digits (suc n) n [] (omega arith)
      ∙ unfold scan_digits in refl)

pub show_nat_head :
    (n : ℕ) → (d : ℕ) × (rest : Text) × (show_nat n ≡ d ∷ rest) × (b'0' ≤ d) × (d ≤ b'9')
unfolding show_nat
show_nat_head n = digits_head n n []

-- `Atoi` reads back what `Itoa` prints of a 64-bit integer.
pub parse_int-itoa : (z : ℤ) → Fits 64 z → parse_int (itoa z) ≡ some z
unfolding itoa
parse_int-itoa (pos n) f =
    let (d, rest, eq, lo, hi) = show_nat_head n in
    let h = parse_digits-show_nat n in ground (arith, eq, h, parse_int_pos d rest lo hi)
  where
    parse_int_pos :
        (d : ℕ) (rest : Text)
        → b'0' ≤ d
        → d ≤ b'9'
        → parse_int (d ∷ rest) ≡ in_range_pos (parse_digits (d ∷ rest))
    parse_int_pos d rest lo hi = unfold parse_int in ground arith
parse_int-itoa (negsuc n) f = unfold parse_int in ground (arith, parse_digits-show_nat (suc n))
