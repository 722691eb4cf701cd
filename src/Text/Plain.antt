-- ===== src/Text/Plain.antt =====
-- Words of digits and signs: printed numbers stand alone between blanks.
use satfarm.Prelude.{
  ℕ, zero, suc, ◌+◌, ◌/◌, ◌%◌, ◌≤◌, ◌≡◌, refl, inl, inr, false, ◌&&◌, [], ◌∷◌, ◌++◌, is_empty,
  arith, ◌==◌, if◌then◌else◌, Bool-cases, ap, All,
}
use satfarm.Prelude.Int.{ℤ, pos, negsuc}
use satfarm.Text.Words.{Text, is_space, trim_left, trim_right, trim_space, extend_word, fields}
use satfarm.Text.Number.{digits, show_nat, itoa}
use satfarm.Text.Digits.{show_nat_head}
use satfarm.Text.Lines.{NoNewline}

-- A digit, or one of the signs '-', '.' and '/'.
abbrev pub IsPlain : ℕ → Type 0
IsPlain c = (b'-' ≤ c) × (c ≤ b'9')

pub IsPlain-is_space : (c : ℕ) → IsPlain c → is_space c ≡ false
unfolding is_space
IsPlain-is_space c h = ground arith

digits-IsPlain : (fuel n : ℕ) (out : Text) → All IsPlain out → All IsPlain (digits fuel n out)
unfolding digits
digits-IsPlain zero n out h = h
digits-IsPlain (suc fuel) n out h = elim (Bool-cases (n / 10 == 0)) [
  | inl last ↦ rw last (d, h)
  | inr more ↦ rw more (digits-IsPlain fuel (n / 10) ((b'0' + n % 10) ∷ out) (d, h))
]
  where
    d : IsPlain (b'0' + n % 10)
    d = omega arith

show_nat-IsPlain : (n : ℕ) → All IsPlain (show_nat n)
unfolding show_nat
show_nat-IsPlain n = digits-IsPlain (suc n) n [] tt

-- A printed integer is a word.
pub itoa-IsPlain : (z : ℤ) → All IsPlain (itoa z)
unfolding itoa
itoa-IsPlain (pos n) = show_nat-IsPlain n
itoa-IsPlain (negsuc n) = (omega arith, show_nat-IsPlain (suc n))

pub itoa_head : (z : ℤ) → (c : ℕ) × (t : Text) × (itoa z ≡ c ∷ t) × IsPlain c
unfolding itoa
itoa_head (pos n) =
    let (d, rest, e, lo, hi) = show_nat_head n in (d, rest, e, (omega arith, omega arith))
itoa_head (negsuc n) = (b'-', show_nat (suc n), refl, (omega arith, omega arith))

-- A word before a blank is the first word of the text.
pub fields-word :
    (c : ℕ) (w rest : Text)
    → All IsPlain (c ∷ w)
    → fields ((c ∷ w) ++ (b' ' ∷ rest)) ≡ (c ∷ w) ∷ fields rest
unfolding fields
fields-word c [] rest h = rw (IsPlain-is_space c h.0) (unfold is_space in refl)
fields-word c (d ∷ w) rest h =
    rw (IsPlain-is_space c h.0, IsPlain-is_space d h.1.0)
      (ap (extend_word c) (rw (IsPlain-is_space d h.1.0) at (fields-word d w rest h.1)))

pub trim_right_end :
    (s : Text) (c : ℕ) → is_space c ≡ false → trim_right (s ++ c ∷ []) ≡ s ++ c ∷ []
unfolding trim_right
trim_right_end [] c h = rw h
trim_right_end (d ∷ s) c h = rw (trim_right_end s c h) (tail_kept d s)
  where
    tail_kept :
        (d : ℕ) (s : Text)
        → (if is_space d && is_empty (s ++ c ∷ []) then [] else d ∷ (s ++ c ∷ []))
          ≡ d ∷ (s ++ c ∷ [])
    tail_kept d [] = ground arith
    tail_kept d (x ∷ s) = ground arith

-- A text that begins and ends with no white space is trimmed already.
pub trim_space_id :
    (c : ℕ) (s : Text) (d : ℕ)
    → is_space c ≡ false
    → is_space d ≡ false
    → trim_space (c ∷ (s ++ d ∷ [])) ≡ c ∷ (s ++ d ∷ [])
unfolding trim_space
trim_space_id c s d hc hd = rw (trim_right_end (c ∷ s) d hd) (unfold trim_left in rw hc)

-- A text that begins with no white space keeps its first character.
pub trim_space_head :
    (c : ℕ) (s : Text) → is_space c ≡ false → (t : Text) × (trim_space (c ∷ s) ≡ c ∷ t)
unfolding trim_space trim_right
trim_space_head c s h = (trim_right s, rw h (unfold trim_left in rw h))

pub IsPlain-NoNewline : (s : Text) → All IsPlain s → NoNewline s
IsPlain-NoNewline [] h = tt
IsPlain-NoNewline (c ∷ s) h = (ground arith, IsPlain-NoNewline s h.1)
