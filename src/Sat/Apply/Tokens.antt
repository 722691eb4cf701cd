-- ===== src/Sat/Apply/Tokens.antt =====
-- The lines that `ApplyCube` writes: a unit clause is read as one, and a header as none.
use satfarm.Prelude.{
  ℕ, zero, suc, ◌≡◌, ◌≢◌, refl, true, false, [], ◌∷◌, ◌++◌, arith, ap, ◌∙◌, sym, All-append,
  append_assoc,
}
use satfarm.Prelude.Int.{ℤ, pos, negsuc, Fits}
use satfarm.Text.{Text, codes, is_space, trim_space, fields, has_prefix, parse_int, itoa}
use satfarm.Text.Digits.{parse_int-itoa}
use satfarm.Text.Lines.{NoNewline}
use satfarm.Text.Plain.{
  IsPlain, IsPlain-is_space, itoa-IsPlain, itoa_head, fields-word, trim_space_id, trim_space_head,
  IsPlain-NoNewline,
}
use satfarm.Sat.Meaning.{add_literal, literals, no_clause, is_end}
use satfarm.Sat.Apply.{header_text, unit_line}

-- A literal of a cube: other than zero, and a 64-bit integer.
abbrev pub IsLiteral : ℤ → Type 0
IsLiteral z = (z ≢ pos 0) × Fits 64 z

unit_line-cons :
    (z : ℤ)
    → (c : ℕ) × (t : Text) × (itoa z ≡ c ∷ t)
      × IsPlain c
      × (unit_line z ≡ c ∷ ((t ++ b' ' ∷ []) ++ b'0' ∷ []))
unit_line-cons z =
    let (c, t, e, p) = itoa_head z in
    (c, t, e, p, rw e (ap (λ s. c ∷ s) (sym (append_assoc t (b' ' ∷ []) (b'0' ∷ [])))))

pub trim_space-unit_line : (z : ℤ) → trim_space (unit_line z) ≡ unit_line z
unfolding is_space
trim_space-unit_line z =
    let (c, t, e, p, u) = unit_line-cons z in
    rw u (trim_space_id c (t ++ b' ' ∷ []) b'0' (IsPlain-is_space c p) refl)

pub fields-unit_line : (z : ℤ) → fields (unit_line z) ≡ itoa z ∷ codes "0" ∷ []
fields-unit_line z =
    let (c, t, e, p) = itoa_head z in
    rw e (fields-word c t (b'0' ∷ []) (rw e at (itoa-IsPlain z)) ∙ unfold fields is_space in refl)

-- The clause of a unit line is its literal.
pub literals-unit_line :
    (z : ℤ) → IsLiteral z → literals (fields (trim_space (unit_line z))) ≡ z ∷ []
unfolding literals
literals-unit_line z h =
    rw (trim_space-unit_line z, fields-unit_line z)
      (rw (parse_int-itoa z h.1, literals) (one z h.0))
  where
    one : (z : ℤ) → z ≢ pos 0 → add_literal z (literals (codes "0" ∷ [])) ≡ z ∷ []
    one (pos zero) ne = absurd (ne refl)
    one (pos (suc n)) ne = unfold parse_int in refl
    one (negsuc n) ne = unfold parse_int in refl

plain_start :
    (c : ℕ) (s : Text) → IsPlain c → (no_clause (c ∷ s) ≡ false) × (is_end (c ∷ s) ≡ false)
unfolding has_prefix
plain_start c s p = (ground arith, ground arith)

pub unit_line-clause :
    (z : ℤ)
    → (no_clause (trim_space (unit_line z)) ≡ false) × (is_end (trim_space (unit_line z)) ≡ false)
unit_line-clause z =
    let (c, t, e, p, u) = unit_line-cons z in rw (trim_space-unit_line z) (rw u (plain_start c _ p))

p_start : (s : Text) → (no_clause (b'p' ∷ s) ≡ true) × (is_end (b'p' ∷ s) ≡ false)
unfolding has_prefix
p_start s = (refl, refl)

-- A new header is no clause, and no end mark.
pub header_text-no_clause :
    (n : ℤ) (m : ℕ)
    → (no_clause (trim_space (header_text n m)) ≡ true)
      × (is_end (trim_space (header_text n m)) ≡ false)
unfolding is_space
header_text-no_clause n m =
    let (t, e) = trim_space_head b'p' (codes " cnf " ++ (itoa n ++ (b' ' ∷ itoa (pos m)))) refl in
    rw e (p_start t)

pub unit_line-NoNewline : (z : ℤ) → NoNewline (unit_line z)
unit_line-NoNewline z =
    All-append _ (itoa z) (codes " 0") (IsPlain-NoNewline (itoa z) (itoa-IsPlain z))
      (refl, (refl, tt))

pub header_text-NoNewline : (n : ℤ) (m : ℕ) → NoNewline (header_text n m)
header_text-NoNewline n m =
    All-append _ (codes "p cnf ") _ (refl, (refl, (refl, (refl, (refl, (refl, tt))))))
      (All-append _ (itoa n) (b' ' ∷ itoa (pos m)) (IsPlain-NoNewline (itoa n) (itoa-IsPlain n))
        (refl, IsPlain-NoNewline (itoa (pos m)) (itoa-IsPlain (pos m))))
