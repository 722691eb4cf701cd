-- ===== src/Sat/Dimacs/Tokens.antt =====
-- The validator's loop over the tokens of a line accepts just the clause lines.
use satfarm.Prelude.{
  ℕ, ◌^◌, ◌<◌, ◌≡◌, inl, inr, true, false, ◌||◌, List, [], ◌∷◌, Option, some, ok, is_empty, arith,
  Bool-cases, Option-cases, ◌∙◌, ap,
}
use satfarm.Prelude.Int.{ℤ, pos, ltb_ℤ, eqb_ℤ, neg_int, ◌-ℤ◌, Fits, eqb_ℤ_iff}
use satfarm.Text.{Text, parse_int, parse_digits, in_range_pos, in_range_neg}
use satfarm.Sat.Dimacs.{abs_int, check_tokens}
use satfarm.Sat.Dimacs.Spec.{IsClause, final, literal}
use satfarm.Sat.Cube.Bounds.{Within}

-- `Atoi` returns 64-bit integers.
pub parse_int-Fits : (s : Text) {z : ℤ} → parse_int s ≡ some z → Fits 64 z
unfolding parse_int
parse_int-Fits [] h = cc
parse_int-Fits (c ∷ s) h = ground (
  arith,
  in_range_pos-Fits (parse_digits s),
  in_range_pos-Fits (parse_digits (c ∷ s)),
  in_range_neg-Fits (parse_digits s),
)
  where
    in_range_pos-Fits : (o : Option ℕ) {z : ℤ} → in_range_pos o ≡ some z → Fits 64 z
    in_range_pos-Fits o h = ground arith

    in_range_neg-Fits : (o : Option ℕ) {z : ℤ} → in_range_neg o ≡ some z → Fits 64 z
    in_range_neg-Fits o h = ground arith

-- The range test of the validator, of a literal other than zero.
pub in_range-Within :
    (n : ℕ) (z : ℤ)
    → n < 2 ^ 63
    → Fits 64 z
    → eqb_ℤ z (pos 0) ≡ false
    → (ltb_ℤ (abs_int z) (pos 1) || ltb_ℤ (pos n) (abs_int z)) ≡ false
    → Within n z
unfolding neg_int ◌-ℤ◌
in_range-Within n z b f ne h = ground arith

pub Within-in_range :
    (n : ℕ) (z : ℤ)
    → n < 2 ^ 63
    → Within n z
    → (eqb_ℤ z (pos 0) ≡ false) × ((ltb_ℤ (abs_int z) (pos 1) || ltb_ℤ (pos n) (abs_int z)) ≡ false)
unfolding neg_int ◌-ℤ◌
Within-in_range n z b w = ground arith

pub check_tokens-IsClause :
    (n line_no : ℕ) (toks : List Text)
    → n < 2 ^ 63
    → check_tokens n line_no toks ≡ ok true
    → IsClause n toks
unfolding check_tokens
check_tokens-IsClause n k [] b h = cc
check_tokens-IsClause n k (tok ∷ toks) b h = elim (Option-cases (parse_int tok)) [
  | inl bad ↦ ground arith
  | inr (z, e) ↦ elim (Bool-cases (eqb_ℤ z (pos 0))) [
    | inl zero_lit ↦ last toks (e ∙ ap some ((eqb_ℤ_iff z (pos 0)).0 zero_lit)) (ground arith)
    | inr lit ↦ elim (Bool-cases (ltb_ℤ (abs_int z) (pos 1) || ltb_ℤ (pos n) (abs_int z))) [
      | inl out ↦ ground arith
      | inr inside ↦
          literal z e (in_range-Within n z b (parse_int-Fits tok e) lit inside)
            (check_tokens-IsClause n k toks b (ground arith))
    ]
  ]
]
  where
    last :
        (ts : List Text) → parse_int tok ≡ some (pos 0) → is_empty ts ≡ true → IsClause n (tok ∷ ts)
    last [] e h = final e
    last (t ∷ ts) e h = cc

pub IsClause-check_tokens :
    (n line_no : ℕ) {toks : List Text}
    → n < 2 ^ 63
    → IsClause n toks
    → check_tokens n line_no toks ≡ ok true
unfolding check_tokens
IsClause-check_tokens n k b (final e) = rw (e, check_tokens)
IsClause-check_tokens n k b (literal {toks = toks} z e w h) =
    let (ne, inside) = Within-in_range n z b w in
    rw (e, check_tokens) (rw (ne, inside) (IsClause-check_tokens n k b h))
