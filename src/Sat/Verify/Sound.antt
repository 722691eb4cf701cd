-- ===== src/Sat/Verify/Sound.antt =====
-- What an accepted model proves: the formula has a model inside the cube.
use satfarm.Prelude.{
  ℕ, zero, suc, ◌+◌, ◌-◌, ◌^◌, ◌<◌, ◌≡◌, refl, inl, inr, Bool, true, false, ◌&&◌, List, [], ◌∷◌,
  none, some, Result, ok, Option-cases, arith, ltb, ltb→lt, if◌then◌else◌, Bool-cases,
}
use satfarm.Prelude.Int.{ℤ, pos, negsuc, eqb_ℤ, neg_int, ◌-ℤ◌, Fits}
use satfarm.Text.{Text, trim_space, fields, parse_int}
use satfarm.Sat.Dimacs.{abs_int}
use satfarm.Sat.Dimacs.Tokens.{parse_int-Fits}
use satfarm.Sat.Cnf.{Clause, Valuation, lit_holds, clause_holds, cnf_holds}
use satfarm.Sat.Meaning.{add_literal, literals, no_clause, is_end, line_clauses}
use satfarm.Sat.Verify.{VerifyError, Assign, makes_true, check_clause, verify_lines}

-- A valuation that agrees with the assignment where that has a value.
abbrev pub Extends : Assign → Valuation → Type 0
Extends m v = (n : ℕ) (b : Bool) → m (pos n) ≡ some b → v n ≡ b

-- The least 64-bit integer, whose absolute value is itself, is no key.
abbrev pub NoLeast : Assign → Type 0
NoLeast m = m (negsuc (2 ^ 63 - 1)) ≡ none

pub abs_int_negsuc : (n : ℕ) → n + 1 < 2 ^ 63 → abs_int (negsuc n) ≡ pos (suc n)
unfolding neg_int ◌-ℤ◌
abs_int_negsuc n h = ground arith

pub abs_int_pos : (n : ℕ) → abs_int (pos n) ≡ pos n
abs_int_pos n = ground arith

abs_int_least : abs_int (negsuc (2 ^ 63 - 1)) ≡ negsuc (2 ^ 63 - 1)
unfolding neg_int ◌-ℤ◌
abs_int_least = refl

pub add_nonzero : (z : ℤ) (c : Clause) → eqb_ℤ z (pos 0) ≡ false → add_literal z c ≡ z ∷ c
add_nonzero (pos zero) c h = ground arith
add_nonzero (pos (suc n)) c h = refl
add_nonzero (negsuc n) c h = refl

pub verify_skipped :
    (m : Assign) (k : ℕ) (l : Text) (ls : List Text) (long : Bool)
    → no_clause (trim_space l) ≡ true
    → verify_lines m k (l ∷ ls) long ≡ ok tt
    → verify_lines m (k + 1) ls long ≡ ok tt
unfolding verify_lines
verify_skipped m k l ls long s h = ground arith

pub verify_clause :
    (m : Assign) (k : ℕ) (l : Text) (ls : List Text) (long : Bool)
    → no_clause (trim_space l) ≡ false
    → is_end (trim_space l) ≡ false
    → verify_lines m k (l ∷ ls) long ≡ ok tt
    → (check_clause m (k + 1) (fields (trim_space l)) ≡ ok true)
      × (verify_lines m (k + 1) ls long ≡ ok tt)
unfolding verify_lines
verify_clause m k l ls long s p h = ground arith

module _ (m : Assign) (v : Valuation) (x : Extends m v) (least : NoLeast m) where
  makes_true-lit_holds :
      (z : ℤ) (val : Bool)
      → Fits 64 z
      → m (abs_int z) ≡ some val
      → makes_true z val ≡ true
      → lit_holds v z ≡ true
  makes_true-lit_holds (pos n) val f e h = ground (arith, x n val (rw (abs_int_pos n) at e))
  makes_true-lit_holds (negsuc n) val f e h = elim (Bool-cases (ltb (n + 1) (2 ^ 63))) [
    | inl small ↦ ground (arith, x (suc n) val (rw (abs_int_negsuc n (ltb→lt _ _ small)) at e))
    | inr big ↦
        let edge : n ≡ 2 ^ 63 - 1 = ground arith in
        let e' = rw abs_int_least at (rw edge at e) in ground (arith, e', least)
  ]

  -- One literal other than zero: what the loop returns, against the truth of the clause.
  literal_holds :
      (z : ℤ) (c : Clause) (rest : Result VerifyError Bool)
      → Fits 64 z
      → eqb_ℤ z (pos 0) ≡ false
      → (rest ≡ ok true → clause_holds v c ≡ true)
      → elim (m (abs_int z)) [ none ↦ rest | some val ↦ if makes_true z val then ok true else rest ]
        ≡ ok true
      → clause_holds v (add_literal z c) ≡ true
  literal_holds z c rest f ne ih h = elim (Option-cases (m (abs_int z))) [
    | inl unset ↦ rw (add_nonzero z c ne) (ground (arith, ih (rw unset at h)))
    | inr (val, e) ↦ rw (add_nonzero z c ne) (elim (Bool-cases (makes_true z val)) [
      | inl true_lit ↦ rw (makes_true-lit_holds z val f e true_lit)
      | inr no_help ↦ ground (arith, ih (rw (e, no_help) at h))
    ])
  ]

  check_clause-holds :
      (k : ℕ) (toks : List Text)
      → check_clause m k toks ≡ ok true
      → clause_holds v (literals toks) ≡ true
  unfolding check_clause literals
  check_clause-holds k [] h = cc
  check_clause-holds k (tok ∷ toks) h = elim (Option-cases (parse_int tok)) [
    | inl bad ↦ ground arith
    | inr (z, e) ↦ elim (Bool-cases (eqb_ℤ z (pos 0))) [
      | inl stop ↦ ground arith
      | inr lit ↦
          rw (e, literals)
            (literal_holds z (literals toks) (check_clause m k toks) (parse_int-Fits tok e) lit
              (check_clause-holds k toks) (rw (e, check_clause, lit) at h))
    ]
  ]

  pub verify_lines-holds :
      (k : ℕ) (ls : List Text) (long : Bool)
      → verify_lines m k ls long ≡ ok tt
      → cnf_holds v (line_clauses ls) ≡ true
  unfolding verify_lines line_clauses
  verify_lines-holds k [] long h = refl
  verify_lines-holds k (l ∷ ls) long h = elim (Bool-cases (no_clause (trim_space l))) [
    | inl skip ↦ rw skip (verify_lines-holds (k + 1) ls long (verify_skipped m k l ls long skip h))
    | inr line ↦ elim (Bool-cases (is_end (trim_space l))) [
      | inl stop ↦ rw (line, stop) (refl)
      | inr clause ↦
          let (sat, rest) = verify_clause m k l ls long line clause h in
          rw (line, clause)
            (both (check_clause-holds (k + 1) (fields (trim_space l)) sat)
              (verify_lines-holds (k + 1) ls long rest))
    ]
  ]
    where
      both : {a b : Bool} → a ≡ true → b ≡ true → (a && b) ≡ true
      both p q = ground arith
