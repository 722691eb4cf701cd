-- ===== src/Sat/Verify/Complete.antt =====
-- A model of the formula, written out for every variable, is accepted.
use satfarm.Prelude.{
  ℕ, zero, suc, ◌+◌, ◌^◌, ◌≤◌, ◌<◌, ◌≡◌, refl, inl, inr, Bool, true, false, ◌&&◌, ◌||◌, List, [],
  ◌∷◌, ◌++◌, some, ok, arith, ltb, leb, ==_iff, ◌==◌, if◌then◌else◌, Bool-cases, sym, ◌∙◌, and_true,
  All,
}
use satfarm.Prelude.Int.{ℤ, pos, negsuc, eqb_ℤ}
use satfarm.Text.{Text, trim_space, fields, scan_lines}
use satfarm.Sat.Cnf.{Valuation, lit_holds, clause_holds, cnf_holds, cube_holds, units}
use satfarm.Sat.Cube.Cover.{cnf_holds-cube}
use satfarm.Sat.Meaning.{no_clause, is_end, line_clauses, formula, literals}
use satfarm.Sat.Meaning.Scanned.{scan_lines-formula}
use satfarm.Sat.Verify.Sound.{add_nonzero, abs_int_negsuc, abs_int_pos}
use satfarm.Sat.Verify.Model.{neg32_negsuc}
use satfarm.Sat.Cube.Bounds.{Within}
use satfarm.Sat.Dimacs.Spec.{IsClause, final, literal}
use satfarm.Sat.Dimacs.{abs_int}
use satfarm.Sat.Verify.{
  Assign, assign_lit, assign_all, empty_assign, violates, check_cube, verify_lines, check_clause,
  makes_true, verify_limit, verify_sat_assignment,
}

-- The values of the variables `i + 1` to `i + n`, as literals.
abbrev pub model_from : Valuation → ℕ → ℕ → List ℤ
model_from v i zero = []
model_from v i (suc n) = (if v (i + 1) then pos (i + 1) else negsuc i) ∷ model_from v (i + 1) n

-- The assignment for the variables 1 to `n`, as a solver prints it.
abbrev pub model_of : Valuation → ℕ → List ℤ
model_of v n = model_from v 0 n

assign_model :
    (v : Valuation) (i : ℕ) (m : Assign) (k : ℕ)
    → i + 1 < 2 ^ 31
    → assign_lit (if v (i + 1) then pos (i + 1) else negsuc i) m (pos k)
      ≡ (if k == i + 1 then some (v k) else m (pos k))
assign_model v i m k b = elim (Bool-cases (v (i + 1))) [
  | inl set ↦ rw set (elim (Bool-cases (k == i + 1)) [
    | inl here ↦ rw ((==_iff k (i + 1)).0 here) (rw set (ground arith))
    | inr away ↦ ground arith
  ])
  | inr unset ↦ rw unset (
      rw (neg32_negsuc i b) (elim (Bool-cases (k == i + 1)) [
        | inl here ↦ rw ((==_iff k (i + 1)).0 here) (rw unset (ground arith))
        | inr away ↦ ground arith
      ]))
]

assign_all-model :
    (v : Valuation) (n i : ℕ) (m : Assign) (k : ℕ)
    → i + n < 2 ^ 31
    → assign_all (model_from v i n) m (pos k)
      ≡ (if ltb i k && leb k (i + n) then some (v k) else m (pos k))
unfolding assign_all
assign_all-model v zero i m k b = ground arith
assign_all-model v (suc n) i m k b =
    let l = if v (i + 1) then pos (i + 1) else negsuc i in
    assign_all-model v n (i + 1) (assign_lit l m) k (omega arith)
    ∙ ground (arith, assign_model v i m k (omega arith))

-- The assignment has the valuation's value for each variable from 1 to `n`.
abbrev Covers : ℕ → Assign → Valuation → Type 0
Covers n m v = (k : ℕ) → 1 ≤ k → k ≤ n → m (pos k) ≡ some (v k)

model_of-Covers :
    (v : Valuation) (n : ℕ) → n < 2 ^ 31 → Covers n (assign_all (model_of v n) empty_assign) v
model_of-Covers v n b k lo hi = assign_all-model v n 0 empty_assign k (omega arith) ∙ ground arith

-- A line is a comment, a header, an end mark, or a clause over the variables 1 to `n`.
abbrev pub IsLine : ℕ → Text → Type 0
IsLine n l =
    if no_clause (trim_space l) || is_end (trim_space l)
    then Unit {0}
    else IsClause n (fields (trim_space l))

abbrev pub AreClauses : ℕ → List Text → Type 0
AreClauses n = All (IsLine n)

IsClause-line :
    (n : ℕ) (l : Text)
    → no_clause (trim_space l) ≡ false
    → is_end (trim_space l) ≡ false
    → IsLine n l
    → IsClause n (fields (trim_space l))
IsClause-line n l a e w = rw (a, e) at w

verify_over :
    (m : Assign) (k : ℕ) (l : Text) (ls : List Text)
    → no_clause (trim_space l) ≡ true
    → verify_lines m (k + 1) ls false ≡ ok tt
    → verify_lines m k (l ∷ ls) false ≡ ok tt
unfolding verify_lines
verify_over m k l ls s h = ground arith

verify_end :
    (m : Assign) (k : ℕ) (l : Text) (ls : List Text)
    → no_clause (trim_space l) ≡ false
    → is_end (trim_space l) ≡ true
    → verify_lines m k (l ∷ ls) false ≡ ok tt
unfolding verify_lines
verify_end m k l ls a e = ground arith

verify_next :
    (m : Assign) (k : ℕ) (l : Text) (ls : List Text)
    → no_clause (trim_space l) ≡ false
    → is_end (trim_space l) ≡ false
    → check_clause m (k + 1) (fields (trim_space l)) ≡ ok true
    → verify_lines m (k + 1) ls false ≡ ok tt
    → verify_lines m k (l ∷ ls) false ≡ ok tt
unfolding verify_lines
verify_next m k l ls a e c h = ground arith

module _ (n : ℕ) (m : Assign) (v : Valuation) (b : n < 2 ^ 31) (c : Covers n m v) where
  found :
      (z : ℤ)
      → Within n z
      → (val : Bool) × (m (abs_int z) ≡ some val) × (makes_true z val ≡ lit_holds v z)
  found (pos k) w = (v k, rw (abs_int_pos k) (c k (omega arith) (omega arith)), ground arith)
  found (negsuc k) w = (
    v (suc k),
    rw (abs_int_negsuc k (omega arith)) (c (suc k) (omega arith) (omega arith)),
    ground arith,
  )

  Within-nonzero : (z : ℤ) → Within n z → eqb_ℤ z (pos 0) ≡ false
  Within-nonzero z w = ground arith

  check_clause-ok :
      (k : ℕ) {toks : List Text}
      → IsClause n toks
      → clause_holds v (literals toks) ≡ true
      → check_clause m k toks ≡ ok true
  unfolding literals check_clause
  check_clause-ok k (final e) h = absurd (ground (arith, e))
  check_clause-ok k (literal {toks = toks} z e w r) h =
      let (val, here, sat) = found z w in
      let ne = Within-nonzero z w in
      let h' = rw (e, literals, add_nonzero z (literals toks) ne) at h in
      rw (e, check_clause)
        (rw (ne, here)
          (elim (Bool-cases (makes_true z val)) [
            | inl good ↦ rw good
            | inr bad ↦ rw bad (check_clause-ok k r (ground arith))
          ]))

  true-unviolated : (l : ℤ) → Within n l → lit_holds v l ≡ true → violates m l ≡ false
  true-unviolated (pos k) w h = ground (arith, c k (omega arith) (omega arith))
  true-unviolated (negsuc k) w h =
      rw (neg32_negsuc k (omega arith)) (ground (arith, c (suc k) (omega arith) (omega arith)))

  check_cube-ok :
      (cube : List ℤ) → All (Within n) cube → cube_holds v cube ≡ true → check_cube m cube ≡ ok tt
  unfolding check_cube
  check_cube-ok [] w h = refl
  check_cube-ok (l ∷ cube) w h =
      let (a, rest) = and_true (lit_holds v l) (cube_holds v cube) h in
      rw (true-unviolated l w.0 a) (check_cube-ok cube w.1 rest)

  verify_lines-ok :
      (k : ℕ) (ls : List Text)
      → AreClauses n ls
      → cnf_holds v (line_clauses ls) ≡ true
      → verify_lines m k ls false ≡ ok tt
  unfolding line_clauses
  verify_lines-ok k [] w h = unfold verify_lines in refl
  verify_lines-ok k (l ∷ ls) w h = elim (Bool-cases (no_clause (trim_space l))) [
    | inl skip ↦ verify_over m k l ls skip (verify_lines-ok (k + 1) ls w.1 (rw skip at h))
    | inr line ↦ elim (Bool-cases (is_end (trim_space l))) [
      | inl stop ↦ verify_end m k l ls line stop
      | inr clause ↦
          let (one, rest) = and_true _ _ (rw (line, clause) at h) in
          verify_next m k l ls line clause
            (check_clause-ok (k + 1) (IsClause-line n l line clause w.0) one)
            (verify_lines-ok (k + 1) ls w.1 rest)
    ]
  ]

-- A solver's model of the formula and the cube is accepted: for a file whose lines fit the scanner
-- and are comments, headers, end marks or clauses over the variables 1 to `n`, with `n` below 2 ^ 31,
-- and a cube over these, the literals of any model of both.
pub verify_sat_assignment_complete :
    (file : Text) (cube : List ℤ) (n : ℕ) (v : Valuation)
    → n < 2 ^ 31
    → (scan_lines verify_limit file).too_long ≡ false
    → AreClauses n (scan_lines verify_limit file).lines
    → All (Within n) cube
    → cnf_holds v (formula file ++ units cube) ≡ true
    → verify_sat_assignment (some file) cube (model_of v n) ≡ ok tt
unfolding verify_sat_assignment
verify_sat_assignment_complete file cube n v b fits w wc h =
    let m = assign_all (model_of v n) empty_assign in
    let c = model_of-Covers v n b in
    let s = scan_lines verify_limit file in
    let (sat, inside) =
      and_true (cnf_holds v (formula file)) (cube_holds v cube)
        (sym (cnf_holds-cube v (formula file) cube) ∙ h) in
    let same = scan_lines-formula verify_limit file (inl fits) in
    let lines_ok = verify_lines-ok n m v b c 0 s.lines w (rw (← same) at sat) in
    rw (check_cube-ok n m v b c cube wc inside, verify_sat_assignment) (rw (fits, lines_ok))
