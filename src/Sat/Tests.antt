-- ===== src/Sat/Tests.antt =====
-- Files and cubes on which the theorems of internal/sat are run.
use satfarm.Prelude.{
  ℕ, ◌≡◌, refl, ◌↔◌, ◌≤◌, ◌^◌, true, false, List, [], ◌∷◌, ◌++◌, some, ok, All, length, count,
  arith, any, leb, ◌==◌, ◌||◌,
}
use satfarm.Prelude.Int.{ℤ, pos, negsuc, neg32}
use satfarm.Text.{Text, codes, scan_lines, split_lines, default_limit}
use satfarm.Sat.Cnf.{Clause, Valuation, cnf_holds, cube_holds, units, Unsat}
use satfarm.Sat.Meaning.{formula, has_end}
use satfarm.Sat.Strict.{is_clause_words, is_strict, IsLineChar, IsOnePerLine}
use satfarm.Sat.Cube.{choose_depth_ceil, cubes_for, generate_cubes}
use satfarm.Sat.Cube.Depth.{IsCeil, choose_depth_ceil-IsCeil}
use satfarm.Sat.Cube.Partition.{count-cubes_for}
use satfarm.Sat.Cube.Bounds.{IsCubeOf, cubes_for-IsCubeOf}
use satfarm.Sat.Cube.Cover.{cubes_for-Unsat}
use satfarm.Sat.Dimacs.{validate_dimacs, read_dimacs_header, prepare_cnf}
use satfarm.Sat.Dimacs.Spec.{IsDimacs}
use satfarm.Sat.Dimacs.Valid.{validate_dimacs-IsDimacs}
use satfarm.Sat.Dimacs.Agree.{read_dimacs_header-validate, generate_cubes-validate}
use satfarm.Sat.Dimacs.Prepared.{prepare_cnf-formula}
use satfarm.Sat.Apply.{apply_cube}
use satfarm.Sat.Apply.Cubed.{apply_cube-formula}
use satfarm.Sat.Dimacs.Spec.{final, literal}
use satfarm.Sat.Verify.{verify_limit, assign_all, empty_assign, verify_sat_assignment}
use satfarm.Sat.Verify.Sound.{Extends}
use satfarm.Sat.Verify.Model.{verify_sat_assignment_sound}
use satfarm.Sat.Verify.Complete.{AreClauses, model_of, verify_sat_assignment_complete}

abbrev two_clauses : Text
two_clauses = codes "c two\np cnf 2 2\n1 -2 0\n2 0\n"

abbrev contradiction : List Clause
contradiction = (pos 1 ∷ []) ∷ (negsuc 0 ∷ pos 2 ∷ []) ∷ (negsuc 1 ∷ []) ∷ []

abbrev all_true : Valuation
all_true n = true

short_two : (scan_lines default_limit two_clauses).too_long ≡ false
unfolding scan_lines
short_two = refl

valid_two : validate_dimacs two_clauses ≡ ok tt
unfolding validate_dimacs scan_lines satfarm.Text.trim_space satfarm.Text.trim_left
    satfarm.Text.trim_right satfarm.Text.is_space satfarm.Text.has_prefix satfarm.Text.fields
    satfarm.Text.text_eq satfarm.Text.parse_int satfarm.Prelude.Int.neg_int satfarm.Prelude.Int.◌-ℤ◌
valid_two = refl

accepted_two : verify_sat_assignment (some two_clauses) (pos 1 ∷ []) (pos 1 ∷ pos 2 ∷ []) ≡ ok tt
unfolding verify_sat_assignment scan_lines satfarm.Text.trim_space satfarm.Text.trim_left
    satfarm.Text.trim_right satfarm.Text.is_space satfarm.Text.has_prefix satfarm.Text.fields
    satfarm.Text.text_eq satfarm.Text.parse_int satfarm.Prelude.Int.neg_int satfarm.Prelude.Int.◌-ℤ◌
accepted_two = refl

clause_lines_two : AreClauses 2 (scan_lines verify_limit two_clauses).lines
unfolding scan_lines satfarm.Text.trim_space satfarm.Text.trim_left satfarm.Text.trim_right
    satfarm.Text.is_space satfarm.Text.has_prefix satfarm.Text.fields satfarm.Text.text_eq
    satfarm.Text.parse_int satfarm.Prelude.Int.neg_int satfarm.Prelude.Int.◌-ℤ◌
clause_lines_two = (
  tt,
  (
    tt,
    (
      literal (pos 1) refl (omega arith, omega arith)
          (literal (negsuc 1) refl (omega arith, omega arith) (final refl)),
      (literal (pos 2) refl (omega arith, omega arith) (final refl), tt),
    ),
  ),
)

modelled_two : cnf_holds all_true (formula two_clauses ++ units (pos 1 ∷ [])) ≡ true
unfolding scan_lines satfarm.Text.trim_space satfarm.Text.trim_left satfarm.Text.trim_right
    satfarm.Text.is_space satfarm.Text.has_prefix satfarm.Text.fields satfarm.Text.text_eq
    satfarm.Text.parse_int satfarm.Prelude.Int.neg_int satfarm.Prelude.Int.◌-ℤ◌ formula
modelled_two = refl

short_verify : (scan_lines verify_limit two_clauses).too_long ≡ false
unfolding scan_lines
short_verify = refl

refuted : (l : ℤ) (v : Valuation) → cnf_holds v (contradiction ++ units (l ∷ [])) ≡ false
refuted l v = ground arith

choose_depth_ceil-IsCeil_example : IsCeil 5 10 20 (choose_depth_ceil (pos 5) (pos 10) (pos 20))
choose_depth_ceil-IsCeil_example = choose_depth_ceil-IsCeil (pos 5) (pos 10) (pos 20) (omega arith)

count-cubes_for_example : count (cube_holds all_true) (cubes_for (pos 3) (pos 5)) ≡ 1
count-cubes_for_example = count-cubes_for (pos 3) (pos 5) all_true

cubes_for-IsCubeOf_example :
    (depth : ℕ) × (depth ≤ 20)
    × (depth ≤ 5)
    × (length (cubes_for (pos 3) (pos 5)) ≡ 2 ^ depth)
    × All (IsCubeOf depth) (cubes_for (pos 3) (pos 5))
cubes_for-IsCubeOf_example = cubes_for-IsCubeOf (pos 3) (pos 5)

cubes_for-Unsat_example : Unsat contradiction
unfolding cubes_for choose_depth_ceil satfarm.Sat.Cube.cubes_from
cubes_for-Unsat_example =
    cubes_for-Unsat (pos 2) (pos 2) contradiction (refuted (neg32 (pos 1)), (refuted (pos 1), tt))

validate_dimacs-IsDimacs_example :
    (validate_dimacs two_clauses ≡ ok tt) ↔ ((n : ℕ) × (m : ℕ) × IsDimacs n m two_clauses)
validate_dimacs-IsDimacs_example = validate_dimacs-IsDimacs two_clauses

read_dimacs_header-validate_example :
    (n : ℕ) × (m : ℕ) × IsDimacs n m two_clauses × (read_dimacs_header two_clauses ≡ ok (n, m))
read_dimacs_header-validate_example = read_dimacs_header-validate two_clauses valid_two

generate_cubes-validate_example :
    (n : ℕ) × (m : ℕ) × (read_dimacs_header two_clauses ≡ ok (n, m))
    × (generate_cubes two_clauses (pos 4) ≡ ok (cubes_for (pos 4) (pos n)))
generate_cubes-validate_example = generate_cubes-validate two_clauses (pos 4) valid_two short_two

prepare_cnf-formula_example :
    (out : Text) × (prepare_cnf two_clauses ≡ some out)
    × (formula out ≡ formula two_clauses)
    × (has_end (split_lines out) ≡ false)
prepare_cnf-formula_example = prepare_cnf-formula two_clauses short_two

apply_cube-formula_example :
    (out : Text) × (apply_cube two_clauses (pos 1 ∷ []) ≡ some out)
    × (formula out ≡ formula two_clauses ++ units (pos 1 ∷ []))
unfolding satfarm.Prelude.Int.◌-ℤ◌
apply_cube-formula_example =
    apply_cube-formula two_clauses (pos 1 ∷ []) short_two ((ground arith, omega arith), tt)

verify_sat_assignment_sound_example :
    (v : Valuation) × (cnf_holds v (formula two_clauses ++ units (pos 1 ∷ [])) ≡ true)
    × Extends (assign_all (pos 1 ∷ pos 2 ∷ []) empty_assign) v
verify_sat_assignment_sound_example =
    verify_sat_assignment_sound two_clauses (pos 1 ∷ []) (pos 1 ∷ pos 2 ∷ []) (refl, tt)
      (omega arith) accepted_two

verify_sat_assignment_complete_example :
    verify_sat_assignment (some two_clauses) (pos 1 ∷ []) (model_of all_true 2) ≡ ok tt
verify_sat_assignment_complete_example =
    verify_sat_assignment_complete two_clauses (pos 1 ∷ []) 2 all_true (omega arith) short_verify
      clause_lines_two ((omega arith, omega arith), tt) modelled_two

line_chars : (s : Text) → any (λ c. (c == b'\n') || leb 128 c) s ≡ false → All IsLineChar s
line_chars [] h = tt
line_chars (c ∷ s) h = ground (arith, line_chars s)

-- The file has one clause on a line; one with two clauses on a line has not.
two_clauses-IsOnePerLine : IsOnePerLine two_clauses
unfolding satfarm.Text.split_lines satfarm.Text.trim_space satfarm.Text.trim_left
    satfarm.Text.trim_right satfarm.Text.is_space satfarm.Text.has_prefix satfarm.Text.fields
    satfarm.Text.text_eq satfarm.Text.parse_int satfarm.Prelude.Int.neg_int satfarm.Prelude.Int.◌-ℤ◌
    is_clause_words satfarm.Text.itoa
two_clauses-IsOnePerLine = (
  (line_chars (codes "c two") refl, refl),
  (
    (line_chars (codes "p cnf 2 2") refl, refl),
    ((line_chars (codes "1 -2 0") refl, refl), ((line_chars (codes "2 0") refl, refl), tt)),
  ),
)

two_on_a_line : is_strict (codes "1 0 -1 0") ≡ false
unfolding satfarm.Text.is_space satfarm.Text.has_prefix satfarm.Text.fields satfarm.Text.text_eq
    satfarm.Text.parse_int satfarm.Prelude.Int.neg_int satfarm.Prelude.Int.◌-ℤ◌ is_clause_words
    satfarm.Text.itoa
two_on_a_line = refl
