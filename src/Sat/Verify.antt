-- ===== src/Sat/Verify.antt =====
-- internal/sat/verify_sat.go: the check of a model that a worker sends.
pub mod Sound
pub mod Model
pub mod Complete
use satfarm.Prelude.{
  ℕ, ◌+◌, Bool, true, false, not, ◌&&◌, ◌||◌, List, [], ◌∷◌, Option, none, some, Result, ok, err,
  is_empty, if◌then◌else◌, ◌*◌,
}
use satfarm.Prelude.Int.{ℤ, pos, ltb_ℤ, eqb_ℤ, neg32}
use satfarm.Text.{Text, codes, trim_space, fields, has_prefix, parse_int, scan_lines}
use satfarm.Sat.Dimacs.{abs_int}

pub data VerifyError : Type 0 where
  cube_violated : ℤ → VerifyError
  invalid_literal : ℕ → Text → VerifyError
  unsatisfied : ℕ → VerifyError
  too_long cannot_open : VerifyError

-- `map[int]bool`
abbrev pub Assign : Type 0
Assign = ℤ → Option Bool

abbrev pub put : ℤ → Bool → Assign → Assign
put k b m j = if eqb_ℤ j k then some b else m j

abbrev pub assign_lit : ℤ → Assign → Assign
assign_lit lit m =
    if eqb_ℤ lit (pos 0)
    then m
    else if ltb_ℤ (pos 0) lit
    then put lit true m
    else put (neg32 lit) false m

-- The loop over the assignment.
unfoldable pub assign_all : List ℤ → Assign → Assign
assign_all [] m = m
assign_all (l ∷ ls) m = assign_all ls (assign_lit l m)

abbrev pub empty_assign : Assign
empty_assign k = none

-- Does the assignment contradict a literal of the cube? A variable that has no value does not.
abbrev pub violates : Assign → ℤ → Bool
violates m cl =
    if ltb_ℤ (pos 0) cl
    then elim (m cl) [ none ↦ false | some v ↦ not v ]
    else elim (m (neg32 cl)) [ none ↦ false | some v ↦ v ]

unfoldable pub check_cube : Assign → List ℤ → Result VerifyError (Unit {0})
check_cube m [] = ok tt
check_cube m (cl ∷ cls) =
    let rest = check_cube m cls in if violates m cl then err (cube_violated cl) else rest

-- `(lit > 0 && val) || (lit < 0 && !val)`
abbrev pub makes_true : ℤ → Bool → Bool
makes_true lit val = (ltb_ℤ (pos 0) lit && val) || (ltb_ℤ lit (pos 0) && not val)

-- The loop over the tokens of a clause; the result is `satisfied`.
unfoldable pub check_clause : Assign → ℕ → List Text → Result VerifyError Bool
check_clause m line_no [] = ok false
check_clause m line_no (tok ∷ toks) =
    let rest = check_clause m line_no toks in
    elim (parse_int tok) [
      | none ↦ err (invalid_literal line_no tok)
      | some lit ↦ if eqb_ℤ lit (pos 0) then ok false else elim (m (abs_int lit)) [
        | none ↦ rest
        | some val ↦ if makes_true lit val then ok true else rest
      ]
    ]

-- The loop over the lines, and the test behind it.
unfoldable pub verify_lines : Assign → ℕ → List Text → Bool → Result VerifyError (Unit {0})
unfolding check_clause
verify_lines m line_no [] long = if long then err too_long else ok tt
verify_lines m line_no (l ∷ ls) long =
    let line = trim_space l in
    let rest = verify_lines m (line_no + 1) ls long in
    if is_empty line || has_prefix line (codes "c")
    then rest
    else if has_prefix line (codes "p")
    then rest
    else if has_prefix line (codes "%")
    then ok tt
    else elim (check_clause m (line_no + 1) (fields line)) [
      | err e ↦ err e
      | ok true ↦ rest
      | ok false ↦ err (unsatisfied (line_no + 1))
    ]

abbrev pub verify_limit : ℕ
verify_limit = 4 * 1024 * 1024

-- The file is `none` if it cannot be opened, which is found only behind the check of the cube.
unfoldable pub verify_sat_assignment : Option Text → List ℤ → List ℤ → Result VerifyError (Unit {0})
unfolding assign_all check_cube verify_lines
verify_sat_assignment file cube assignment =
    let m = assign_all assignment empty_assign in
    elim (check_cube m cube) [
      | err e ↦ err e
      | ok _ ↦ elim file [
        | none ↦ err cannot_open
        | some text ↦ let s = scan_lines verify_limit text in verify_lines m 0 s.lines s.too_long
      ]
    ]
