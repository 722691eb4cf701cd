-- ===== src/Scheduler/Tests.antt =====
-- An output of the solver, and what the server reads of it.
use satfarm.Prelude.{◌≡◌, refl, List, [], ◌∷◌, some, arith}
use satfarm.Prelude.Int.{pos, negsuc}
use satfarm.Text.{Text, codes}
use satfarm.Sat.Kissat.{sat, parse_kissat_output}
use satfarm.Sat.Kissat.Printed.{Line, comment, values, printed, printed_lits}
use satfarm.Scheduler.{parse_assignment}
use satfarm.Scheduler.Reported.{parse_assignment-printed}

abbrev answer_lines : List Line
answer_lines = values (pos 1) [] ∷ comment (codes " more") ∷ values (negsuc 1) (pos 0 ∷ []) ∷ []

parse_assignment-printed_example :
    (text : Text) × (parse_kissat_output (printed (codes " found" ∷ []) answer_lines)
      ≡ some (sat, text))
    × (parse_assignment text ≡ some (printed_lits answer_lines))
parse_assignment-printed_example =
    parse_assignment-printed (codes " found" ∷ []) answer_lines
      ((refl, (refl, (refl, (refl, (refl, (refl, tt)))))), tt)
      (
        ((omega arith, omega arith), tt),
        (
          (refl, (refl, (refl, (refl, (refl, tt))))),
          (((omega arith, omega arith), ((omega arith, omega arith), tt)), tt),
        ),
      )
      refl
