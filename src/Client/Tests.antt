-- ===== src/Client/Tests.antt =====
-- A worker that is sent one assignment, and solves it.
use satfarm.Prelude.{ℕ, ◌≡◌, ◌⊎◌, refl, List, [], ◌∷◌, true, false, some, none, ok, All, arith}
use satfarm.Prelude.Int.{ℤ, pos, negsuc}
use satfarm.Text.{Text, codes, scan_lines, default_limit, join, itoa}
use satfarm.World.{assign_job}
use satfarm.Sat.Cnf.{Valuation, cnf_holds}
use satfarm.Sat.Meaning.{formula}
use satfarm.Sat.Dimacs.Spec.{final, literal}
use satfarm.Sat.Dimacs.{prepare_cnf}
use satfarm.Sat.Apply.{apply_cube}
use satfarm.Sat.Kissat.{parse_kissat_output}
use satfarm.Sat.Verify.{verify_limit, verify_sat_assignment}
use satfarm.Text.Lines.{NoNewline}
use satfarm.Sat.Kissat.Printed.{Line, comment, values, printed, IsPrinted, printed_lits}
use satfarm.Sat.Verify.Complete.{AreClauses, model_of}
use satfarm.Scheduler.{parse_assignment}
use satfarm.Client.{Assignment, Outside, handle_assign_job, result_of}
use satfarm.Client.Jobs.{Worker, here, after, received, receive_message, new_worker}
use satfarm.Client.Alone.{IsAlone, Reach-IsAlone}
use satfarm.Client.Honest.{handle_assign_job-accepted}

abbrev assigned : Worker
assigned = receive_message (assign_job 1 1 (pos 1 ∷ [])) new_worker

Reach-IsAlone_example :
    IsAlone assigned
    × ((assigned.current_job ≡ none)
        ⊎ ((job shard : ℕ) (cube : List ℤ)
            → receive_message (assign_job job shard cube) assigned ≡ assigned))
Reach-IsAlone_example =
    Reach-IsAlone assigned (after here (received (assign_job 1 1 (pos 1 ∷ [])) new_worker))

abbrev two_clauses : Text
two_clauses = codes "c two\np cnf 2 2\n1 -2 0\n2 0\n"

abbrev all_true : Valuation
all_true n = true

abbrev two_cubed : Text
two_cubed = codes "c two\np cnf 2 3\n1 -2 0\n2 0\n1 0\n"

abbrev outside : Outside
outside = record {
  download = some two_clauses;
  solver = λ cnf. codes "c found\ns SATISFIABLE\nv 1\nc more\nv 2 0\n";
  prover = λ cnf. none;
  upload = λ proof. none;
  cancelled = λ place. false;
}

abbrev one : Assignment
one = record { job_id = 1; shard_id = 1; cube_literals = pos 1 ∷ [] }

clause_lines_two : AreClauses 2 (scan_lines verify_limit two_clauses).lines
unfolding scan_lines satfarm.Text.trim_space satfarm.Text.trim_left satfarm.Text.trim_right
    satfarm.Text.is_space satfarm.Text.has_prefix satfarm.Text.fields satfarm.Text.text_eq
    satfarm.Text.parse_int satfarm.Prelude.Int.neg_int satfarm.Prelude.Int.◌-ℤ◌
clause_lines_two = (
  tt,
  (
    tt,
    (
      literal (pos 1) refl (omega arith, omega arith)
          (literal (negsuc 1) refl (omega arith, omega arith) (final refl)),
      (literal (pos 2) refl (omega arith, omega arith) (final refl), tt),
    ),
  ),
)

-- The values of the model, on two lines.
abbrev answer_lines : List Line
answer_lines = values (pos 1) [] ∷ comment (codes " more") ∷ values (pos 2) (pos 0 ∷ []) ∷ []

answer_lines-IsPrinted : All NoNewline (codes " found" ∷ []) × All IsPrinted answer_lines
answer_lines-IsPrinted = (
  ((refl, (refl, (refl, (refl, (refl, (refl, tt)))))), tt),
  (
    ((omega arith, omega arith), tt),
    (
      (refl, (refl, (refl, (refl, (refl, tt))))),
      (((omega arith, omega arith), ((omega arith, omega arith), tt)), tt),
    ),
  ),
)

steps_two :
    ((scan_lines verify_limit two_clauses).too_long ≡ false)
    × (apply_cube two_clauses (pos 1 ∷ []) ≡ some two_cubed)
    × ((scan_lines default_limit two_cubed).too_long ≡ false)
    × (prepare_cnf two_cubed ≡ some two_cubed)
    × (outside.solver two_cubed ≡ printed (codes " found" ∷ []) answer_lines)
    × (printed_lits answer_lines ≡ model_of all_true 2)
    × (cnf_holds all_true (formula two_cubed) ≡ true)
unfolding scan_lines satfarm.Text.trim_space satfarm.Text.trim_left satfarm.Text.trim_right
    satfarm.Text.is_space satfarm.Text.has_prefix satfarm.Text.fields satfarm.Text.text_eq
    satfarm.Text.parse_int satfarm.Prelude.Int.neg_int satfarm.Prelude.Int.◌-ℤ◌ formula apply_cube
    prepare_cnf parse_kissat_output satfarm.Text.unlines itoa join satfarm.Text.split_on
    satfarm.Text.contains
steps_two = (refl, refl, refl, refl, refl, refl, refl)

handle_assign_job-accepted_example :
    (text : Text) × (assignment : List ℤ) × (handle_assign_job outside one
      ≡ some (result_of one true text))
    × (parse_assignment text ≡ some assignment)
    × (verify_sat_assignment (some two_clauses) (pos 1 ∷ []) assignment ≡ ok tt)
unfolding satfarm.Prelude.Int.◌-ℤ◌
handle_assign_job-accepted_example =
    let (short, applied, short2, prepared, prints, lits, model) = steps_two in
    handle_assign_job-accepted outside one two_clauses two_cubed two_cubed 2 all_true
      (codes " found" ∷ []) answer_lines refl short clause_lines_two
      (((ground arith, omega arith), tt), ((omega arith, omega arith), tt))
      (omega arith, omega arith) applied short2 prepared prints answer_lines-IsPrinted lits model
      (refl, refl)
