-- ===== src/Client/Honest.antt =====
-- A worker whose solver finds a model, and the server that checks it.
use satfarm.Prelude.{
  ℕ, zero, suc, ◌+◌, ◌^◌, ◌<◌, ◌≡◌, refl, ◌∙◌, ap, Bool, true, false, List, map, Option, some, ok,
  All, if◌then◌else◌, arith,
}
use satfarm.Prelude.Int.{ℤ, pos, negsuc, Fits}
use satfarm.Text.{Text, join, itoa, scan_lines, default_limit}
use satfarm.Sat.Cnf.{Valuation, cnf_holds}
use satfarm.Sat.Meaning.{formula}
use satfarm.Sat.Apply.{apply_cube}
use satfarm.Sat.Apply.Tokens.{IsLiteral}
use satfarm.Sat.Apply.Cubed.{apply_cube_correct}
use satfarm.Sat.Dimacs.{prepare_cnf}
use satfarm.Sat.Dimacs.Prepared.{prepare_cnf-formula}
use satfarm.Text.Lines.{NoNewline}
use satfarm.Sat.Kissat.Printed.{Line, printed, IsPrinted, printed_lits, parse_kissat_output-printed}
use satfarm.Sat.Kissat.{sat, parse_kissat_output}
use satfarm.Sat.Verify.{verify_sat_assignment, verify_limit}
use satfarm.Sat.Verify.Complete.{model_from, model_of, AreClauses, verify_sat_assignment_complete}
use satfarm.Sat.Cube.Bounds.{Within}
use satfarm.Scheduler.{parse_assignment}
use satfarm.Scheduler.Reported.{parse_assignment-join}
use satfarm.Client.{
  Assignment, Outside, result_of, run_kissat, prepare_downloaded, prepare_job, handle_assign_job,
}

one_Fits : (b : Bool) (i : ℕ) → i + 1 < 2 ^ 31 → Fits 32 (if b then pos (i + 1) else negsuc i)
one_Fits true i h = (omega arith, omega arith)
one_Fits false i h = (omega arith, omega arith)

model_from-Fits : (v : Valuation) (i n : ℕ) → i + n < 2 ^ 31 → All (Fits 32) (model_from v i n)
model_from-Fits v i zero b = tt
model_from-Fits v i (suc n) b =
    (one_Fits (v (i + 1)) i (omega arith), model_from-Fits v (i + 1) n (omega arith))

parse_assignment-model :
    (v : Valuation) (n : ℕ)
    → 0 < n
    → n < 2 ^ 31
    → parse_assignment (join (map itoa (model_of v n))) ≡ some (model_of v n)
parse_assignment-model v zero some_var b = absurd (omega arith)
parse_assignment-model v (suc n) some_var b =
    parse_assignment-join _ (model_from v 1 n) (model_from-Fits v 0 (suc n) (omega arith))

prepared :
    (o : Option Text) (cube : List ℤ) (file cubed cnf : Text)
    → o ≡ some file
    → apply_cube file cube ≡ some cubed
    → prepare_cnf cubed ≡ some cnf
    → prepare_downloaded cube o ≡ some cnf
prepared o cube file cubed cnf e1 e2 e3 = rw (e1) (rw (e2) e3)

ran :
    (out : Outside) (cnf text : Text)
    → parse_kissat_output (out.solver cnf) ≡ some (sat, text)
    → run_kissat out cnf ≡ some (true, text)
unfolding run_kissat
ran out cnf text e = rw (e, run_kissat) refl

-- The result that a worker sends of a model.
sends :
    (out : Outside) (a : Assignment) (cnf text : Text)
    → prepare_job out a.cube_literals ≡ some cnf
    → run_kissat out cnf ≡ some (true, text)
    → out.cancelled 0 ≡ false
    → out.cancelled 1 ≡ false
    → handle_assign_job out a ≡ some (result_of a true text)
unfolding handle_assign_job
sends out a cnf text e1 e2 c0 c1 = rw (e1, handle_assign_job) (rw c0 (rw e2 (rw c1 refl)))

-- A worker downloads a file whose lines fit the scanner and are comments, headers, end marks or
-- clauses over the variables 1 to `n`, with `n` from 1 and below 2 ^ 31, for a cube of literals over
-- these; the lines of the file with the cube fit too; on what it prepares of that, the solver prints
-- comments, the line `s SATISFIABLE`, and the literals of a model, on any number of value lines with
-- zeros and comments among them; and the job is not cancelled. Then it sends a result that says so, from
-- which the server parses an assignment that it verifies against the file and the cube.
pub handle_assign_job-accepted :
    (out : Outside) (a : Assignment) (file cubed cnf : Text) (n : ℕ) (v : Valuation)
    (before : List Text) (ls : List Line)
    → out.download ≡ some file
    → (scan_lines verify_limit file).too_long ≡ false
    → AreClauses n (scan_lines verify_limit file).lines
    → All IsLiteral a.cube_literals × All (Within n) a.cube_literals
    → (0 < n) × (n < 2 ^ 31)
    → apply_cube file a.cube_literals ≡ some cubed
    → (scan_lines default_limit cubed).too_long ≡ false
    → prepare_cnf cubed ≡ some cnf
    → out.solver cnf ≡ printed before ls
    → All NoNewline before × All IsPrinted ls
    → printed_lits ls ≡ model_of v n
    → cnf_holds v (formula cnf) ≡ true
    → (out.cancelled 0 ≡ false) × (out.cancelled 1 ≡ false)
    → (text : Text) × (assignment : List ℤ) × (handle_assign_job out a
        ≡ some (result_of a true text))
      × (parse_assignment text ≡ some assignment)
      × (verify_sat_assignment (some file) a.cube_literals assignment ≡ ok tt)
handle_assign_job-accepted out a file cubed cnf n v before ls got fits lines cube bounds made fits2
      ready prints well_printed lits model live =
    let read = parse_kissat_output-printed before ls well_printed.0 well_printed.1 in
    let solved : parse_kissat_output (out.solver cnf) ≡ some (sat, join (map itoa (model_of v n))) =
      ap parse_kissat_output prints ∙ (rw lits at read) in
    let (cnf', ready', same, _) = prepare_cnf-formula cubed fits2 in
    let one : cnf' ≡ cnf = cc in
    let whole = rw one at same ∙ apply_cube_correct file a.cube_literals cubed made cube.0 in
    (
      join (map itoa (model_of v n)),
      model_of v n,
      sends out a cnf _
          (unfold prepare_job in prepared out.download _ file cubed cnf got made ready)
          (ran out cnf _ solved) live.0 live.1,
      parse_assignment-model v n bounds.0 bounds.1,
      verify_sat_assignment_complete file a.cube_literals n v bounds.1 fits lines cube.1
          (rw (← whole) model),
    )
