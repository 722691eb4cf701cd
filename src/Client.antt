-- ===== src/Client.antt =====
-- cmd/worker/main.go: the program that solves shards. What it fetches, what the solver prints, what
-- the upload answers, and when the job is cancelled come from outside.
pub mod Jobs
pub mod Alone
pub mod Honest
mod Tests
use satfarm.Prelude.{ℕ, Bool, true, false, List, [], Option, none, some, if◌then◌else◌}
use satfarm.Prelude.Int.{ℤ, pos}
use satfarm.Text.{Text, itoa}
use satfarm.Sat.Apply.{apply_cube}
use satfarm.Sat.Dimacs.{prepare_cnf}
use satfarm.Sat.Kissat.{unknown, sat, unsat, parse_kissat_output}
use satfarm.Scheduler.{JobResult}

-- `AssignJob`
pub record Assignment : Type 0 where
  pub job_id : ℕ
  pub shard_id : ℕ
  pub cube_literals : List ℤ

-- One run of a job: `none` is an error.
pub record Outside : Type 0 where
  -- `downloadCNF`
  pub download : Option Text
  -- The output of `kissat --relaxed` on a file, the proof that it leaves, and `uploadDratProof`, whose
  -- answer is `drat_file_id`.
  pub solver : Text → Text
  pub prover : Text → Option Text
  pub upload : Text → Option ℕ
  -- Whether `ctx` is cancelled at each of the four places where the code looks before it goes on.
  pub cancelled : ℕ → Bool

-- `RunKissat`; a run that fails still has an output.
unfoldable pub run_kissat : Outside → Text → Option (Bool × Text)
run_kissat out cnf = elim (parse_kissat_output (out.solver cnf)) [
  | none ↦ none
  | some answer ↦ elim answer.0 [
    | unknown ↦ none
    | sat ↦ some (true, answer.1)
    | unsat ↦ some (false, [])
  ]
]

abbrev pub result_of : Assignment → Bool → Text → JobResult
result_of a is_sat info = record {
  job_id = a.job_id;
  shard_id = a.shard_id;
  sat = is_sat;
  model_or_core_info = info;
}

-- `ApplyCube` and `PrepareCNFForSolving` on the downloaded file.
abbrev pub prepare_cubed : Option Text → Option Text
prepare_cubed none = none
prepare_cubed (some cubed) = prepare_cnf cubed

abbrev pub prepare_downloaded : List ℤ → Option Text → Option Text
prepare_downloaded cube none = none
prepare_downloaded cube (some original) = prepare_cubed (apply_cube original cube)

unfoldable pub prepare_job : Outside → List ℤ → Option Text
prepare_job out cube = prepare_downloaded cube out.download

-- Behind an unsatisfiable answer.
unfoldable pub prove : Outside → Assignment → Text → Option JobResult
prove out a cnf = elim (out.prover cnf) [
  | none ↦ none
  | some proof ↦ if out.cancelled 2 then none else elim (out.upload proof) [
    | none ↦ none
    | some id ↦ if out.cancelled 3 then none else some (result_of a false (itoa (pos id)))
  ]
]

-- `handleAssignJob`: the result that it sends, where it sends one.
unfoldable pub handle_assign_job : Outside → Assignment → Option JobResult
handle_assign_job out a = elim (prepare_job out a.cube_literals) [
  | none ↦ none
  | some cnf ↦ if out.cancelled 0 then none else elim (run_kissat out cnf) [
    | none ↦ none
    | some answer ↦
        if out.cancelled 1
        then none
        else if answer.0
        then some (result_of a true answer.1)
        else prove out a cnf
  ]
]
