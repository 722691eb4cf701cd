-- ===== src/Scheduler/Commit.antt =====
-- What the scheduler does of a verified result: `storeSatShardResult`,
-- `markJobCompletedAndCancelOthers`, `VerifyUnsatShard`.
use satfarm.Prelude.{
  ℕ, Bool, true, false, not, ◌&&◌, List, [], ◌∷◌, Option, none, some, is_empty, ltb, ◌==◌,
  if◌then◌else◌,
}
use satfarm.Prelude.Int.{ℤ, to_int32}
use satfarm.Text.{Text, codes, trim_space, fields, parse_int}
use satfarm.Sat.Apply.{apply_cube}
use satfarm.Sat.Dimacs.{prepare_cnf}
use satfarm.World.{
  find, modify, count_where, completed, is_completed, ShardRow, ShardResult, JobOutcome, Db,
  FilePath, upsert, insert_new, Shard, cancel_job, World,
}
use satfarm.World.Exec.{
  no_rows, bad_file, invalid_proof, Exec, pure, raise, gets, or_raise, put_world, ◌>>=◌, ◌>>◌, call,
  query, update_db, attempt, transaction,
}
use satfarm.Ledger.{penalize_worker}
use satfarm.Registry.{ids}
use satfarm.Scheduler.Assign.{send, reenqueue_shard, read_file}

-- `drat-trim`, which is not part of the program: does it accept a proof file for a CNF file? The
-- proof file is `none` if it cannot be read.
abbrev pub DratTrim : Type 0
DratTrim = Text → Option Text → Bool

-- The loop of `parseAssignment`: each number is cut down to 32 bits.
unfoldable pub parse_literals : List Text → Option (List ℤ)
parse_literals [] = some []
parse_literals (p ∷ ps) =
    let rest = parse_literals ps in
    elim (parse_int p) [
      | none ↦ none
      | some n ↦ elim rest [ none ↦ none | some out ↦ some (to_int32 n ∷ out) ]
    ]

-- `parseAssignment`
unfoldable pub parse_assignment : Text → Option (List ℤ)
unfolding parse_literals
parse_assignment sval =
    if is_empty (trim_space sval) then none else parse_literals (fields (trim_space sval))

abbrev pub complete_shard : ℕ → Db → Db
complete_shard shard db = record db {
  shards = modify shard (λ r. record r { status = completed }) db.shards;
}

abbrev pub complete_job : ℕ → Db → Db
complete_job job db = record db { jobs = modify job (λ r. record r { status = completed }) db.jobs }

abbrev pub set_result : ℕ → ShardResult → Db → Db
set_result shard r db = record db { shard_results = upsert shard r db.shard_results }

abbrev pub set_outcome : ℕ → JobOutcome → Db → Db
set_outcome job r db = record db { job_results = insert_new job r db.job_results }

abbrev pub sat_result : List ℤ → ShardResult
sat_result assignment = record { is_sat = true; assignment = some assignment; drat_file_id = none }

abbrev pub sat_outcome : List ℤ → JobOutcome
sat_outcome assignment = record { is_sat = true; assignment = some assignment }

abbrev pub unsat_result : ℤ → ShardResult
unsat_result drat = record { is_sat = false; assignment = none; drat_file_id = some drat }

abbrev pub unsat_outcome : JobOutcome
unsat_outcome = record { is_sat = false; assignment = none }

-- `storeSatShardResult`
unfoldable pub store_sat_shard_result : ℕ → ℕ → List ℤ → Exec (Unit {0})
store_sat_shard_result job shard assignment = transaction (do
  update_db (set_result shard (sat_result assignment))
  update_db (complete_shard shard)
  update_db (set_outcome job (sat_outcome assignment))
  update_db (complete_job job))

-- The workers, other than the winner, whose shard belongs to the job.
unfoldable pub cancel_targets : (ℕ → Option Shard) → ℕ → ℕ → List ℕ → List ℕ
cancel_targets worker_shard job winner [] = []
cancel_targets worker_shard job winner (k ∷ ks) =
    let rest = cancel_targets worker_shard job winner ks in
    elim (worker_shard k) [
      | none ↦ rest
      | some sh ↦ if sh.job_id == job && not (k == winner) then k ∷ rest else rest
    ]

unfoldable pub send_cancels : ℕ → List ℕ → Exec (Unit {0})
send_cancels job [] = pure tt
send_cancels job (k ∷ ks) = do attempt (send k (cancel_job job)); send_cancels job ks

-- `markJobCompletedAndCancelOthers`. A worker that has left the registry is sent nothing, so the
-- targets are sought among the registered workers.
unfoldable pub mark_job_completed : ℕ → World → World
mark_job_completed job w = record w {
  completed_jobs = λ k. if k == job then true else w.completed_jobs k;
}

unfoldable pub mark_job_completed_and_cancel_others : ℕ → ℕ → Exec (Unit {0})
unfolding mark_job_completed cancel_targets send_cancels
mark_job_completed_and_cancel_others job winner = do
  put_world (mark_job_completed job)
  targets ← gets (λ w. cancel_targets w.worker_shard job winner (ids w.registry))
  send_cancels job targets

-- `SELECT cf.storage_path, js.cube_literals … WHERE j.id = $1 AND js.id = $2`
unfoldable pub find_shard_of : ℕ → ℕ → Db → Option (FilePath × List ℤ)
find_shard_of job shard db = elim (find shard db.shards) [
  | none ↦ none
  | some r ↦
      if r.job_id == job
      then elim (find job db.jobs) [ none ↦ none | some j ↦ some (j.cnf_path, r.cube_literals) ]
      else none
]

abbrev pub of_job : ℕ → ℕ → ShardRow → Bool
of_job job k r = r.job_id == job

abbrev pub completed_of : ℕ → ℕ → ShardRow → Bool
completed_of job k r = r.job_id == job && is_completed r.status

abbrev pub is_sat_result : Option ShardResult → Bool
is_sat_result none = false
is_sat_result (some r) = r.is_sat

abbrev pub sat_of : Db → ℕ → ℕ → ShardRow → Bool
sat_of db job k r = r.job_id == job && is_sat_result (db.shard_results k)

-- `totalShards > 0 && completedShards == totalShards && satShards == 0`
abbrev pub is_fully_unsat : ℕ → ℕ → ℕ → Bool
is_fully_unsat total done sat = ltb 0 total && done == total && sat == 0

-- The transaction of `VerifyUnsatShard`. It marks the job in memory before `Commit`.
unfoldable pub commit_unsat : ℕ → ℕ → ℤ → Exec (Unit {0})
unfolding mark_job_completed
commit_unsat job shard drat = transaction (do
  update_db (set_result shard (unsat_result drat))
  update_db (complete_shard shard)
  total ← query (λ db. count_where (of_job job) db.shards)
  done ← gets (λ w. count_where (completed_of job) w.db.shards)
  sat ← query (λ db. count_where (sat_of db job) db.shards)
  if is_fully_unsat total done sat
      then (do
        update_db (set_outcome job unsat_outcome)
        update_db (complete_job job)
        put_world (mark_job_completed job))
      else pure tt)

abbrev pub or_bad_cnf : Option Text → Exec Text
or_bad_cnf none = raise bad_file
or_bad_cnf (some t) = pure t

-- `ApplyCube` and `PrepareCNFForSolving`, with the files that they read and write.
unfoldable pub solve_cnf : FilePath → List ℤ → Exec Text
unfolding read_file
solve_cnf path cube = do
  original ← read_file path
  cubed ← or_bad_cnf (apply_cube original cube)
  call
  or_bad_cnf (prepare_cnf cubed)

-- `VerifyUnsatShard`
unfoldable pub verify_unsat_shard : DratTrim → ℕ → ℕ → ℤ → ℕ → FilePath → Exec (Unit {0})
unfolding solve_cnf commit_unsat
verify_unsat_shard drat_trim job shard drat user drat_path = do
  found ← query (find_shard_of job shard)
  row ← or_raise found no_rows
  cnf ← solve_cnf row.0 row.1
  proof ← gets (λ w. w.files drat_path)
  if drat_trim cnf proof then commit_unsat job shard drat else (do
    penalize_worker user job shard (codes "invalid_drat_proof")
    attempt (reenqueue_shard shard)
    raise invalid_proof)
