-- ===== src/Scheduler/Results.antt =====
-- `HandleJobResult`: what the server does of a worker's result.
use satfarm.Prelude.{
  ℕ, Bool, List, [], ◌∷◌, ◌++◌, Option, none, some, ok, err, is_empty, ◌==◌, if◌then◌else◌,
}
use satfarm.Prelude.Int.{ℤ}
use satfarm.Text.{Text, codes, trim_space, parse_int}
use satfarm.Sat.Verify.{verify_sat_assignment}
use satfarm.World.{find_id, FilePath, Shard, pay_reward, World}
use satfarm.World.Exec.{
  no_rows, Exec, pure, gets, or_raise, put_world, ◌>>=◌, ◌>>◌, call, query, attempt,
}
use satfarm.Ledger.{penalize_worker}
use satfarm.Scheduler.Assign.{reenqueue_shard}
use satfarm.Scheduler.Commit.{
  DratTrim, parse_assignment, find_shard_of, store_sat_shard_result,
  mark_job_completed_and_cancel_others, verify_unsat_shard,
}

-- `JobResult`
pub record JobResult : Type 0 where
  pub job_id : ℕ
  pub shard_id : ℕ
  pub sat : Bool
  pub model_or_core_info : Text

-- `penalizeWorker`, and then `ReenqueueShard`, whose error is logged.
unfoldable pub reject : ℕ → JobResult → Text → Exec (Unit {0})
reject user res why = do
  penalize_worker user res.job_id res.shard_id why
  attempt (reenqueue_shard res.shard_id)
  pure tt

-- `go s.rewardWorkerForJob(…)`
abbrev pub start_reward : ℕ → JobResult → World → World
start_reward worker res w = record w {
  started = w.started ++ pay_reward res.job_id res.shard_id worker ∷ [];
}

-- The file as `VerifySatAssignment` finds it.
unfoldable pub open_file : FilePath → Exec (Option Text)
unfolding call
open_file path = do r ← attempt call; elim r [ ok _ ↦ gets (λ w. w.files path) | err e ↦ pure none ]

-- Behind the verification of a model.
unfoldable pub accept_model : ℕ → JobResult → List ℤ → Exec (Unit {0})
accept_model worker res assignment = do
  store_sat_shard_result res.job_id res.shard_id assignment
  mark_job_completed_and_cancel_others res.job_id worker
  put_world (start_reward worker res)

-- The SAT branch. An error of the database ends it, and is logged.
unfoldable pub handle_sat : ℕ → ℕ → JobResult → Exec (Unit {0})
unfolding reject open_file accept_model
handle_sat worker user res = elim (parse_assignment res.model_or_core_info) [
  | none ↦ reject user res (codes "invalid_sat_assignment_parse")
  | some assignment ↦ do
    found ← query (find_shard_of res.job_id res.shard_id)
    row ← or_raise found no_rows
    file ← open_file row.0
    elim (verify_sat_assignment file row.1 assignment) [
      | err e ↦ reject user res (codes "invalid_sat_assignment_unsatisfied")
      | ok _ ↦ accept_model worker res assignment
    ]
]

-- The UNSAT branch.
unfoldable pub handle_unsat : DratTrim → ℕ → ℕ → JobResult → Exec (Unit {0})
unfolding reject
handle_unsat drat_trim worker user res =
    let text = trim_space res.model_or_core_info in
    if is_empty text
    then reject user res (codes "unsat_missing_drat_id")
    else elim (parse_int text) [
      | none ↦ reject user res (codes "unsat_invalid_drat_id")
      | some drat ↦ do
        found ← query (λ db. find_id drat db.drat_files)
        elim found [
          | none ↦ reject user res (codes "unsat_drat_file_not_found")
          | some row ↦ do
            verify_unsat_shard drat_trim res.job_id res.shard_id drat user row.storage_path
            put_world (start_reward worker res)
        ]
    ]

abbrev pub user_of : Option Shard → ℕ
user_of none = 0
user_of (some sh) = sh.assigned_user_id

-- `HandleJobResult`: whatever happens, it returns nil.
unfoldable pub handle_job_result : DratTrim → ℕ → JobResult → Exec (Unit {0})
unfolding handle_sat handle_unsat
handle_job_result drat_trim worker res = do
  user ← gets (λ w. user_of (w.worker_shard worker))
  put_world (λ w. record w { worker_shard = λ k. if k == worker then none else w.worker_shard k })
  attempt (if res.sat then handle_sat worker user res else handle_unsat drat_trim worker user res)
  pure tt
