-- ===== src/Service.antt =====
-- internal/grpc/worker_service.go: the life of a worker's connection, and the calls that run behind
-- it.
pub mod Auth
pub mod Access
pub mod Tokens
pub mod Revoked
pub mod Steps
use satfarm.Prelude.{ℕ}
use satfarm.World.{Task, mark_assigned, pay_reward, enqueue, World}
use satfarm.World.Exec.{Exec, pure, gets, put_world, ◌>>=◌, ◌>>◌, attempt}
use satfarm.Ledger.{reward_worker_for_job}
use satfarm.Registry.{new_id, set_conn, delete_conn}
use satfarm.Scheduler.{
  maybe_assign_work, enqueue_job, mark_shard_assigned, handle_disconnect, DratTrim, JobResult,
  handle_job_result,
}

-- What a worker sends.
pub data WorkerMessage : Type 0 where
  hello unknown : WorkerMessage
  job_result : JobResult → WorkerMessage

abbrev pub register : ℕ → ℕ → World → World
register worker user w = record w {
  registry = set_conn worker (record { user_id = user }) (new_id w.registry).1;
}

-- `Work` up to its loop, for a user that has been authenticated; the result is `workerID`.
unfoldable pub connect : ℕ → Exec ℕ
unfolding maybe_assign_work
connect user = do
  worker ← gets (λ w. (new_id w.registry).0)
  put_world (register worker user)
  attempt (maybe_assign_work worker)
  pure worker

-- One round of the loop of `Work`. Whatever it calls, the loop goes on.
unfoldable pub receive : DratTrim → ℕ → WorkerMessage → Exec (Unit {0})
unfolding maybe_assign_work handle_job_result
receive drat_trim worker hello = attempt (maybe_assign_work worker) >> pure tt
receive drat_trim worker (job_result res) = do
  attempt (handle_job_result drat_trim worker res)
  attempt (maybe_assign_work worker)
  pure tt
receive drat_trim worker unknown = pure tt

-- What `Work` defers.
unfoldable pub disconnect : ℕ → Exec (Unit {0})
unfolding handle_disconnect
disconnect worker = do
  put_world (λ w. record w { registry = delete_conn worker w.registry })
  handle_disconnect worker

-- A call that was started with `go`.
unfoldable pub run_task : Task → Exec (Unit {0})
unfolding mark_shard_assigned reward_worker_for_job enqueue_job
run_task (mark_assigned job shard name) = mark_shard_assigned job shard name
run_task (pay_reward job shard worker) = attempt (reward_worker_for_job job shard worker) >> pure tt
run_task (enqueue job path max_workers) = attempt (enqueue_job job path max_workers) >> pure tt
