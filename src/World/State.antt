-- ===== src/World/State.antt =====
-- The server's state in memory: internal/grpc/scheduler.go, internal/grpc/registry.go.
use satfarm.Prelude.{ℕ, Bool, List, Option}
use satfarm.Prelude.Int.{ℤ}
use satfarm.Text.{Text}
use satfarm.World.Rows.{Db, FilePath}

-- `Shard`
pub record Shard : Type 0 where
  pub job_id : ℕ
  pub shard_id : ℕ
  pub cube_lits : List ℤ
  pub assigned_worker_id : ℕ
  pub assigned_user_id : ℕ

-- `WorkerConn`. The service registers a connection with a stream and an identity, so neither is nil.
pub record WorkerConn : Type 0 where
  pub user_id : ℕ

-- `WorkerRegistry`. The map is a list in some order, which `IDs` hands out.
pub record WorkerRegistry : Type 0 where
  pub conns : List (ℕ × WorkerConn)
  pub next_id : ℕ

-- `ServerMessage`
pub data ServerMessage : Type 0 where
  assign_job : (job_id shard_id : ℕ) → List ℤ → ServerMessage
  cancel_job : (job_id : ℕ) → ServerMessage

-- The calls that the scheduler starts with `go`.
pub data Task : Type 0 where
  mark_assigned : (job_id shard_id : ℕ) → Text → Task
  pay_reward : (job_id shard_id worker_id : ℕ) → Task
  enqueue : (job_id : ℕ) (cnf_path : FilePath) (max_workers : ℤ) → Task

-- `SimpleScheduler`, its registry and its database, and the world that they act on. `faults` says
-- which of the coming calls of the database, of a stream or of the file system fail.
pub record World : Type 0 where
  pub db : Db
  pub registry : WorkerRegistry
  pub worker_shard : ℕ → Option Shard
  pub pending : List Shard
  pub completed_jobs : ℕ → Bool
  pub sessions : Text → Option ℕ
  pub files : FilePath → Option Text
  pub sent : List (ℕ × ServerMessage)
  pub started : List Task
  pub faults : List Bool
