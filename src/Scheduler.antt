-- ===== src/Scheduler.antt =====
-- internal/grpc/scheduler.go.
mod Assign
mod Commit
mod Results
pub mod Reported
mod Tests
pub use Assign.*
unfoldable pub use Assign.{
  send, open_shards, assign_to, maybe_assign_work, nudge, nudge_all, mark_shard_assigned,
  mark_job_started, find_shard, reenqueue_shard, handle_disconnect, insert_shard, insert_shards,
  fail_job, read_file, validate_file, split_job, enqueue_job,
}
pub use Commit.*
unfoldable pub use Commit.{
  parse_literals, parse_assignment, store_sat_shard_result, cancel_targets, send_cancels,
  mark_job_completed, mark_job_completed_and_cancel_others, find_shard_of, commit_unsat, solve_cnf,
  verify_unsat_shard,
}
pub use Results.*
unfoldable pub use Results.{
  reject, open_file, accept_model, handle_sat, handle_unsat, handle_job_result,
}
