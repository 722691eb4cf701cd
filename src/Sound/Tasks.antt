-- ===== src/Sound/Tasks.antt =====
-- Connections and the calls that run behind a handler keep the invariant.
use satfarm.Prelude.{
  ℕ, refl, true, not, List, [], ◌∷◌, Result, ok, err, Option, none, some, any, inl, inr,
  Option-cases, Result-cases,
}
use satfarm.Prelude.Int.{pos, leb_ℤ}
use satfarm.Text.{Text, codes, has_prefix}
use satfarm.World.{find, FilePath, World, reward, Task, mark_assigned, pay_reward, enqueue}
use satfarm.World.Exec.{Error, no_rows, cannot_open}
use satfarm.World.Keeps.{
  Holds, Safe, Safe-bind, Safe-call, Safe-query, Ends-update_db, Ends-Holds, Ends-or_raise, Ends-if,
}
use satfarm.Ledger.{reward_worker_for_job, is_paid, reward_of}
use satfarm.Ledger.Header.{read_header}
use satfarm.Scheduler.{mark_shard_assigned, mark_job_started, handle_disconnect, DratTrim}
use satfarm.Registry.{new_id}
use satfarm.Service.{
  register, WorkerMessage, hello, unknown, job_result, connect, receive, disconnect, run_task,
}
use satfarm.Service.Auth.{
  bearer_prefix, trim_prefix, validate_token, checked, authenticate_ctx, open_stream,
}
use satfarm.Web.Bearer.{token_owner}
use satfarm.Sound.{IsSound}
use satfarm.Sound.Changes.{IsSound-jobs, IsSound-shards}
use satfarm.Sound.Assigning.{Safe-get_worker_user_id, Safe-maybe_assign_work}
use satfarm.Sound.Operations.{Safe-transfer, Safe-reenqueue_shard}
use satfarm.Sound.Submitted.{Safe-enqueue_job}
use satfarm.Sound.Proofs.{DratSound, Safe-handle_job_result}

module _ {promise : Type 0} (f : FilePath → Option Text) where
  Safe-reward_worker_for_job :
      (job shard worker : ℕ) (w : World)
      → Holds f (IsSound promise f) w
      → Safe f (IsSound promise f) (reward_worker_for_job job shard worker w)
  unfolding reward_worker_for_job
  Safe-reward_worker_for_job job shard worker w h =
      Safe-bind (Safe-get_worker_user_id worker w h) (λ user w1 h1.
        Safe-bind (Safe-query (λ db. any (is_paid job shard) db.transactions) w1 h1) (λ paid w2 h2.
          Ends-if paid _ _ w2 (λ _. record { at = (h2, tt) })
            (λ _. Safe-bind (Safe-query (λ db. find job db.jobs) w2 h2) (λ row w3 h3.
              Ends-or_raise row no_rows w3 _ h3 (λ j e. Safe-bind (Safe-call w3 h3) (λ _ w4 h4.
                Ends-or_raise (w4.files j.cnf_path) cannot_open w4 _ h4 (λ text e2.
                  elim (Result-cases (read_header text)) [
                    | inr (x, e3) ↦ rw e3 (record { at = h4 })
                    | inl (c, e3) ↦ rw e3 (
                        Ends-if (leb_ℤ (reward_of c.0 c.1) (pos 0)) _ _ w4
                          (λ _. record { at = (h4, tt) })
                          (λ _.
                            Safe-transfer f j.user_id user (reward_of c.0 c.1)
                              (codes "worker_reward") (reward job shard user j.user_id c.0 c.1) w4
                              h4))
                  ])))))))

  Safe-mark_job_started :
      (job : ℕ) (w : World)
      → Holds f (IsSound promise f) w
      → Safe f (IsSound promise f) (mark_job_started job w)
  unfolding mark_job_started
  Safe-mark_job_started job w h = record {
    at = (
      Ends-Holds (
          Ends-update_db {f = f} {I = IsSound promise f} {P = λ _. Unit {0}} _ w h
            (IsSound-jobs f w.db h.db_inv job (λ r. record r { started = true }) (λ r. refl)) tt),
      tt,
    );
  }

  Safe-mark_shard_assigned :
      (job shard : ℕ) (name : Text) (w : World)
      → Holds f (IsSound promise f) w
      → Safe f (IsSound promise f) (mark_shard_assigned job shard name w)
  unfolding mark_shard_assigned
  Safe-mark_shard_assigned job shard name w h = Safe-mark_job_started job _ (
      Ends-Holds (
        Ends-update_db {f = f} {I = IsSound promise f} {P = λ _. Unit {0}} _ w h
          (IsSound-shards f w.db h.db_inv shard _ (λ r. refl) (λ x wrong. absurd (cc))) tt))

  Safe-validate_token :
      (secret : Text) (w : World)
      → Holds f (IsSound promise f) w
      → Safe f (IsSound promise f) (validate_token secret w)
  unfolding validate_token
  Safe-validate_token secret w h = Safe-query (token_owner secret) w h

  pub Safe-run_task :
      (t : Task) (w : World)
      → Holds f (IsSound promise f) w
      → Safe f (IsSound promise f) (run_task t w)
  unfolding run_task
  Safe-run_task (mark_assigned job shard name) w h = Safe-mark_shard_assigned job shard name w h
  Safe-run_task (pay_reward job shard worker) w h = record {
    at = (Ends-Holds (Safe-reward_worker_for_job job shard worker w h), tt);
  }
  Safe-run_task (enqueue job path max_workers) w h = record {
    at = (Ends-Holds (Safe-enqueue_job f job path max_workers w h), tt);
  }

  Safe-checked :
      (r : Result Error (Option ℕ)) (w : World)
      → Holds f (IsSound promise f) w
      → Safe f (IsSound promise f) (checked r w)
  Safe-checked (err e) w h = record { at = h }
  Safe-checked (ok none) w h = record { at = h }
  Safe-checked (ok (some user)) w h = record { at = (h, tt) }

  Safe-authenticate_ctx :
      (metadata : Option (List Text)) (w : World)
      → Holds f (IsSound promise f) w
      → Safe f (IsSound promise f) (authenticate_ctx metadata w)
  unfolding authenticate_ctx
  Safe-authenticate_ctx none w h = record { at = h }
  Safe-authenticate_ctx (some []) w h = record { at = h }
  Safe-authenticate_ctx (some (raw ∷ more)) w h =
      Ends-if (not (has_prefix raw bearer_prefix)) _ _ w (λ _. record { at = h })
        (λ _.
          let q = Safe-validate_token (trim_prefix bearer_prefix raw) w h in
          Safe-checked (validate_token (trim_prefix bearer_prefix raw) w).0 _ (Ends-Holds q))

  Safe-connect :
      (user : ℕ) (w : World)
      → Holds f (IsSound promise f) w
      → Safe f (IsSound promise f) (connect user w)
  unfolding connect
  Safe-connect user w h = record {
    at = (
      Ends-Holds (
          Safe-maybe_assign_work {I = IsSound promise f} (new_id w.registry).0
            (register (new_id w.registry).0 user w)
            (record { files = h.files; db_inv = h.db_inv })),
      tt,
    );
  }

  pub Safe-open_stream :
      (metadata : Option (List Text)) (w : World)
      → Holds f (IsSound promise f) w
      → Safe f (IsSound promise f) (open_stream metadata w)
  unfolding open_stream
  Safe-open_stream metadata w h =
      Safe-bind (Safe-authenticate_ctx metadata w h) (λ user w1 h1. Safe-connect user w1 h1)

  pub Safe-disconnect :
      (worker : ℕ) (w : World)
      → Holds f (IsSound promise f) w
      → Safe f (IsSound promise f) (disconnect worker w)
  unfolding disconnect handle_disconnect
  Safe-disconnect worker w h = elim (Option-cases (w.worker_shard worker)) [
    | inl e ↦ rw e (record { at = ((record { files = h.files; db_inv = h.db_inv }), tt) })
    | inr (sh, e) ↦ rw e (record {
      at = (
        Ends-Holds
            (Safe-reenqueue_shard f sh.shard_id _ (record { files = h.files; db_inv = h.db_inv })),
        tt,
      );
    })
  ]

  pub Safe-receive :
      (drat_trim : DratTrim)
      → (promise → DratSound drat_trim)
      → (worker : ℕ) (msg : WorkerMessage) (w : World) → Holds f (IsSound promise f) w
      → Safe f (IsSound promise f) (receive drat_trim worker msg w)
  unfolding receive
  Safe-receive drat_trim ds worker hello w h = record {
    at = (Ends-Holds (Safe-maybe_assign_work {I = IsSound promise f} worker w h), tt);
  }
  Safe-receive drat_trim ds worker (job_result res) w h =
      let h1 = Ends-Holds (Safe-handle_job_result f drat_trim ds worker res w h) in
      record { at = (Ends-Holds (Safe-maybe_assign_work {I = IsSound promise f} worker _ h1), tt) }
  Safe-receive drat_trim ds worker unknown w h = record { at = (h, tt) }
