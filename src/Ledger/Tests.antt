-- ===== src/Ledger/Tests.antt =====
-- A server with a job, its client, and a connected worker.
use satfarm.Prelude.{ℕ, ◌≡◌, ◌+◌, ◌*◌, ◌≤◌, ◌<◌, arith, refl, true, false, [], ◌∷◌, none, some, ok}
use satfarm.Prelude.Int.{pos, ◌+ℤ◌, ◌-ℤ◌}
use satfarm.Text.{codes}
use satfarm.World.{UserRow, find, World, no_rows, pending, no_meta}
use satfarm.Ledger.Price.{upload_cost_satc-ceil}
use satfarm.Ledger.{upload_cost_satc, reward_worker_for_job, transfer_user_balance}
use satfarm.Ledger.Unpaid.{Unpaid, reward_worker_for_job-Unpaid}
use satfarm.Ledger.Transfer.{
  IsSolvent, IsAtomic, transfer_user_balance-IsAtomic, transfer_user_balance_succeeds,
}

abbrev one_job : World
one_job = record {
  db = record {
    users = record {
      rows = λ k. some (record {
        username = codes "ada";
        email = codes "ada@example.org";
        password_hash = [];
        balance_satc = pos 50000;
      });
      next = 3;
    };
    transactions = [];
    jobs = record {
      rows = λ k. some (record {
        user_id = 1;
        original_name = [];
        cnf_path = 5;
        max_workers = pos 2;
        status = pending;
        started = true;
      });
      next = 2;
    };
    shards = no_rows;
    shard_results = λ k. none;
    job_results = λ k. none;
    drat_files = no_rows;
    tokens = no_rows;
  };
  registry = record { conns = (1, record { user_id = 2 }) ∷ []; next_id = 1 };
  worker_shard = λ k. none;
  pending = [];
  completed_jobs = λ k. false;
  sessions = λ k. none;
  files = λ p. some (codes "p cnf 2 2\n1 -2 0\n2 0\n");
  sent = [];
  started = [];
  faults = [];
}

reward_worker_for_job-Unpaid_example : Unpaid 1 1 (reward_worker_for_job 1 1 1 one_job).1.db
reward_worker_for_job-Unpaid_example = reward_worker_for_job-Unpaid 1 1 1 1 1 one_job refl

one_job-IsSolvent : IsSolvent one_job
unfolding satfarm.World.find
one_job-IsSolvent user r e = ground arith

transfer_user_balance-IsAtomic_example :
    IsAtomic 2 1
      (pos 500)
      (codes "fee")
      no_meta
      one_job
      (transfer_user_balance 2 1 (pos 500) (codes "fee") no_meta one_job)
transfer_user_balance-IsAtomic_example =
    transfer_user_balance-IsAtomic 2 1 (pos 500) (codes "fee") no_meta one_job one_job-IsSolvent

abbrev rich_row : UserRow
rich_row = record {
  username = codes "ada";
  email = codes "ada@example.org";
  password_hash = [];
  balance_satc = pos 50000;
}

both_there : (find 2 one_job.db.users ≡ some rich_row) × (find 1 one_job.db.users ≡ some rich_row)
unfolding satfarm.World.find
both_there = (refl, refl)

transfer_user_balance_succeeds_example :
    (transfer_user_balance 2 1 (pos 500) (codes "fee") no_meta (record one_job { faults = [] })).0
    ≡ ok tt
transfer_user_balance_succeeds_example =
    transfer_user_balance_succeeds 2 1 (pos 500) (codes "fee") no_meta one_job rich_row rich_row
      both_there.0 both_there.1 refl refl refl (unfold ◌+ℤ◌ ◌-ℤ◌ in refl)
      (refl, unfold ◌+ℤ◌ in refl)

upload_cost_satc-ceil_example :
    (cost : ℕ) × (upload_cost_satc (pos 2000) ≡ pos cost)
    × (2000 * 1000 ≤ cost * 1024)
    × (cost * 1024 < 2000 * 1000 + 1024)
upload_cost_satc-ceil_example = upload_cost_satc-ceil 2000 (omega arith)
