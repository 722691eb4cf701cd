-- ===== src/Ledger.antt =====
-- internal/grpc/balance.go: balances, penalties and rewards; and the same mutator and the upload
-- price of internal/web/handlers_wallet.go and internal/web/handlers_jobs.go.
pub mod Header
pub mod Unpaid
pub mod Atomic
pub mod Price
pub mod Books
pub mod Posting
pub mod Effect
pub mod Transfer
mod Tests
use satfarm.Prelude.{
  ℕ, ◌+◌, ◌*◌, ◌-◌, ◌/◌, ◌%◌, ◌^◌, Bool, false, not, ◌&&◌, List, [], ◌∷◌, ◌++◌, Option, none, some,
  ok, err, ◌==◌, if◌then◌else◌, any,
}
use satfarm.Prelude.Int.{
  ℤ, pos, negsuc, ◌+ℤ◌, ◌-ℤ◌, ltb_ℤ, leb_ℤ, neg64, signed, pos_part, neg_part,
}
use satfarm.Text.{Text, codes, text_eq}
use satfarm.World.{
  find, modify, UserRow, Meta, no_meta, penalty, reward, upload, Transaction, WorkerConn,
}
use satfarm.World.Exec.{
  no_rows, constraint, insufficient_balance, non_positive_amount, unknown_worker, bad_header,
  cannot_open, Exec, pure, raise, gets, or_raise, raise_if, ◌>>=◌, ◌>>◌, call, query, attempt,
  transaction,
}
use satfarm.Ledger.Header.{read_header}

abbrev pub worker_penalty_satc : ℕ
worker_penalty_satc = 10000

abbrev pub reward_per_var_satc : ℕ
reward_per_var_satc = 10

abbrev pub reward_per_clause_satc : ℕ
reward_per_clause_satc = 1

abbrev pub min_worker_balance_satc : ℕ
min_worker_balance_satc = worker_penalty_satc

-- A balance is a BIGINT that the table's CHECK keeps from falling below zero.
abbrev pub is_balance : ℤ → Bool
is_balance b = leb_ℤ (pos 0) b && ltb_ℤ b (pos (2 ^ 63))

abbrev pub credit_row : ℤ → UserRow → UserRow
credit_row delta r = record r { balance_satc = r.balance_satc +ℤ delta }

-- `UPDATE users SET balance_satc = balance_satc + delta WHERE id = user AND balance_satc >= least`,
-- and the number of rows that it changes.
unfoldable pub add_balance : ℕ → ℤ → ℤ → Exec ℕ
add_balance user delta least = do
  call
  row ← gets (λ w. find user w.db.users)
  elim row [
    | none ↦ pure 0
    | some r ↦
        if leb_ℤ least r.balance_satc
        then (do
          raise_if (not (is_balance (r.balance_satc +ℤ delta))) constraint
          λ w. (
            ok 1,
            record w { db = record (w.db) { users = modify user (credit_row delta) w.db.users } },
          ))
        else pure 0
  ]

-- The least `int64`: a condition that every balance meets.
abbrev pub any_balance : ℤ
any_balance = negsuc (2 ^ 63 - 1)

-- `INSERT INTO transactions`; the user must exist.
unfoldable pub insert_transaction : ℕ → ℤ → Text → Meta → Exec (Unit {0})
insert_transaction user amount reason details = do
  call
  row ← gets (λ w. find user w.db.users)
  or_raise row constraint
  λ w. (
    ok tt,
    record w {
      db = record (w.db) {
        transactions =
            w.db.transactions
            ++ record { user_id = user; amount_satc = amount; reason = reason; details = details }
              ∷ [];
      };
    },
  )

-- `changeUserBalance`, of the scheduler and of the web server alike.
unfoldable pub change_user_balance : ℕ → ℤ → Text → Meta → Exec (Unit {0})
unfolding add_balance insert_transaction
change_user_balance user delta reason details = transaction (do
  if ltb_ℤ delta (pos 0)
      then (do n ← add_balance user delta (neg64 delta); raise_if (n == 0) insufficient_balance)
      else (do add_balance user delta any_balance; pure tt)
  insert_transaction user delta reason details)

-- `transferUserBalance`
unfoldable pub transfer_user_balance : ℕ → ℕ → ℤ → Text → Meta → Exec (Unit {0})
unfolding add_balance insert_transaction
transfer_user_balance from to amount reason details =
    raise_if (leb_ℤ amount (pos 0)) non_positive_amount
    >> transaction (do
      n ← add_balance from (pos 0 -ℤ amount) amount
      raise_if (n == 0) insufficient_balance
      add_balance to amount any_balance
      insert_transaction from (pos 0 -ℤ amount) (reason ++ codes "_debit") details
      insert_transaction to amount (reason ++ codes "_credit") details)

-- `penalizeWorker`: an error is logged, whatever it is.
unfoldable pub penalize_worker : ℕ → ℕ → ℕ → Text → Exec (Unit {0})
unfolding change_user_balance
penalize_worker user job shard why = if user == 0 then pure tt else (do
  attempt (
      change_user_balance user (pos 0 -ℤ pos worker_penalty_satc) (codes "worker_penalty")
        (penalty job shard why))
  pure tt)

abbrev pub conn_of : ℕ → List (ℕ × WorkerConn) → Option WorkerConn
conn_of k [] = none
conn_of k ((j, c) ∷ cs) = if j == k then some c else conn_of k cs

-- `getWorkerUserID`
unfoldable pub get_worker_user_id : ℕ → Exec ℕ
get_worker_user_id worker = do
  conn ← gets (λ w. conn_of worker w.registry.conns)
  elim conn [ none ↦ raise unknown_worker | some c ↦ pure c.user_id ]

-- `workerHasMinBalance`; the least balance is a positive constant.
unfoldable pub worker_has_min_balance : ℕ → Exec Bool
unfolding get_worker_user_id
worker_has_min_balance worker = do
  user ← get_worker_user_id worker
  row ← query (λ db. find user db.users)
  r ← or_raise row no_rows
  pure (leb_ℤ (pos min_worker_balance_satc) r.balance_satc)

-- The rows that the test for an earlier payment counts: `reason = 'worker_reward'`, and the job and
-- the shard in `meta`.
abbrev pub is_of_shard : ℕ → ℕ → Meta → Bool
is_of_shard job shard no_meta = false
is_of_shard job shard (penalty j s why) = j == job && s == shard
is_of_shard job shard (reward j s worker client vars clauses) = j == job && s == shard
is_of_shard job shard (upload name size) = false

abbrev pub is_paid : ℕ → ℕ → Transaction → Bool
is_paid job shard t = text_eq t.reason (codes "worker_reward") && is_of_shard job shard t.details

-- `int64(numVars)*rewardPerVarSatc + int64(numClauses)*rewardPerClauseSatc`
abbrev pub reward_of : ℕ → ℕ → ℤ
reward_of vars clauses =
    signed 64 ((vars * reward_per_var_satc + clauses * reward_per_clause_satc) % 2 ^ 64)

-- `rewardWorkerForJob`. Its errors are logged, so a caller sees none of them.
unfoldable pub reward_worker_for_job : ℕ → ℕ → ℕ → Exec (Unit {0})
unfolding get_worker_user_id transfer_user_balance
reward_worker_for_job job shard worker = do
  worker_user ← get_worker_user_id worker
  paid ← query (λ db. any (is_paid job shard) db.transactions)
  if paid then pure tt else (do
    row ← query (λ db. find job db.jobs)
    j ← or_raise row no_rows
    call
    file ← gets (λ w. w.files j.cnf_path)
    text ← or_raise file cannot_open
    elim (read_header text) [
      | err e ↦ raise bad_header
      | ok (vars, clauses) ↦
          let amount = reward_of vars clauses in
          if leb_ℤ amount (pos 0)
          then pure tt
          else transfer_user_balance j.user_id worker_user amount (codes "worker_reward")
              (reward job shard worker_user j.user_id vars clauses)
    ])

-- `uploadCostSatc` of internal/web/handlers_jobs.go, in 64 bits; Go's division rounds towards zero.
unfoldable pub upload_cost_satc : ℤ → ℤ
upload_cost_satc size =
    if leb_ℤ size (pos 0)
    then pos 0
    else let sum = signed 64 ((pos_part size * 1000 + 1023) % 2 ^ 64) in
      if ltb_ℤ sum (pos 0) then pos 0 -ℤ pos (neg_part sum / 1024) else pos (pos_part sum / 1024)
