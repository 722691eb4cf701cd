-- ===== src/Scheduler/Assign.antt =====
-- Handing shards out: `EnqueueJob`, `MaybeAssignWork`, `ReenqueueShard`, `HandleDisconnect`.
use satfarm.Prelude.{
  ℕ, ◌+◌, Bool, true, not, List, [], ◌∷◌, ◌++◌, Option, none, some, Result, ok, err, ◌==◌,
  if◌then◌else◌,
}
use satfarm.Prelude.Int.{ℤ, pos, leb_ℤ}
use satfarm.Text.{Text, codes, itoa}
use satfarm.Sat.Dimacs.{validate_dimacs}
use satfarm.Sat.Cube.{generate_cubes}
use satfarm.World.{
  find, insert, modify, Status, pending, running, failed, ShardRow, Db, FilePath, Shard,
  ServerMessage, assign_job, mark_assigned, World,
}
use satfarm.World.Exec.{
  no_rows, constraint, cannot_open, bad_file, Exec, pure, raise, gets, or_raise, put_world, ◌>>=◌,
  ◌>>◌, call, query, update_db, attempt, transaction,
}
use satfarm.Ledger.{worker_has_min_balance}
use satfarm.Registry.{get_conn, ids}

-- `conn.Stream.Send`
unfoldable pub send : ℕ → ServerMessage → Exec (Unit {0})
send worker msg = do call; put_world (λ w. record w { sent = w.sent ++ (worker, msg) ∷ [] })

-- The shards up to the first whose job is not completed are dropped; it comes first in what is left.
unfoldable pub open_shards : (ℕ → Bool) → List Shard → List Shard
open_shards completed_jobs [] = []
open_shards completed_jobs (sh ∷ shs) =
    let rest = open_shards completed_jobs shs in if completed_jobs sh.job_id then rest else sh ∷ shs

-- `fmt.Sprintf("user_%d_conn_%d", …)`
abbrev pub worker_label : ℕ → ℕ → Text
worker_label user worker =
    codes "user_" ++ (itoa (pos user) ++ (codes "_conn_" ++ itoa (pos worker)))

-- `s.pending = s.pending[1:]`, and putting the shard back at the front.
abbrev set_pending : List Shard → Exec (Unit {0})
set_pending shs = put_world (λ w. record w { pending = shs })

-- Behind the message: the shard is the worker's, and its start is recorded.
abbrev pub give_shard : ℕ → ℕ → Shard → World → World
give_shard worker user sh w = record w {
  worker_shard = λ k.
      if k == worker
      then some (record sh { assigned_worker_id = worker; assigned_user_id = user })
      else w.worker_shard k;
  started = w.started ++ mark_assigned sh.job_id sh.shard_id (worker_label user worker) ∷ [];
}

-- With `sh` popped and `rest` left in the queue. Where the shard is put back, the call returns nil,
-- but for an error of the stream.
unfoldable pub assign_to : ℕ → Shard → List Shard → Exec (Unit {0})
unfolding send
assign_to worker sh rest = do
  balance ← attempt (worker_has_min_balance worker)
  elim balance [
    | err e ↦ set_pending (sh ∷ rest)
    | ok rich ↦ if not rich then set_pending (sh ∷ rest) else (do
      conn ← gets (λ w. get_conn worker w.registry)
      elim conn [
        | none ↦ set_pending (sh ∷ rest)
        | some c ↦ do
          r ← attempt (send worker (assign_job sh.job_id sh.shard_id sh.cube_lits))
          elim r [
            | err e ↦ set_pending (sh ∷ rest) >> raise e
            | ok _ ↦ put_world (give_shard worker c.user_id sh)
          ]
      ])
  ]

-- `MaybeAssignWork`
unfoldable pub maybe_assign_work : ℕ → Exec (Unit {0})
unfolding open_shards assign_to
maybe_assign_work worker = do
  current ← gets (λ w. w.worker_shard worker)
  elim current [
    | some sh ↦ pure tt
    | none ↦ do
      queue ← gets (λ w. open_shards w.completed_jobs w.pending)
      elim queue [ [] ↦ set_pending [] | sh ∷ rest ↦ set_pending rest >> assign_to worker sh rest ]
  ]

-- `for _, wid := range workerIDs { _ = s.MaybeAssignWork(wid) }`
unfoldable pub nudge : List ℕ → Exec (Unit {0})
unfolding maybe_assign_work
nudge [] = pure tt
nudge (k ∷ ks) = do attempt (maybe_assign_work k); nudge ks

unfoldable pub nudge_all : Exec (Unit {0})
unfolding nudge
nudge_all = do workers ← gets (λ w. ids w.registry); nudge workers

-- `markShardStatus`
unfoldable pub mark_shard_status : ℕ → Status → Exec (Unit {0})
mark_shard_status shard status = do
  attempt (
      update_db
        (λ db. record db { shards = modify shard (λ r. record r { status = status }) db.shards }))
  pure tt

-- `markJobStarted`; the time itself is left out.
unfoldable pub mark_job_started : ℕ → Exec (Unit {0})
mark_job_started job = do
  attempt
      (update_db (λ db. record db { jobs = modify job (λ r. record r { started = true }) db.jobs }))
  pure tt

-- `markShardAssigned`
unfoldable pub mark_shard_assigned : ℕ → ℕ → Text → Exec (Unit {0})
unfolding mark_job_started
mark_shard_assigned job shard name = do
  attempt (
      update_db (λ db. record db {
        shards =
            modify shard
              (λ r. record r {
                status = running;
                worker_name = name;
                attempt_count = r.attempt_count + 1;
              })
              db.shards;
      }))
  mark_job_started job

-- A shard that no worker has been given.
abbrev pub new_shard : ℕ → ℕ → List ℤ → Shard
new_shard job shard cube = record {
  job_id = job;
  shard_id = shard;
  cube_lits = cube;
  assigned_worker_id = 0;
  assigned_user_id = 0;
}

-- The shard's row, where its job exists.
unfoldable pub find_shard : ℕ → Db → Option ShardRow
find_shard shard db = elim (find shard db.shards) [
  | none ↦ none
  | some r ↦ elim (find r.job_id db.jobs) [ none ↦ none | some j ↦ some r ]
]

-- `ReenqueueShard`
unfoldable pub reenqueue_shard : ℕ → Exec (Unit {0})
unfolding find_shard nudge_all
reenqueue_shard shard = do
  found ← query (find_shard shard)
  row ← or_raise found no_rows
  update_db
      (λ db. record db { shards = modify shard (λ r. record r { status = pending }) db.shards })
  put_world
      (λ w. record w { pending = w.pending ++ new_shard row.job_id shard row.cube_literals ∷ [] })
  nudge_all

-- `HandleDisconnect`
unfoldable pub handle_disconnect : ℕ → Exec (Unit {0})
unfolding reenqueue_shard
handle_disconnect worker = do
  current ← gets (λ w. w.worker_shard worker)
  put_world (λ w. record w { worker_shard = λ k. if k == worker then none else w.worker_shard k })
  elim current [ none ↦ pure tt | some sh ↦ attempt (reenqueue_shard sh.shard_id) >> pure tt ]

-- `INSERT INTO job_shards … RETURNING id`; the job must exist.
abbrev pub new_row : ℕ → List ℤ → ShardRow
new_row job cube = record {
  job_id = job;
  cube_literals = cube;
  status = pending;
  worker_name = [];
  attempt_count = 0;
}

unfoldable pub insert_shard : ℕ → List ℤ → Exec ℕ
insert_shard job cube = do
  call
  row ← gets (λ w. find job w.db.jobs)
  or_raise row constraint
  id ← gets (λ w. w.db.shards.next)
  put_world
      (λ w. record w { db = record (w.db) { shards = insert (new_row job cube) w.db.shards } })
  pure id

-- The loop over the cubes; the result is `newShards`.
unfoldable pub insert_shards : ℕ → List (List ℤ) → Exec (List Shard)
unfolding insert_shard
insert_shards job [] = pure []
insert_shards job (cube ∷ cubes) = do
  id ← insert_shard job cube
  rest ← insert_shards job cubes
  pure (new_shard job id cube ∷ rest)

-- An invalid CNF: the job has failed.
unfoldable pub fail_job : ℕ → Exec (Unit {0})
fail_job job = do
  attempt (
      update_db (λ db. record db { jobs = modify job (λ r. record r { status = failed }) db.jobs }))
  put_world (λ w. record w { completed_jobs = λ k. if k == job then true else w.completed_jobs k })

-- A call of the file system, and what the file holds.
unfoldable pub read_file : FilePath → Exec Text
read_file path = do call; text ← gets (λ w. w.files path); or_raise text cannot_open

abbrev pub or_bad_file {ℓ κ} : {E : Type ℓ} {A : Type κ} → Result E A → Exec A
or_bad_file (ok a) = pure a
or_bad_file (err e) = raise bad_file

unfoldable pub validate_file : FilePath → Exec (Unit {0})
unfolding read_file
validate_file path = do text ← read_file path; or_bad_file (validate_dimacs text)

-- Behind the validation.
unfoldable pub split_job : ℕ → FilePath → ℤ → Exec (Unit {0})
unfolding read_file insert_shards nudge_all
split_job job path max_workers = do
  text ← read_file path
  cubes ← or_bad_file (generate_cubes text max_workers)
  new_shards ← transaction (insert_shards job cubes)
  put_world (λ w. record w { pending = w.pending ++ new_shards })
  nudge_all

-- `EnqueueJob`. The generator never returns an empty list, so its test for one is left out.
unfoldable pub enqueue_job : ℕ → FilePath → ℤ → Exec (Unit {0})
unfolding fail_job validate_file split_job
enqueue_job job path max_workers = do
  valid ← attempt (validate_file path)
  elim valid [
    | err e ↦ fail_job job
    | ok _ ↦
        attempt (split_job job path (if leb_ℤ max_workers (pos 0) then pos 1 else max_workers))
        >> pure tt
  ]
