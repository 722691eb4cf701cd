-- ===== src/Web/Jobs.antt =====
-- `HandleCreateJob` of internal/web/handlers_jobs.go: an uploaded formula is stored, prepared,
-- charged for, and recorded as a job, which a call behind the handler splits.
use satfarm.Prelude.{
  ℕ, ◌^◌, Bool, false, not, ◌&&◌, [], ◌∷◌, ◌++◌, none, some, is_empty, if◌then◌else◌,
}
use satfarm.Prelude.Int.{ℤ, pos, ltb_ℤ, neg64}
use satfarm.Text.{Text, codes, parse_int, byte_len}
use satfarm.Sat.Dimacs.{prepare_cnf}
use satfarm.World.{find, insert, pending, upload, FilePath, enqueue, World}
use satfarm.World.Exec.{
  Error, insufficient_balance, constraint, bad_file, Exec, pure, gets, or_raise, raise_if,
  put_world, ◌>>=◌, ◌>>◌, call, transaction,
}
use satfarm.Ledger.{change_user_balance, upload_cost_satc}
use satfarm.Web.{Request, is_post, Reply, refused_with, refuse, answer, or_reply}
use satfarm.Web.Session.{signed_in_user}
use satfarm.Web.Uploads.{write_file, remove_file}
use satfarm.Web.Worker.{name_or, read_upload}

-- `PrepareCNFForSolving` on the stored file.
unfoldable pub prepare_upload : FilePath → Exec Text
unfolding read_upload
prepare_upload path = do text ← read_upload path; call; or_raise (prepare_cnf text) bad_file

-- The columns `max_workers INTEGER NOT NULL CHECK (max_workers > 0)`.
abbrev pub is_worker_count : ℤ → Bool
is_worker_count n = ltb_ℤ (pos 0) n && ltb_ℤ n (pos (2 ^ 31))

-- `INSERT INTO cnf_files` and `INSERT INTO jobs … RETURNING id`.
unfoldable pub insert_job : ℕ → Text → FilePath → ℤ → Exec ℕ
insert_job user name path max_workers = do
  call
  owner ← gets (λ w. find user w.db.users)
  or_raise owner constraint
  call
  raise_if (not (is_worker_count max_workers)) constraint
  id ← gets (λ w. w.db.jobs.next)
  put_world (λ w. record w {
    db = record (w.db) {
      jobs =
          insert
            (record {
              user_id = user;
              original_name = name;
              cnf_path = path;
              max_workers = max_workers;
              status = pending;
              started = false;
            })
            w.db.jobs;
    };
  })
  pure id

pub record NewJob : Type 0 where
  pub id : ℕ
  pub file_name : Text
  pub max_workers : ℤ
  pub cost_satc : ℤ

-- A refusal of this handler is sent with the status 200.
abbrev fail : Text → Exec (Reply NewJob)
fail why = refuse 200 why

-- `go s.Scheduler.EnqueueJob(…)`
abbrev pub start_enqueue : ℕ → FilePath → ℤ → World → World
start_enqueue id path max_workers w = record w {
  started = w.started ++ enqueue id path max_workers ∷ [];
}

abbrev pub charge_error : Error → Text
charge_error insufficient_balance = codes "insufficient balance"
charge_error _ = codes "server error (billing)"

-- Behind the charge: the rows, and the call that splits the job. The text of a refusal names the
-- statement that failed.
unfoldable pub record_job : ℕ → Text → FilePath → ℤ → ℤ → Exec (Reply NewJob)
unfolding insert_job
record_job user name path max_workers cost =
    or_reply (transaction (insert_job user name path max_workers)) (λ e. pure (refused_with 200 e))
      (λ id.
        put_world (start_enqueue id path max_workers)
        >> answer
            (record { id = id; file_name = name; max_workers = max_workers; cost_satc = cost }))

-- Behind the prepared file: the charge.
unfoldable pub charge_job : ℕ → Text → Text → FilePath → ℤ → Exec (Reply NewJob)
unfolding record_job
charge_job user name content path max_workers =
    let size = byte_len content in
    let cost = upload_cost_satc (pos size) in
    or_reply (change_user_balance user (neg64 cost) (codes "upload_cnf") (upload name size))
      (λ e. remove_file path >> fail (charge_error e))
      (λ _. record_job user name path max_workers cost)

-- Behind the checks of the form: the file, as it came and then prepared.
unfoldable pub store_job : ℕ → Text → Text → FilePath → ℤ → Exec (Reply NewJob)
unfolding prepare_upload charge_job
store_job user name content path max_workers =
    or_reply call (λ e. fail (codes "server error (mkdir)"))
      (λ _.
        or_reply (write_file path (some [])) (λ e. fail (codes "server error (create file)"))
          (λ _.
            or_reply (write_file path (some content))
              (λ e. fail (codes "server error (write file)"))
              (λ _.
                or_reply (prepare_upload path)
                  (λ e. remove_file path >> fail (codes "invalid CNF (preprocessing failed)"))
                  (λ cleaned.
                    or_reply (write_file path (some cleaned))
                      (λ e. remove_file path >> fail (codes "server error (cnf normalize)"))
                      (λ _. charge_job user name content path max_workers)))))

-- `HandleCreateJob`, with the path that it makes.
unfoldable pub handle_create_job : FilePath → Request → Exec (Reply NewJob)
unfolding store_job
handle_create_job path r =
    if not (is_post r.method) then refuse 405 (codes "method not allowed") else (do
      who ← gets (λ w. signed_in_user r.cookie w.sessions)
      elim who [
        | none ↦ fail (codes "unauthorized")
        | some user ↦
            if not r.is_form then fail (codes "invalid upload") else elim (r.file (codes "cnf")) [
              | none ↦ fail (codes "missing cnf file")
              | some u ↦
                  let count = r.form (codes "max_workers") in
                  if is_empty count
                  then fail (codes "missing max_workers")
                  else elim (parse_int count) [
                    | none ↦ fail (codes "invalid max_workers")
                    | some n ↦
                        if ltb_ℤ n (pos 1)
                        then fail (codes "invalid max_workers")
                        else store_job user (name_or (codes "job.cnf") u.filename) u.content path n
                  ]
            ]
      ])
