-- ===== src/Web/Worker.antt =====
-- internal/web/handlers_worker.go: what workers upload and download.
use satfarm.Prelude.{ℕ, not, none, some, is_empty, if◌then◌else◌}
use satfarm.Text.{Text, codes, parse_int}
use satfarm.World.{find, find_id, insert, FilePath}
use satfarm.World.Exec.{
  constraint, cannot_open, Exec, pure, gets, or_raise, put_world, ◌>>=◌, ◌>>◌, call, query,
}
use satfarm.Web.{Request, is_post, is_get, Reply, refuse, answer, or_reply}
use satfarm.Web.Uploads.{write_file, remove_file}
use satfarm.Web.Bearer.{authenticate_worker_from_bearer}

-- `INSERT INTO drat_files … RETURNING id`
unfoldable pub insert_drat_file : ℕ → Text → FilePath → Exec ℕ
insert_drat_file user name path = do
  call
  owner ← gets (λ w. find user w.db.users)
  or_raise owner constraint
  id ← gets (λ w. w.db.drat_files.next)
  put_world (λ w. record w {
    db = record (w.db) {
      drat_files =
          insert (record { user_id = user; original_name = name; storage_path = path })
            w.db.drat_files;
    };
  })
  pure id

abbrev pub name_or : Text → Text → Text
name_or default name = if is_empty name then default else name

abbrev failed_upload : Exec (Reply ℕ)
failed_upload = refuse 500 (codes "internal error")

-- Behind the checks: `MkdirAll`, `Create`, `Copy`, and the row.
unfoldable pub store_drat : ℕ → Text → Text → FilePath → Exec (Reply ℕ)
unfolding insert_drat_file
store_drat user name content path =
    or_reply call (λ e. failed_upload)
      (λ _.
        or_reply (write_file path (some (codes ""))) (λ e. failed_upload)
          (λ _.
            or_reply (write_file path (some content)) (λ e. failed_upload)
              (λ _.
                or_reply (insert_drat_file user name path) (λ e. remove_file path >> failed_upload)
                  answer)))

-- `HandleWorkerDratUpload`, with the path that it makes; the answer is `drat_file_id`.
unfoldable pub handle_worker_drat_upload : FilePath → Request → Exec (Reply ℕ)
unfolding store_drat
handle_worker_drat_upload path r =
    if not (is_post r.method) then refuse 405 (codes "method not allowed") else (do
      who ← authenticate_worker_from_bearer r.authorization
      elim who [
        | none ↦ refuse 401 (codes "unauthorized")
        | some user ↦
            if not r.is_form
            then refuse 400 (codes "invalid multipart form")
            else elim (r.file (codes "proof")) [
              | none ↦ refuse 400 (codes "missing proof file")
              | some u ↦ store_drat user (name_or (codes "proof.drat") u.filename) u.content path
            ]
      ])

-- `os.Open` and `io.Copy` to the response.
unfoldable pub read_upload : FilePath → Exec Text
read_upload path = do call; file ← gets (λ w. w.files path); or_raise file cannot_open

-- `HandleWorkerCnfDownload`; the answer is the body.
unfoldable pub handle_worker_cnf_download : Request → Exec (Reply Text)
unfolding read_upload
handle_worker_cnf_download r =
    let id = r.url_param (codes "jobID") in
    if not (is_get r.method) then refuse 405 (codes "method not allowed") else (do
      who ← authenticate_worker_from_bearer r.authorization
      elim who [
        | none ↦ refuse 401 (codes "unauthorized")
        | some user ↦
            if is_empty id then refuse 400 (codes "missing jobID") else elim (parse_int id) [
              | none ↦ refuse 400 (codes "invalid jobID")
              | some n ↦
                  or_reply (query (λ db. find_id n db.jobs))
                    (λ e. refuse 500 (codes "internal error"))
                    (λ row. elim row [
                      | none ↦ refuse 404 (codes "job or cnf not found")
                      | some j ↦
                          or_reply (read_upload j.cnf_path)
                            (λ e. refuse 500 (codes "internal error")) answer
                    ])
            ]
      ])
