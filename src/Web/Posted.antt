-- ===== src/Web/Posted.antt =====
-- What the upload of a job does.
use satfarm.Prelude.{
  ℕ, ◌≡◌, refl, ◌∙◌, true, false, not, ==_refl, [], ◌∷◌, ◌++◌, some, ok, is_empty, inl, inr,
  Option-cases,
}
use satfarm.Prelude.Int.{ℤ, pos, ◌+ℤ◌, ltb_ℤ, neg64}
use satfarm.Text.{Text, codes, byte_len, parse_int}
use satfarm.Sat.Dimacs.{prepare_cnf}
use satfarm.World.{find, insert, pending, upload, JobRow, UserRow, FilePath, enqueue, Db, World}
use satfarm.World.Exec.{◌>>◌, constraint, transaction}
use satfarm.World.Gives.{
  Gives, Gives-bind, Gives-or_raise, Gives-raise_if, Gives-call, Gives-transaction, Gives-Gives,
  Same, Same-trans,
}
use satfarm.Ledger.{upload_cost_satc, is_balance}
use satfarm.Ledger.Books.{HasBooks}
use satfarm.Ledger.Effect.{booked, entry_of, Gives-change_user_balance}
use satfarm.Web.{Request, Upload, is_post, answered, refuse}
use satfarm.Web.Session.{signed_in_user}
use satfarm.Web.Uploads.{set_file, write_file, remove_file}
use satfarm.Web.Worker.{name_or, read_upload}
use satfarm.Web.Jobs.{
  prepare_upload, is_worker_count, insert_job, NewJob, record_job, charge_job, store_job,
  handle_create_job, charge_error,
}
use satfarm.Web.Answers.{
  Answers, Answers-if, Answers-elim, Answers-Answers, Answers-Gives, of_answer,
}

-- The file is written, and the tables and the waiting calls are as before.
abbrev pub HasFile : FilePath → Text → World → World → Type 0
HasFile path t w w' = (w'.files path ≡ some t) × (w'.db ≡ w.db) × (w'.started ≡ w.started)

Gives-write_file :
    (path : FilePath) (t : Text) (w : World)
    → Gives (λ _ w'. HasFile path t w w') (write_file path (some t) w)
unfolding write_file set_file
Gives-write_file path t w =
    Gives-bind (Gives-call w)
      (λ _ w1 s1. record { at = (rw (==_refl path) refl, s1.db, s1.started) })

Gives-read_upload :
    (path : FilePath) (w : World)
    → Gives (λ t w'. (w.files path ≡ some t) × Same w w') (read_upload path w)
unfolding read_upload
Gives-read_upload path w = Gives-bind (Gives-call w) (λ _ w1 s1.
    elim (Option-cases (w1.files path)) [
      | inl e ↦ rw e (record { at = tt })
      | inr (t, e) ↦ rw e (record { at = (rw (← s1.files) e, s1) })
    ])

Gives-prepare_upload :
    (path : FilePath) (w : World)
    → Gives
        (λ cleaned w'.
          (t : Text) × (w.files path ≡ some t) × (prepare_cnf t ≡ some cleaned) × Same w w')
        (prepare_upload path w)
unfolding prepare_upload
Gives-prepare_upload path w = Gives-bind (Gives-read_upload path w) (λ text w1 p1.
    Gives-bind (Gives-call w1) (λ _ w2 s2. elim (Option-cases (prepare_cnf text)) [
      | inl e ↦ rw e (record { at = tt })
      | inr (t, e) ↦ rw e (record { at = (text, p1.0, e, Same-trans w w1 w2 p1.1 s2) })
    ]))

abbrev pub job_row : ℕ → Text → FilePath → ℤ → JobRow
job_row user name path max_workers = record {
  user_id = user;
  original_name = name;
  cnf_path = path;
  max_workers = max_workers;
  status = pending;
  started = false;
}

abbrev IsInserted : ℕ → Text → FilePath → ℤ → World → ℕ → World → Type 0
IsInserted user name path n w id w' =
    (id ≡ w.db.jobs.next)
    × (w'.db ≡ record (w.db) { jobs = insert (job_row user name path n) w.db.jobs })
    × (w'.files ≡ w.files)
    × (w'.started ≡ w.started)

Gives-insert_job :
    (user : ℕ) (name : Text) (path : FilePath) (n : ℤ) (w : World)
    → Gives (IsInserted user name path n w) (insert_job user name path n w)
unfolding insert_job
Gives-insert_job user name path n w = Gives-bind (Gives-call w) (λ _ w1 s1.
    Gives-or_raise (find user w1.db.users) constraint w1 _ (λ owner e.
      Gives-bind (Gives-call w1) (λ _ w2 s2.
        Gives-raise_if (not (is_worker_count n)) constraint w2 _ (λ good. record {
          at = (
            rw (s2.db, s1.db) refl,
            rw (s2.db, s1.db) refl,
            s2.files ∙ s1.files,
            s2.started ∙ s1.started,
          );
        }))))

Gives-insert_job_tx :
    (user : ℕ) (name : Text) (path : FilePath) (n : ℤ) (w : World)
    → Gives (IsInserted user name path n w) (transaction (insert_job user name path n) w)
Gives-insert_job_tx user name path n w =
    Gives-transaction {P = λ id w2. IsInserted user name path n w id w2} _ w
      (λ w1 s1.
        Gives-Gives (Gives-insert_job user name path n w1)
          (λ id w2 p. (rw (← s1.db) (p.0), rw (← s1.db) (p.1), p.2 ∙ s1.files, p.3 ∙ s1.started)))
      (λ id w1 w2 p s. (p.0, s.db ∙ p.1, s.files ∙ p.2, s.started ∙ p.3))

-- Behind the charge: the tables with the charge and the job, and the call that waits.
abbrev pub posted : ℕ → ℤ → Text → ℕ → FilePath → ℤ → Db → Db
posted user cost name size path n db =
    let paid =
      booked user (neg64 cost) (entry_of user (neg64 cost) (codes "upload_cnf") (upload name size))
        db in
    record paid { jobs = insert (job_row user name path n) db.jobs }

-- The job `j` of the user, for the file `u`, with the charge for it.
abbrev pub IsPosted : ℕ → Text → Text → FilePath → ℤ → World → NewJob → World → Type 0
IsPosted user name content path n w j w' =
    (cleaned : Text) × (row : UserRow) × (prepare_cnf content ≡ some cleaned)
    × (w'.files path ≡ some cleaned)
    × (find user w.db.users ≡ some row)
    × (j.cost_satc ≡ upload_cost_satc (pos (byte_len content)))
    × (is_balance (row.balance_satc +ℤ neg64 j.cost_satc) ≡ true)
    × (j.id ≡ w.db.jobs.next)
    × (w'.db ≡ posted user j.cost_satc name (byte_len content) path n w.db)
    × (w'.started ≡ w.started ++ enqueue j.id path n ∷ [])

removed :
    {Q : NewJob → World → Type 0} (path : FilePath) (why : Text) (w : World)
    → Answers Q ((remove_file path >> refuse 200 why) w)
unfolding remove_file
removed path why w = record { at = tt }

Answers-charge_job :
    (user : ℕ) (name content cleaned : Text) (path : FilePath) (n : ℤ) (v w : World)
    → HasBooks v.db.users v.db.transactions
    → prepare_cnf content ≡ some cleaned
    → HasFile path cleaned v w
    → Answers (IsPosted user name content path n v) (charge_job user name content path n w)
unfolding charge_job record_job
Answers-charge_job user name content cleaned path n v w b made (file, tables, calls) =
    let size = byte_len content in
    let cost = upload_cost_satc (pos size) in
    Answers-Gives
      (Gives-change_user_balance user (neg64 cost) (codes "upload_cnf") (upload name size) w
        (λ row e. b.solvent user row (rw (← tables) e)))
      (λ e w1. removed path (charge_error e) w1)
      (λ _ w1 p1.
        let (beside, row, found, good, new) = p1 in
        Answers-Gives (Gives-insert_job_tx user name path n w1) (λ e w2. record { at = tt })
          (λ id w2 p2.
            let (key, new2, files, started) = p2 in
            record {
              at = (
                cleaned,
                row,
                made,
                rw (files, beside.files) file,
                rw (← tables) found,
                refl,
                good,
                key ∙ rw (new, tables) refl,
                new2 ∙ rw (new, tables) refl,
                rw (started, beside.started, calls) refl,
              );
            }))

Answers-store_job :
    (user : ℕ) (name content : Text) (path : FilePath) (n : ℤ) (w : World)
    → HasBooks w.db.users w.db.transactions
    → Answers (IsPosted user name content path n w) (store_job user name content path n w)
unfolding store_job
Answers-store_job user name content path n w b =
    Answers-Gives (Gives-call w) (λ e w1. record { at = tt })
      (λ _ w1 s1.
        Answers-Gives (Gives-write_file path [] w1) (λ e w2. record { at = tt })
          (λ _ w2 f2.
            Answers-Gives (Gives-write_file path content w2) (λ e w3. record { at = tt })
              (λ _ w3 f3.
                Answers-Gives (Gives-prepare_upload path w3)
                  (λ e w4. removed path (codes "invalid CNF (preprocessing failed)") w4)
                  (λ cleaned w4 p4.
                    let (t, there, made, s4) = p4 in
                    let same : t ≡ content = let there' = rw (f3.0) at there in cc in
                    Answers-Gives (Gives-write_file path cleaned w4)
                      (λ e w5. removed path (codes "server error (cnf normalize)") w5)
                      (λ _ w5 f5.
                        Answers-charge_job user name content cleaned path n w w5 b
                          (rw (← same) made)
                          (
                            f5.0,
                            f5.1 ∙ s4.db ∙ f3.1 ∙ f2.1 ∙ s1.db,
                            f5.2 ∙ s4.started ∙ f3.2 ∙ f2.2 ∙ s1.started,
                          ))))))

abbrev pub IsUpload : FilePath → Request → World → NewJob → World → Type 0
IsUpload path r w j w' =
    (user : ℕ) × (u : Upload) × (n : ℤ) × (signed_in_user r.cookie w.sessions ≡ some user)
    × (r.file (codes "cnf") ≡ some u)
    × (parse_int (r.form (codes "max_workers")) ≡ some n)
    × (ltb_ℤ n (pos 1) ≡ false)
    × IsPosted user (name_or (codes "job.cnf") u.filename) u.content path n w j w'

Answers-handle_create_job :
    (path : FilePath) (r : Request) (w : World)
    → HasBooks w.db.users w.db.transactions
    → Answers (IsUpload path r w) (handle_create_job path r w)
unfolding handle_create_job
Answers-handle_create_job path r w b =
    let count = r.form (codes "max_workers") in
    Answers-if (not (is_post r.method)) _ _ w (λ _. record { at = tt })
      (λ _.
        Answers-elim (signed_in_user r.cookie w.sessions) _ _ w (record { at = tt })
          (λ user who.
            Answers-if (not r.is_form) _ _ w (λ _. record { at = tt })
              (λ _.
                Answers-elim (r.file (codes "cnf")) _ _ w (record { at = tt })
                  (λ u file.
                    Answers-if (is_empty count) _ _ w (λ _. record { at = tt })
                      (λ _.
                        Answers-elim (parse_int count) _ _ w (record { at = tt })
                          (λ n parsed.
                            Answers-if (ltb_ℤ n (pos 1)) _ _ w (λ _. record { at = tt })
                              (λ enough.
                                let name = name_or (codes "job.cnf") u.filename in
                                Answers-Answers (Answers-store_job user name u.content path n w b)
                                  (λ j w' p. (user, u, n, who, file, parsed, enough, p)))))))))

-- Where the balances are those of the transactions, and `HandleCreateJob` answers, the user who is
-- signed in uploaded a file with at least one worker; the prepared file is stored under the job's
-- path; the job is inserted as one of that user, pending, under the next key; the user's balance has
-- changed by the negated price of the file as it came, with one row of that amount, and is not
-- negative; nothing else of the tables has changed; and the call that splits the job waits.
pub handle_create_job-posts :
    (path : FilePath) (r : Request) (w w' : World) (j : NewJob)
    → HasBooks w.db.users w.db.transactions
    → handle_create_job path r w ≡ (ok (answered j), w')
    → IsUpload path r w j w'
handle_create_job-posts path r w w' j b e = of_answer (Answers-handle_create_job path r w b) e
