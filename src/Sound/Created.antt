-- ===== src/Sound/Created.antt =====
-- Requests to the web server that store a file: a new job, and a proof.
use satfarm.Prelude.{ℕ, not, Option, is_empty, inl, inr, Option-cases, refl}
use satfarm.Prelude.Int.{ℤ, pos, ltb_ℤ, neg64}
use satfarm.Text.{Text, codes, parse_int, byte_len}
use satfarm.Sat.Dimacs.{prepare_cnf}
use satfarm.World.{find, find_id, upload, FilePath, World}
use satfarm.World.Exec.{constraint}
use satfarm.Ledger.{upload_cost_satc}
use satfarm.Web.{Request, is_post, is_get}
use satfarm.Web.Session.{signed_in_user}
use satfarm.Web.Bearer.{bearer_secret, token_owner, authenticate_worker_from_bearer}
use satfarm.Web.Worker.{
  insert_drat_file, name_or, store_drat, handle_worker_drat_upload, read_upload,
  handle_worker_cnf_download,
}
use satfarm.Web.Jobs.{
  prepare_upload, is_worker_count, insert_job, record_job, charge_job, store_job, handle_create_job,
}
use satfarm.Sound.Inserted.{IsSound-insert_job, IsSound-drat_files}
use satfarm.Sound.Stays.{
  Stays, Leaves, Leaves-bind, Leaves-reply, Leaves-if, Leaves-elim, Leaves-or_raise,
  Leaves-raise_if, Stays-tables, Leaves-call, Leaves-query, Leaves-write_file, Leaves-remove_file,
  Leaves-transaction, Leaves-change,
}

module _ (path : FilePath) (promise : Type 0) (f : FilePath → Option Text) where
  abbrev S : World → Type 0
  S w = Stays path promise f w

  Leaves-authenticate :
      (header : Text) (w : World) → S w → Leaves S (authenticate_worker_from_bearer header w)
  unfolding authenticate_worker_from_bearer
  Leaves-authenticate header w s =
      Leaves-elim (bearer_secret header) _ _ w (record { at = s })
        (λ secret.
          let l = Leaves-query path promise f (token_owner secret) w s in record { at = l.at })

  Leaves-read_upload : (p : FilePath) (w : World) → S w → Leaves S (read_upload p w)
  unfolding read_upload
  Leaves-read_upload p w s = Leaves-bind (Leaves-call path promise f w s) (λ _ w1 s1.
      elim (Option-cases (w1.files p)) [
        | inl e ↦ rw e (record { at = s1 })
        | inr (t, e) ↦ rw e (record { at = s1 })
      ])

  Leaves-insert_drat_file :
      (user : ℕ) (name : Text) (w : World) → S w → Leaves S (insert_drat_file user name path w)
  unfolding insert_drat_file
  Leaves-insert_drat_file user name w s = Leaves-bind (Leaves-call path promise f w s) (λ _ w1 s1.
      Leaves-or_raise (find user w1.db.users) constraint w1 _ s1 (λ owner e. record {
        at = Stays-tables path promise f w1 _ s1 refl (IsSound-drat_files f _ w1.db s1.sound);
      }))

  Leaves-store_drat :
      (user : ℕ) (name content : Text) (w : World)
      → S w
      → Leaves S (store_drat user name content path w)
  unfolding store_drat
  Leaves-store_drat user name content w s =
      Leaves-reply (Leaves-call path promise f w s) (λ e w1 s1. record { at = s1 })
        (λ _ w1 s1.
          Leaves-reply (Leaves-write_file path promise f _ w1 s1) (λ e w2 s2. record { at = s2 })
            (λ _ w2 s2.
              Leaves-reply (Leaves-write_file path promise f _ w2 s2)
                (λ e w3 s3. record { at = s3 })
                (λ _ w3 s3.
                  Leaves-reply (Leaves-insert_drat_file user name w3 s3)
                    (λ e w4 s4.
                      Leaves-bind (Leaves-remove_file path promise f w4 s4)
                        (λ _ w5 s5. record { at = s5 }))
                    (λ id w4 s4. record { at = s4 }))))

  pub Leaves-handle_worker_drat_upload :
      (r : Request) (w : World) → S w → Leaves S (handle_worker_drat_upload path r w)
  unfolding handle_worker_drat_upload
  Leaves-handle_worker_drat_upload r w s =
      Leaves-if (not (is_post r.method)) _ _ w (record { at = s })
        (Leaves-bind (Leaves-authenticate r.authorization w s) (λ who w1 s1.
          elim (Option-cases who) [
            | inl e ↦ rw e (record { at = s1 })
            | inr (user, e) ↦ rw e (
                Leaves-if (not r.is_form) _ _ w1 (record { at = s1 })
                  (elim (Option-cases (r.file (codes "proof"))) [
                    | inl e ↦ rw e (record { at = s1 })
                    | inr (u, e) ↦ rw e (
                        Leaves-store_drat user (name_or (codes "proof.drat") u.filename) u.content
                          w1 s1)
                  ]))
          ]))

  pub Leaves-handle_worker_cnf_download :
      (r : Request) (w : World) → S w → Leaves S (handle_worker_cnf_download r w)
  unfolding handle_worker_cnf_download
  Leaves-handle_worker_cnf_download r w s =
      let id = r.url_param (codes "jobID") in
      Leaves-if (not (is_get r.method)) _ _ w (record { at = s })
        (Leaves-bind (Leaves-authenticate r.authorization w s) (λ who w1 s1.
          elim (Option-cases who) [
            | inl e ↦ rw e (record { at = s1 })
            | inr (user, e) ↦ rw e (
                Leaves-if (is_empty id) _ _ w1 (record { at = s1 })
                  (elim (Option-cases (parse_int id)) [
                    | inl e ↦ rw e (record { at = s1 })
                    | inr (n, e) ↦ rw e (
                        Leaves-reply (Leaves-query path promise f (λ db. find_id n db.jobs) w1 s1)
                          (λ e w2 s2. record { at = s2 })
                          (λ row w2 s2. elim (Option-cases row) [
                            | inl e ↦ rw e (record { at = s2 })
                            | inr (j, e) ↦ rw e (
                                Leaves-reply (Leaves-read_upload j.cnf_path w2 s2)
                                  (λ e w3 s3. record { at = s3 }) (λ t w3 s3. record { at = s3 }))
                          ]))
                  ]))
          ]))

  Leaves-prepare_upload : (w : World) → S w → Leaves S (prepare_upload path w)
  unfolding prepare_upload
  Leaves-prepare_upload w s = Leaves-bind (Leaves-read_upload path w s) (λ text w1 s1.
      Leaves-bind (Leaves-call path promise f w1 s1) (λ _ w2 s2.
        elim (Option-cases (prepare_cnf text)) [
          | inl e ↦ rw e (record { at = s2 })
          | inr (t, e) ↦ rw e (record { at = s2 })
        ]))

  Leaves-insert_job :
      (user : ℕ) (name : Text) (n : ℤ) (w : World) → S w → Leaves S (insert_job user name path n w)
  unfolding insert_job
  Leaves-insert_job user name n w s = Leaves-bind (Leaves-call path promise f w s) (λ _ w1 s1.
      Leaves-or_raise (find user w1.db.users) constraint w1 _ s1 (λ owner e.
        Leaves-bind (Leaves-call path promise f w1 s1) (λ _ w2 s2.
          Leaves-raise_if (not (is_worker_count n)) constraint w2 _ s2 (λ good. record {
            at = Stays-tables path promise f w2 _ s2 refl (IsSound-insert_job f _ w2.db s2.sound);
          }))))

  Leaves-record_job :
      (user : ℕ) (name : Text) (n cost : ℤ) (w : World)
      → S w
      → Leaves S (record_job user name path n cost w)
  unfolding record_job
  Leaves-record_job user name n cost w s =
      Leaves-reply
        (Leaves-transaction path promise f _ w s (λ w1 s1. Leaves-insert_job user name n w1 s1))
        (λ e w1 s1. record { at = s1 })
        (λ id w1 s1. record { at = Stays-tables path promise f w1 _ s1 refl s1.sound })

  Leaves-charge_job :
      (user : ℕ) (name content : Text) (n : ℤ) (w : World)
      → S w
      → Leaves S (charge_job user name content path n w)
  unfolding charge_job
  Leaves-charge_job user name content n w s =
      let size = byte_len content in
      let cost = upload_cost_satc (pos size) in
      Leaves-reply
        (Leaves-change path promise f user (neg64 cost) (codes "upload_cnf") (upload name size) w s)
        (λ e w1 s1.
          Leaves-bind (Leaves-remove_file path promise f w1 s1) (λ _ w2 s2. record { at = s2 }))
        (λ _ w1 s1. Leaves-record_job user name n cost w1 s1)

  Leaves-store_job :
      (user : ℕ) (name content : Text) (n : ℤ) (w : World)
      → S w
      → Leaves S (store_job user name content path n w)
  unfolding store_job
  Leaves-store_job user name content n w s =
      Leaves-reply (Leaves-call path promise f w s) (λ e w1 s1. record { at = s1 })
        (λ _ w1 s1.
          Leaves-reply (Leaves-write_file path promise f _ w1 s1) (λ e w2 s2. record { at = s2 })
            (λ _ w2 s2.
              Leaves-reply (Leaves-write_file path promise f _ w2 s2)
                (λ e w3 s3. record { at = s3 })
                (λ _ w3 s3.
                  Leaves-reply (Leaves-prepare_upload w3 s3)
                    (λ e w4 s4.
                      Leaves-bind (Leaves-remove_file path promise f w4 s4)
                        (λ _ w5 s5. record { at = s5 }))
                    (λ cleaned w4 s4.
                      Leaves-reply (Leaves-write_file path promise f _ w4 s4)
                        (λ e w5 s5.
                          Leaves-bind (Leaves-remove_file path promise f w5 s5)
                            (λ _ w6 s6. record { at = s6 }))
                        (λ _ w5 s5. Leaves-charge_job user name content n w5 s5)))))

  pub Leaves-handle_create_job :
      (r : Request) (w : World) → S w → Leaves S (handle_create_job path r w)
  unfolding handle_create_job
  Leaves-handle_create_job r w s =
      let count = r.form (codes "max_workers") in
      Leaves-if (not (is_post r.method)) _ _ w (record { at = s })
        (elim (Option-cases (signed_in_user r.cookie w.sessions)) [
          | inl e ↦ rw e (record { at = s })
          | inr (user, e) ↦ rw e (
              Leaves-if (not r.is_form) _ _ w (record { at = s })
                (elim (Option-cases (r.file (codes "cnf"))) [
                  | inl e ↦ rw e (record { at = s })
                  | inr (u, e) ↦ rw e (
                      Leaves-if (is_empty count) _ _ w (record { at = s })
                        (elim (Option-cases (parse_int count)) [
                          | inl e ↦ rw e (record { at = s })
                          | inr (n, e) ↦ rw e (
                              Leaves-if (ltb_ℤ n (pos 1)) _ _ w (record { at = s })
                                (Leaves-store_job user (name_or (codes "job.cnf") u.filename)
                                  u.content n w s))
                        ]))
                ]))
        ])
