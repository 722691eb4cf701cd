-- ===== src/Sound/Shown.antt =====
-- Requests to the web server that only read, and every request by its route.
use satfarm.Prelude.{ℕ, List, Option, is_some, inl, inr, Option-cases, take}
use satfarm.Text.{Text, codes}
use satfarm.World.{key_of, FilePath, World}
use satfarm.World.Exec.{no_rows}
use satfarm.Web.{Request}
use satfarm.Web.Session.{signed_in_user}
use satfarm.Web.Auth.{Bcrypt}
use satfarm.Web.Wallet.{latest_of}
use satfarm.Web.Detail.{
  positive_id, find_job_of, job_with_result, shards_of, handle_job_detail, handle_job_detail_json,
}
use satfarm.Web.Dashboard.{tokens_of, jobs_of, load_account, handle_dashboard}
use satfarm.Web.Router.{
  Route, post_login, post_signup, get_logout, get_dashboard, post_tokens_new, post_tokens_revoke,
  post_deposit, post_withdraw, post_jobs_new, get_transactions, get_job, post_worker_drat,
  get_worker_cnf, get_api_job, serve,
}
use satfarm.Sound.Stays.{
  Stays, Leaves, Leaves-bind, Leaves-reply, Leaves-if, Leaves-elim, Leaves-or_raise, Leaves-query,
}
use satfarm.Sound.Visits.{
  Leaves-clear_session, Leaves-handle_post_signup, Leaves-handle_post_login, Leaves-handle_logout,
}
use satfarm.Sound.Accounts.{
  Leaves-handle_create_token, Leaves-handle_revoke_token, Leaves-handle_deposit,
  Leaves-handle_withdraw, Leaves-handle_transactions,
}
use satfarm.Sound.Created.{
  Leaves-handle_create_job, Leaves-handle_worker_drat_upload, Leaves-handle_worker_cnf_download,
}

module _ (path : FilePath) (promise : Type 0) (f : FilePath → Option Text) where
  abbrev S : World → Type 0
  S w = Stays path promise f w

  Leaves-handle_job_detail_json :
      (r : Request) (w : World) → S w → Leaves S (handle_job_detail_json r w)
  unfolding handle_job_detail_json
  Leaves-handle_job_detail_json r w s =
      Leaves-elim (signed_in_user r.cookie w.sessions) _ _ w (record { at = s })
        (λ user.
          Leaves-elim (positive_id (r.url_param (codes "jobID"))) _ _ w (record { at = s })
            (λ id.
              Leaves-reply (Leaves-query path promise f (job_with_result id user) w s)
                (λ x w1 s1. record { at = s1 })
                (λ row w1 s1.
                  Leaves-elim row _ _ w1 (record { at = s1 })
                    (λ found.
                      Leaves-reply (Leaves-query path promise f (shards_of (key_of id)) w1 s1)
                        (λ x w2 s2. record { at = s2 }) (λ shards w2 s2. record { at = s2 })))))

  Leaves-handle_job_detail : (r : Request) (w : World) → S w → Leaves S (handle_job_detail r w)
  unfolding handle_job_detail
  Leaves-handle_job_detail r w s = elim (Option-cases (signed_in_user r.cookie w.sessions)) [
    | inl e ↦ rw e (record { at = s })
    | inr (user, e) ↦ rw e (
        Leaves-elim (positive_id (r.url_param (codes "jobID"))) _ _ w (record { at = s })
          (λ id.
            Leaves-reply (Leaves-query path promise f (λ db. is_some (find_job_of id user db)) w s)
              (λ x w1 s1. record { at = s1 })
              (λ exists w1 s1. Leaves-if exists _ _ w1 (record { at = s1 }) (record { at = s1 }))))
  ]

  Leaves-load_account : (user : ℕ) (w : World) → S w → Leaves S (load_account user w)
  unfolding load_account
  Leaves-load_account user w s =
      Leaves-bind (Leaves-query path promise f _ w s)
        (λ row w1 s1. Leaves-or_raise row no_rows w1 _ s1 (λ r e. record { at = s1 }))

  Leaves-handle_dashboard : (r : Request) (w : World) → S w → Leaves S (handle_dashboard r w)
  unfolding handle_dashboard
  Leaves-handle_dashboard r w s = elim (Option-cases (signed_in_user r.cookie w.sessions)) [
    | inl e ↦ rw e (record { at = s })
    | inr (user, e) ↦ rw e (
        Leaves-reply (Leaves-load_account user w s)
          (λ x w1 s1.
            Leaves-bind (Leaves-clear_session path promise f r w1 s1)
              (λ _ w2 s2. record { at = s2 }))
          (λ account w1 s1.
            let l2 = Leaves-query path promise f (tokens_of user) w1 s1 in
            let l3 =
              Leaves-query path promise f (λ db. take 20 (latest_of user db.transactions)) _
                l2.at in
            let l4 = Leaves-query path promise f (jobs_of user) _ l3.at in record { at = l4.at }))
  ]

  pub Leaves-serve :
      (bcrypt : Bcrypt) (route : Route) (salt : Text) (bytes : List ℕ) (r : Request) (w : World)
      → S w
      → Leaves S (serve bcrypt route (record { salt = salt; bytes = bytes; path = path }) r w)
  unfolding serve
  Leaves-serve b post_login salt bytes r w s =
      Leaves-bind (Leaves-handle_post_login path promise f b bytes r w s)
        (λ _ w1 s1. record { at = s1 })
  Leaves-serve b post_signup salt bytes r w s =
      Leaves-bind (Leaves-handle_post_signup path promise f b salt r w s)
        (λ _ w1 s1. record { at = s1 })
  Leaves-serve b get_logout salt bytes r w s =
      Leaves-bind (Leaves-handle_logout path promise f r w s) (λ _ w1 s1. record { at = s1 })
  Leaves-serve b get_dashboard salt bytes r w s =
      Leaves-bind (Leaves-handle_dashboard r w s) (λ _ w1 s1. record { at = s1 })
  Leaves-serve b post_tokens_new salt bytes r w s =
      Leaves-bind (Leaves-handle_create_token path promise f bytes r w s)
        (λ _ w1 s1. record { at = s1 })
  Leaves-serve b post_tokens_revoke salt bytes r w s =
      Leaves-bind (Leaves-handle_revoke_token path promise f r w s) (λ _ w1 s1. record { at = s1 })
  Leaves-serve b post_deposit salt bytes r w s =
      Leaves-bind (Leaves-handle_deposit path promise f r w s) (λ _ w1 s1. record { at = s1 })
  Leaves-serve b post_withdraw salt bytes r w s =
      Leaves-bind (Leaves-handle_withdraw path promise f r w s) (λ _ w1 s1. record { at = s1 })
  Leaves-serve b post_jobs_new salt bytes r w s =
      Leaves-bind (Leaves-handle_create_job path promise f r w s) (λ _ w1 s1. record { at = s1 })
  Leaves-serve b get_transactions salt bytes r w s =
      Leaves-bind (Leaves-handle_transactions path promise f r w s) (λ _ w1 s1. record { at = s1 })
  Leaves-serve b get_job salt bytes r w s =
      Leaves-bind (Leaves-handle_job_detail r w s) (λ _ w1 s1. record { at = s1 })
  Leaves-serve b post_worker_drat salt bytes r w s =
      Leaves-bind (Leaves-handle_worker_drat_upload path promise f r w s)
        (λ _ w1 s1. record { at = s1 })
  Leaves-serve b get_worker_cnf salt bytes r w s =
      Leaves-bind (Leaves-handle_worker_cnf_download path promise f r w s)
        (λ _ w1 s1. record { at = s1 })
  Leaves-serve b get_api_job salt bytes r w s =
      Leaves-bind (Leaves-handle_job_detail_json r w s) (λ _ w1 s1. record { at = s1 })
