-- ===== src/Web/Router.antt =====
-- `NewRouter` of internal/web/router.go: which handler serves which route. The pages that only show
-- a form or a text are left out.
use satfarm.Prelude.{ℕ, List}
use satfarm.Text.{Text}
use satfarm.World.{FilePath}
use satfarm.World.Exec.{Exec, pure, ◌>>◌}
use satfarm.Web.{Request}
use satfarm.Web.Auth.{Bcrypt, handle_post_signup, handle_post_login, handle_logout}
use satfarm.Web.Tokens.{handle_create_token, handle_revoke_token}
use satfarm.Web.Wallet.{handle_deposit, handle_withdraw, handle_transactions}
use satfarm.Web.Worker.{handle_worker_drat_upload, handle_worker_cnf_download}
use satfarm.Web.Jobs.{handle_create_job}
use satfarm.Web.Detail.{handle_job_detail, handle_job_detail_json}
use satfarm.Web.Dashboard.{handle_dashboard}

pub data Route : Type 0 where
  post_login post_signup get_logout get_dashboard : Route
  post_tokens_new post_tokens_revoke post_deposit post_withdraw : Route
  post_jobs_new get_transactions get_job : Route
  post_worker_drat get_worker_cnf get_api_job : Route

-- What a handler draws from outside: bcrypt's salt, random bytes, and the name of a new file.
pub record Draws : Type 0 where
  pub salt : Text
  pub bytes : List ℕ
  pub path : FilePath

unfoldable pub serve : Bcrypt → Route → Draws → Request → Exec (Unit {0})
serve bcrypt post_login d r = handle_post_login bcrypt d.bytes r >> pure tt
serve bcrypt post_signup d r = handle_post_signup bcrypt d.salt r >> pure tt
serve bcrypt get_logout d r = handle_logout r >> pure tt
serve bcrypt get_dashboard d r = handle_dashboard r >> pure tt
serve bcrypt post_tokens_new d r = handle_create_token d.bytes r >> pure tt
serve bcrypt post_tokens_revoke d r = handle_revoke_token r >> pure tt
serve bcrypt post_deposit d r = handle_deposit r >> pure tt
serve bcrypt post_withdraw d r = handle_withdraw r >> pure tt
serve bcrypt post_jobs_new d r = handle_create_job d.path r >> pure tt
serve bcrypt get_transactions d r = handle_transactions r >> pure tt
serve bcrypt get_job d r = handle_job_detail r >> pure tt
serve bcrypt post_worker_drat d r = handle_worker_drat_upload d.path r >> pure tt
serve bcrypt get_worker_cnf d r = handle_worker_cnf_download r >> pure tt
serve bcrypt get_api_job d r = handle_job_detail_json r >> pure tt
