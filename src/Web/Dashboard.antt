-- ===== src/Web/Dashboard.antt =====
-- internal/web/handlers_dashboard.go: what a user sees of the account. Rows are in the order of
-- their insertion, which is that of `created_at`.
use satfarm.Prelude.{ℕ, ◌==◌, Bool, List, [], none, some, Result, ok, err, map, take, reverse}
use satfarm.Prelude.Int.{ℤ}
use satfarm.Text.{Text, codes, itoa}
use satfarm.World.{find, select_where, Token, Db}
use satfarm.World.Exec.{Error, no_rows, Exec, pure, gets, or_raise, ◌>>=◌, ◌>>◌, query, attempt}
use satfarm.Web.{Request, Reply, redirected, answer, or_reply}
use satfarm.Web.Session.{signed_in_user, clear_session}
use satfarm.Web.Wallet.{TransactionView, latest_of}
use satfarm.Web.Detail.{JobView, job_view}

pub record TokenView : Type 0 where
  pub id : ℕ
  pub label : Text
  pub revoked : Bool

pub record DashboardData : Type 0 where
  pub user_name : Text
  pub balance : Text
  pub tokens : List TokenView
  pub transactions : List TransactionView
  pub jobs : List JobView

abbrev pub token_view : ℕ × Token → TokenView
token_view (id, t) = record { id = id; label = t.label; revoked = t.revoked }

unfoldable pub tokens_of : ℕ → Db → List TokenView
tokens_of user db =
    take 50 (map token_view (reverse (select_where (λ k t. t.user_id == user) db.tokens)))

unfoldable pub jobs_of : ℕ → Db → List JobView
jobs_of user db =
    take 50
      (map (λ j. job_view j.0 j.1) (reverse (select_where (λ k j. j.user_id == user) db.jobs)))

-- A list that could not be loaded is shown empty.
abbrev pub or_empty {ℓ} : {A : Type ℓ} → Result Error (List A) → List A
or_empty (ok xs) = xs
or_empty (err e) = []

-- `SELECT username, balance_satc FROM users WHERE id = $1`
unfoldable pub load_account : ℕ → Exec (Text × ℤ)
load_account user = do
  row ← query (λ db. find user db.users)
  r ← or_raise row no_rows
  pure (r.username, r.balance_satc)

-- `HandleDashboard`
unfoldable pub handle_dashboard : Request → Exec (Reply DashboardData)
unfolding tokens_of jobs_of load_account
handle_dashboard r = do
  who ← gets (λ w. signed_in_user r.cookie w.sessions)
  elim who [
    | none ↦ pure (redirected (codes "/login"))
    | some user ↦
        or_reply (load_account user) (λ e. clear_session r >> pure (redirected (codes "/login")))
          (λ account. do
            tokens ← attempt (query (tokens_of user))
            txs ← attempt (query (λ db. take 20 (latest_of user db.transactions)))
            jobs ← attempt (query (jobs_of user))
            answer (record {
              user_name = account.0;
              balance = itoa account.1;
              tokens = or_empty tokens;
              transactions = or_empty txs;
              jobs = or_empty jobs;
            }))
  ]
