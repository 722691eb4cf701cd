-- ===== src/Web/Wallet.antt =====
-- internal/web/handlers_wallet.go: deposits, withdrawals, and the list of transactions.
use satfarm.Prelude.{ℕ, ◌==◌, not, List, [], ◌∷◌, ◌++◌, take, none, some, if◌then◌else◌}
use satfarm.Prelude.Int.{ℤ, pos, ◌-ℤ◌}
use satfarm.Text.{Text, codes, itoa}
use satfarm.World.{find, no_meta, Transaction}
use satfarm.World.Exec.{no_rows, Exec, pure, gets, or_raise, ◌>>=◌, query}
use satfarm.Ledger.{change_user_balance}
use satfarm.Web.{Request, is_post, is_get, Reply, refused_with, refuse, answer, or_reply}
use satfarm.Web.Session.{current_user_id}

-- `SELECT balance_satc FROM users WHERE id = $1`
unfoldable pub load_balance : ℕ → Exec ℤ
load_balance user = do
  row ← query (λ db. find user db.users)
  r ← or_raise row no_rows
  pure r.balance_satc

pub record WalletView : Type 0 where
  pub delta : ℤ
  pub balance : ℤ
  pub balance_str : Text

-- What `HandleDeposit` and `HandleWithdraw` do with their amount and reason.
unfoldable pub change_wallet : ℤ → Text → Request → Exec (Reply WalletView)
unfolding load_balance
change_wallet delta reason r =
    if not (is_post r.method) then refuse 405 (codes "method not allowed") else (do
      who ← gets (λ w. current_user_id r.cookie w.sessions)
      elim who [
        | none ↦ refuse 401 (codes "unauthorized")
        | some user ↦
            or_reply (change_user_balance user delta reason no_meta)
              (λ e. pure (refused_with 400 e))
              (λ _.
                or_reply (load_balance user) (λ e. refuse 500 (codes "failed to load balance"))
                  (λ b. answer (record { delta = delta; balance = b; balance_str = itoa b })))
      ])

abbrev pub wallet_amount : ℕ
wallet_amount = 1000

-- `HandleDeposit`
unfoldable pub handle_deposit : Request → Exec (Reply WalletView)
handle_deposit r = change_wallet (pos wallet_amount) (codes "deposit") r

-- `HandleWithdraw`
unfoldable pub handle_withdraw : Request → Exec (Reply WalletView)
handle_withdraw r = change_wallet (pos 0 -ℤ pos wallet_amount) (codes "withdraw") r

pub record TransactionView : Type 0 where
  pub amount_sat : ℤ
  pub reason : Text

-- `WHERE user_id = $1 ORDER BY created_at DESC`: the table's rows are in the order of their insertion.
unfoldable pub latest_of : ℕ → List Transaction → List TransactionView
latest_of user [] = []
latest_of user (t ∷ ts) =
    let later = latest_of user ts in
    if t.user_id == user
    then later ++ record { amount_sat = t.amount_satc; reason = t.reason } ∷ []
    else later

pub record HistoryView : Type 0 where
  pub transactions : List TransactionView
  pub balance_satc : ℤ
  pub balance_str : Text

-- `HandleTransactions`
unfoldable pub handle_transactions : Request → Exec (Reply HistoryView)
unfolding load_balance latest_of
handle_transactions r =
    if not (is_get r.method) then refuse 405 (codes "method not allowed") else (do
      who ← gets (λ w. current_user_id r.cookie w.sessions)
      elim who [
        | none ↦ refuse 401 (codes "unauthorized")
        | some user ↦
            or_reply (query (λ db. take 10 (latest_of user db.transactions)))
              (λ e. refuse 500 (codes "failed to load transactions"))
              (λ txs.
                or_reply (load_balance user) (λ e. refuse 500 (codes "failed to load balance"))
                  (λ b.
                    answer (record { transactions = txs; balance_satc = b; balance_str = itoa b })))
      ])
