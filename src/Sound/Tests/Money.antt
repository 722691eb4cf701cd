-- ===== src/Sound/Tests/Money.antt =====
-- What ada's deposit, her withdrawal and her upload do to her balance.
use satfarm.Prelude.{◌∷◌, [], inl, some, ℕ, take, ◌≡◌, ap, refl, ok}
use satfarm.Prelude.Int.{pos, ◌-ℤ◌, ◌+ℤ◌, neg_int}
use satfarm.Ledger.Books.{HasBooks}
use satfarm.World.{World}
use satfarm.Service.Steps.{new_server, Reach, here, after, served}
use satfarm.Web.{Request, get_method, answered}
use satfarm.World.{find_where, first_below, find, insert, modify}
use satfarm.World.Exec.{call, query, transaction}
use satfarm.Prelude.Int.{◌+ℤ◌, ◌-ℤ◌, neg_int}
use satfarm.Text.{
  codes, text_eq, itoa, parse_int, scan_lines, split_lines, scan_within, unlines, drop_cr, byte_len,
  trim_space, trim_left, trim_right, has_prefix, is_space,
}
use satfarm.Sat.Dimacs.{prepare_cnf}
use satfarm.Ledger.{change_user_balance, add_balance, insert_transaction, upload_cost_satc}
use satfarm.Web.Auth.{handle_post_signup, handle_post_login, insert_user}
use satfarm.Web.Wallet.{change_wallet, load_balance}
use satfarm.Web.Worker.{read_upload}
use satfarm.Web.Jobs.{store_job, charge_job, record_job, insert_job, prepare_upload}
use satfarm.Web.Uploads.{write_file, set_file}
use satfarm.Web.Session.{
  set_session, set_session_id, generate_secret, hex_of, current_user_id, signed_in_user,
}
use satfarm.Web.Router.{serve}
use satfarm.Web.Router.{post_signup, post_login, post_deposit}
use satfarm.Web.Wallet.{
  WalletView, HistoryView, handle_transactions, latest_of, handle_deposit, handle_withdraw,
}
use satfarm.Web.History.{handle_transactions-change_wallet}
use satfarm.Web.Jobs.{NewJob, handle_create_job}
use satfarm.Web.Paid.{IsPaid, handle_withdraw-pays}
use satfarm.Web.Posted.{IsUpload, handle_create_job-posts}
use satfarm.Sound.Reachable.{Reach-HasBooks}
use satfarm.Sound.Tests.{checker, plain, ada, draws, no_file, signed_up, logged_in, rich, facts}

rich_run : Reach checker plain (new_server no_file) rich
rich_run =
    after
      (after (after here (served post_signup draws ada (new_server no_file) refl))
        (served post_login draws ada signed_up facts.0))
      (served post_deposit draws ada logged_in facts.1)

rich_books : HasBooks rich.db.users rich.db.transactions
rich_books = Reach-HasBooks checker plain no_file rich rich_run

abbrev richer : World
richer = (handle_deposit ada rich).1

abbrev posted : World
posted = (handle_create_job 5 ada rich).1

abbrev deposited : WalletView
deposited = record { delta = pos 1000; balance = pos 2000; balance_str = itoa (pos 2000) }

abbrev new_job : NewJob
new_job = record { id = 1; file_name = codes "one.cnf"; max_workers = pos 2; cost_satc = pos 21 }

deposits : handle_deposit ada rich ≡ (ok (answered deposited), richer)
unfolding serve handle_withdraw handle_post_signup handle_post_login handle_deposit change_wallet
    handle_create_job store_job charge_job record_job insert_job prepare_upload read_upload
    prepare_cnf text_eq call query find_where first_below find insert modify insert_user set_session
    set_session_id generate_secret hex_of current_user_id signed_in_user change_user_balance
    add_balance insert_transaction load_balance transaction write_file set_file parse_int
    upload_cost_satc ◌+ℤ◌ ◌-ℤ◌ neg_int scan_lines split_lines scan_within unlines drop_cr byte_len
    trim_space trim_left trim_right has_prefix is_space
deposits = refl

-- What the upload answers.
creates : (handle_create_job 5 ada rich).0 ≡ ok (answered new_job)
unfolding serve handle_withdraw handle_post_signup handle_post_login handle_deposit change_wallet
    handle_create_job store_job charge_job record_job insert_job prepare_upload read_upload
    prepare_cnf text_eq call query find_where first_below find insert modify insert_user set_session
    set_session_id generate_secret hex_of current_user_id signed_in_user change_user_balance
    add_balance insert_transaction load_balance transaction write_file set_file parse_int
    upload_cost_satc ◌+ℤ◌ ◌-ℤ◌ neg_int scan_lines split_lines scan_within unlines drop_cr byte_len
    trim_space trim_left trim_right has_prefix is_space
creates = refl

handle_create_job-posts_example : IsUpload 5 ada rich new_job posted
handle_create_job-posts_example =
    handle_create_job-posts 5 ada rich posted new_job rich_books
      (ap (λ reply. (reply, posted)) creates)

handle_withdraw-pays_example : IsPaid (pos 1000) (codes "deposit") ada rich deposited richer
handle_withdraw-pays_example =
    handle_withdraw-pays (pos 1000) (codes "deposit") ada rich richer deposited rich_books
      (inl (deposits, refl, refl))

abbrev history : HistoryView
history = record {
  transactions =
      record { amount_sat = pos 1000; reason = codes "deposit" }
      ∷ record { amount_sat = pos 1000; reason = codes "deposit" }
      ∷ [];
  balance_satc = pos 2000;
  balance_str = itoa (pos 2000);
}

abbrev asks : Request
asks = record ada { method = get_method }

abbrev asked : World
asked = (handle_transactions asks richer).1

lists : (handle_transactions asks richer).0 ≡ ok (answered history)
unfolding serve handle_withdraw handle_post_signup handle_post_login handle_deposit change_wallet
    handle_create_job store_job charge_job record_job insert_job prepare_upload read_upload
    prepare_cnf text_eq call query find_where first_below find insert modify insert_user set_session
    set_session_id generate_secret hex_of current_user_id signed_in_user change_user_balance
    add_balance insert_transaction load_balance transaction write_file set_file parse_int
    upload_cost_satc ◌+ℤ◌ ◌-ℤ◌ neg_int scan_lines split_lines scan_within unlines drop_cr byte_len
    trim_space trim_left trim_right has_prefix is_space handle_transactions latest_of
lists = refl

handle_transactions-change_wallet_example :
    (user : ℕ) × (current_user_id ada.cookie rich.sessions ≡ some user)
    × (history.transactions
        ≡ record { amount_sat = pos 1000; reason = codes "deposit" }
          ∷ take 9 (latest_of user rich.db.transactions))
    × (history.balance_satc ≡ deposited.balance)
unfolding handle_deposit
handle_transactions-change_wallet_example =
    handle_transactions-change_wallet (pos 1000) (codes "deposit") ada rich richer asked deposited
      history rich_books deposits (ap (λ reply. (reply, asked)) lists)
