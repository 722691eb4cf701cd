-- ===== src/Sound/Tests.antt =====
-- A run of the servers: a user signs up, deposits, and uploads a formula; the job is split in two, and
-- a worker reports a model.
mod Money
mod Access
use satfarm.Prelude.{
  ◌≡◌, refl, true, false, List, [], ◌∷◌, Option, none, some, any, is_empty, arith, if◌then◌else◌,
}
use satfarm.Prelude.Int.{pos, leb_ℤ}
use satfarm.Text.{Text, codes, text_eq}
use satfarm.Ledger.Books.{total}
use satfarm.World.{UserRow, FilePath, enqueue, World}
use satfarm.Sat.Cnf.{Clause, Valuation, cnf_holds}
use satfarm.Sat.Meaning.{formula}
use satfarm.Scheduler.{DratTrim, JobResult}
use satfarm.Service.{job_result, receive, run_task}
use satfarm.Service.Steps.{new_server, Reach, here, after, received, ran, served}
use satfarm.Web.{Request, post_method}
use satfarm.Web.Auth.{Bcrypt}
use satfarm.Web.Router.{Route, post_signup, post_login, post_deposit, post_jobs_new, Draws, serve}
use satfarm.World.{find_where, first_below, find, insert, modify}
use satfarm.World.Exec.{call, query, transaction}
use satfarm.Prelude.Int.{◌+ℤ◌, ◌-ℤ◌, neg_int}
use satfarm.Text.{
  parse_int, scan_lines, split_lines, scan_within, unlines, drop_cr, byte_len, trim_space,
  trim_left, trim_right, has_prefix, is_space,
}
use satfarm.Sat.Dimacs.{prepare_cnf}
use satfarm.Ledger.{change_user_balance, add_balance, insert_transaction, upload_cost_satc}
use satfarm.Web.Auth.{handle_post_signup, handle_post_login, insert_user}
use satfarm.Web.Wallet.{handle_deposit, change_wallet, load_balance}
use satfarm.Web.Worker.{read_upload}
use satfarm.Web.Jobs.{
  handle_create_job, store_job, charge_job, record_job, insert_job, prepare_upload,
}
use satfarm.Web.Uploads.{write_file, set_file}
use satfarm.Web.Session.{
  set_session, set_session_id, generate_secret, hex_of, current_user_id, signed_in_user,
}
use satfarm.Sound.{AreTrue}
use satfarm.Sound.Proofs.{DratSound}
use satfarm.Sound.Reachable.{Reach-IsSound, Reach-IsBalanced}

-- A checker that wants an empty clause.
abbrev checker : DratTrim
checker cnf proof = any is_empty (formula cnf)

empty_clause : (cs : List Clause) (v : Valuation) → any is_empty cs ≡ true → cnf_holds v cs ≡ false
empty_clause [] v h = absurd (cc)
empty_clause ([] ∷ cs) v h = refl
empty_clause ((l ∷ ls) ∷ cs) v h = ground (arith, empty_clause cs v h)

checker-DratSound : DratSound checker
checker-DratSound cnf proof strict h v = empty_clause (formula cnf) v h

-- A hash that is the password.
abbrev plain : Bcrypt
plain = record { generate = λ salt p. some p; is_match = λ h p. text_eq h p }

abbrev field : List (Text × Text) → Text → Text
field [] name = []
field ((k, v) ∷ kvs) name = if text_eq k name then v else field kvs name

-- The forms of the user ada, whose session is "2a".
abbrev post : List (Text × Text) → Request
post form = record {
  method = post_method;
  cookie = some (codes "2a");
  authorization = [];
  is_form = true;
  form = field form;
  file = λ name.
      some (record { filename = codes "one.cnf"; content = codes "p cnf 2 2\n1 -2 0\n2 0\n" });
  url_param = λ name. codes "1";
}

abbrev ada : Request
ada = post (
    (codes "username", codes "ada")
    ∷ (codes "email", codes "ada@example.org")
    ∷ (codes "password", codes "pw")
    ∷ (codes "confirm_password", codes "pw")
    ∷ (codes "max_workers", codes "2")
    ∷ (codes "label", codes "mine")
    ∷ (codes "token_id", codes "1")
    ∷ [])

abbrev draws : Draws
draws = record { salt = []; bytes = 42 ∷ []; path = 5 }

abbrev serve_ada : Route → World → World
serve_ada route w = (serve plain route draws ada w).1

abbrev no_file : FilePath → Option Text
no_file path = none

abbrev signed_up : World
signed_up = serve_ada post_signup (new_server no_file)

abbrev logged_in : World
logged_in = serve_ada post_login signed_up

abbrev rich : World
rich = serve_ada post_deposit logged_in

abbrev created : World
created = serve_ada post_jobs_new rich

abbrev split : World
split = (run_task (enqueue 1 5 (pos 2)) (record created { started = [] })).1

abbrev model : JobResult
model = record { job_id = 1; shard_id = 1; sat = true; model_or_core_info = codes "1 2" }

abbrev reported : World
reported = (receive checker 1 (job_result model) split).1

abbrev ada_row : UserRow
ada_row = record {
  username = codes "ada";
  email = codes "ada@example.org";
  password_hash = codes "pw";
  balance_satc = pos 979;
}

-- The name of the file is new until the upload, whose call waits behind it; ada has paid for it.
facts :
    (signed_up.files 5 ≡ none)
    × (logged_in.files 5 ≡ none)
    × (rich.files 5 ≡ none)
    × (created.started ≡ enqueue 1 5 (pos 2) ∷ [])
    × (find 1 created.db.users ≡ some ada_row)
unfolding serve handle_post_signup handle_post_login handle_deposit change_wallet handle_create_job
    store_job charge_job record_job insert_job prepare_upload read_upload prepare_cnf text_eq call
    query find_where first_below find insert modify insert_user set_session set_session_id
    generate_secret hex_of current_user_id signed_in_user change_user_balance add_balance
    insert_transaction load_balance transaction write_file set_file parse_int upload_cost_satc ◌+ℤ◌
    ◌-ℤ◌ neg_int scan_lines split_lines scan_within unlines drop_cr byte_len trim_space trim_left
    trim_right has_prefix is_space
facts = (refl, refl, refl, refl, refl)

run : Reach checker plain (new_server no_file) created
run =
    after
      (after
        (after (after here (served post_signup draws ada (new_server no_file) refl))
          (served post_login draws ada signed_up facts.0))
        (served post_deposit draws ada logged_in facts.1))
      (served post_jobs_new draws ada rich facts.2)

longer_run : Reach checker plain (new_server no_file) reported
longer_run =
    after (after run (ran [] [] (enqueue 1 5 (pos 2)) created facts.3))
      (received 1 (job_result model) split)

Reach-IsSound_example : AreTrue reported.files reported.db
Reach-IsSound_example = Reach-IsSound checker plain no_file reported checker-DratSound longer_run

Reach-IsBalanced_example :
    (pos 979 ≡ total 1 created.db.transactions) × (leb_ℤ (pos 0) (pos 979) ≡ true)
Reach-IsBalanced_example = Reach-IsBalanced checker plain no_file created 1 ada_row run facts.4
