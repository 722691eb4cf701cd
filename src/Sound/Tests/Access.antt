-- ===== src/Sound/Tests/Access.antt =====
-- Who is let in behind ada's login, and behind the creation and the revocation of her token.
use satfarm.Prelude.{
  ℕ, ◌≡◌, refl, ap, sym, ◌∙◌, ltb, Bool, true, [], ◌∷◌, some, none, ok, false, arith, ==_iff, ◌==◌,
  ℕ, if◌then◌else◌,
}
use satfarm.Prelude.Int.{pos, ◌-ℤ◌, ◌+ℤ◌, neg_int}
use satfarm.Text.{codes, text_eq}
use satfarm.World.{UserRow, World, Token, pending}
use satfarm.Web.Bearer.{token_owner}
use satfarm.World.{find_where, first_below, find, insert, modify}
use satfarm.World.Exec.{call, query, transaction}
use satfarm.Prelude.Int.{◌+ℤ◌, ◌-ℤ◌, neg_int}
use satfarm.Text.{
  parse_int, scan_lines, split_lines, scan_within, unlines, drop_cr, byte_len, trim_space,
  trim_left, trim_right, has_prefix, is_space,
}
use satfarm.Sat.Dimacs.{prepare_cnf}
use satfarm.Ledger.{change_user_balance, add_balance, insert_transaction, upload_cost_satc}
use satfarm.Web.Auth.{handle_post_signup, handle_post_login, insert_user}
use satfarm.Web.Wallet.{handle_deposit, change_wallet, load_balance}
use satfarm.Web.Worker.{read_upload}
use satfarm.Web.Jobs.{
  handle_create_job, store_job, charge_job, record_job, insert_job, prepare_upload,
}
use satfarm.Web.Uploads.{write_file, set_file}
use satfarm.Web.Session.{
  set_session, set_session_id, generate_secret, hex_of, current_user_id, signed_in_user,
}
use satfarm.Web.Router.{serve}
use satfarm.Web.{answered}
use satfarm.Web.Auth.{handle_logout}
use satfarm.Web.Bearer.{authenticate_worker_from_bearer}
use satfarm.Web.Tokens.{handle_create_token, handle_revoke_token, NewToken, revoke_token}
use satfarm.Web.SignedIn.{handle_post_login-session}
use satfarm.Service.Auth.{authenticate_ctx, validate_token, trim_prefix}
use satfarm.Web.Tokens.{insert_token}
use satfarm.Service.Access.{IsWord, shown, user_of, authenticate_ctx-worker}
use satfarm.Service.Tokens.{handle_create_token-opens}
use satfarm.Service.Revoked.{authenticate_ctx-Token, handle_revoke_token-closes}
use satfarm.Web.Owned.{IsShown, handle_job_detail_json-owner}
use satfarm.Web.Detail.{
  JobDetail, handle_job_detail_json, job_view, result_view, find_job_of, shards_of, positive_id,
}
use satfarm.Sound.Tests.{plain, ada, signed_up, logged_in, created}

-- Ada's login.
abbrev entered : World
entered = (handle_post_login plain (42 ∷ []) ada signed_up).1

enters : handle_post_login plain (42 ∷ []) ada signed_up ≡ (ok (answered (codes "2a")), entered)
unfolding handle_post_signup handle_post_login insert_user set_session set_session_id
    generate_secret hex_of text_eq call query find_where first_below find insert modify serve
enters = refl

handle_post_login-session_example :
    (user : ℕ) × (row : UserRow) × (find user signed_up.db.users ≡ some row)
    × (row.username ≡ ada.form (codes "username"))
    × (plain.is_match row.password_hash (ada.form (codes "password")) ≡ true)
    × (current_user_id (some (codes "2a")) entered.sessions ≡ some user)
    × (current_user_id (some (codes "x")) entered.sessions
        ≡ current_user_id (some (codes "x")) signed_up.sessions)
    × (current_user_id
          (some (codes "2a"))
          (handle_logout (record ada { cookie = some (codes "2a") }) entered).1.sessions
        ≡ none)
handle_post_login-session_example =
    handle_post_login-session plain (42 ∷ []) ada signed_up entered (codes "2a") (codes "x") refl
      (unfold text_eq in refl) enters

-- A token for ada.
abbrev with_token : World
with_token = (handle_create_token (42 ∷ 43 ∷ []) ada logged_in).1

abbrev new_token : NewToken
new_token = record { id = 1; label = codes "mine"; secret = codes "2a2b" }

issued : handle_create_token (42 ∷ 43 ∷ []) ada logged_in ≡ (ok (answered new_token), with_token)
unfolding handle_post_signup handle_post_login insert_user set_session set_session_id
    generate_secret hex_of text_eq call query find_where first_below find insert modify serve
    signed_in_user current_user_id handle_create_token insert_token
issued = refl

handle_create_token-opens_example :
    (user : ℕ) × (signed_in_user ada.cookie logged_in.sessions ≡ some user)
    × (authenticate_ctx (some (shown (codes "2a2b") ∷ [])) (record with_token { faults = [] })
        ≡ (ok user, record with_token { faults = [] }))
    × (authenticate_worker_from_bearer (shown (codes "2a2b")) (record with_token { faults = [] })
        ≡ (ok (some user), record with_token { faults = [] }))
handle_create_token-opens_example =
    handle_create_token-opens (42 ∷ 43 ∷ []) ada logged_in with_token new_token
      (omega arith, (omega arith, tt)) refl issued

two_a-IsWord : IsWord (codes "2a")
two_a-IsWord = unfold is_space in ((refl, (refl, tt)), refl)

authenticate_ctx-worker_example :
    authenticate_worker_from_bearer (shown (codes "2a")) with_token ≡ (
      let r = authenticate_ctx (some (shown (codes "2a") ∷ [])) with_token in
      (ok (user_of r.0), r.1))
authenticate_ctx-worker_example = authenticate_ctx-worker (codes "2a") [] with_token two_a-IsWord

lets_in : authenticate_ctx (some (shown (codes "2a2b") ∷ [])) with_token ≡ (ok 1, with_token)
unfolding handle_post_signup handle_post_login insert_user set_session set_session_id
    generate_secret hex_of text_eq call query find_where first_below find insert modify serve
    signed_in_user current_user_id handle_create_token insert_token authenticate_ctx validate_token
    token_owner has_prefix trim_prefix
lets_in = refl

authenticate_ctx-Token_example :
    (id : ℕ) × (t : Token) × (find id with_token.db.tokens ≡ some t)
    × (t.user_id ≡ 1)
    × (t.revoked ≡ false)
    × (shown (codes "2a2b") ≡ shown t.secret)
authenticate_ctx-Token_example =
    authenticate_ctx-Token (shown (codes "2a2b")) [] with_token with_token 1 lets_in

-- The revocation of ada's token.
abbrev token : Token
token = record { user_id = 1; label = codes "mine"; secret = codes "2a2b"; revoked = false }

abbrev revoked : World
revoked = (handle_revoke_token ada with_token).1

present : find 1 with_token.db.tokens ≡ some token
unfolding handle_post_signup handle_post_login insert_user set_session set_session_id
    generate_secret hex_of text_eq call query find_where first_below find insert modify serve
    signed_in_user current_user_id handle_create_token insert_token
present = refl

revokes : handle_revoke_token ada with_token ≡ (ok (answered (pos 1)), revoked)
unfolding handle_post_signup handle_post_login insert_user set_session set_session_id
    generate_secret hex_of text_eq call query find_where first_below find insert modify serve
    signed_in_user current_user_id handle_create_token insert_token handle_revoke_token revoke_token
    parse_int neg_int ◌-ℤ◌
revokes = refl

token_rows :
    (k : ℕ)
    → find k with_token.db.tokens ≡ (if ltb k 2 then if k == 1 then some token else none else none)
unfolding handle_post_signup handle_post_login insert_user set_session set_session_id
    generate_secret hex_of text_eq call query find_where first_below find insert modify serve
    signed_in_user current_user_id handle_create_token insert_token
token_rows k = refl

only_row :
    (b c : Bool) (t x : Token)
    → (if b then if c then some t else none else none) ≡ some x
    → c ≡ true
only_row true true t x e = refl
only_row true false t x e = absurd (cc)
only_row false c t x e = absurd (cc)

only_token :
    (k : ℕ) (x : Token) → find k with_token.db.tokens ≡ some x → x.secret ≡ token.secret → k ≡ 1
only_token k x found same =
    (==_iff k 1).0 (only_row (ltb k 2) (k == 1) token x (sym (token_rows k) ∙ found))

handle_revoke_token-closes_example :
    (signed_in_user ada.cookie with_token.sessions ≡ some 1)
    × (token_owner (codes "2a2b") revoked.db ≡ none)
handle_revoke_token-closes_example =
    handle_revoke_token-closes ada with_token revoked (pos 1) token present only_token revokes

-- Ada's job.
abbrev detail : JobDetail
detail = record {
  job = job_view 1 (record {
    user_id = 1;
    original_name = codes "one.cnf";
    cnf_path = 5;
    max_workers = pos 2;
    status = pending;
    started = false;
  });
  result = result_view none;
  shards = [];
}

abbrev seen : World
seen = (handle_job_detail_json ada created).1

sees : (handle_job_detail_json ada created).0 ≡ ok (answered detail)
unfolding serve handle_post_signup handle_post_login handle_deposit change_wallet handle_create_job
    store_job charge_job record_job insert_job prepare_upload read_upload prepare_cnf text_eq call
    query find_where first_below find insert modify insert_user set_session set_session_id
    generate_secret hex_of current_user_id signed_in_user change_user_balance add_balance
    insert_transaction load_balance transaction write_file set_file parse_int upload_cost_satc ◌+ℤ◌
    ◌-ℤ◌ neg_int scan_lines split_lines scan_within unlines drop_cr byte_len trim_space trim_left
    trim_right has_prefix is_space handle_job_detail_json find_job_of shards_of positive_id
    satfarm.World.select_where
sees = refl

handle_job_detail_json-owner_example : IsShown ada created detail seen
handle_job_detail_json-owner_example =
    handle_job_detail_json-owner ada created seen detail (ap (λ reply. (reply, seen)) sees)
