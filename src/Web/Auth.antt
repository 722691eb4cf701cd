-- ===== src/Web/Auth.antt =====
-- internal/web/handlers_auth.go, with `hashPassword` and `checkPasswordHash` of
-- internal/web/server.go.
use satfarm.Prelude.{ℕ, Bool, not, ◌||◌, List, Option, none, some, is_empty, is_some, if◌then◌else◌}
use satfarm.Prelude.Int.{pos}
use satfarm.Text.{Text, codes, text_eq}
use satfarm.World.{find_where, insert, UserRow}
use satfarm.World.Exec.{constraint, Exec, pure, gets, raise_if, put_world, ◌>>=◌, ◌>>◌, call, query}
use satfarm.Web.{Request, is_post, Reply, redirected, refuse, answer, or_reply}
use satfarm.Web.Session.{set_session, clear_session}

-- `GenerateFromPassword`, with the salt that it draws, and `CompareHashAndPassword`.
pub record Bcrypt : Type 0 where
  pub generate : Text → Text → Option Text
  pub is_match : Text → Text → Bool

abbrev pub is_taken : Text → Text → UserRow → Bool
is_taken username email u = text_eq u.username username || text_eq u.email email

-- `INSERT INTO users`; the name and the address are unique.
unfoldable pub insert_user : Text → Text → Text → Exec (Unit {0})
insert_user username email hash = do
  call
  old ← gets (λ w. find_where (is_taken username email) w.db.users)
  raise_if (is_some old) constraint
  put_world (λ w. record w {
    db = record (w.db) {
      users =
          insert
            (record {
              username = username;
              email = email;
              password_hash = hash;
              balance_satc = pos 0;
            })
            w.db.users;
    };
  })

abbrev signed_up : Text → Text → Text → Exec (Reply Text)
signed_up username email hash =
    or_reply (insert_user username email hash)
      (λ e. refuse 400 (codes "Could not create account. Username or email may already be taken."))
      (λ _. answer (codes "/login"))

-- `HandlePostSignup`; the answer is where to go.
unfoldable pub handle_post_signup : Bcrypt → Text → Request → Exec (Reply Text)
unfolding insert_user
handle_post_signup bcrypt salt r =
    let username = r.form (codes "username") in
    let email = r.form (codes "email") in
    let password = r.form (codes "password") in
    let confirm = r.form (codes "confirm_password") in
    if not (is_post r.method)
    then refuse 405 (codes "Method not allowed")
    else if is_empty username || is_empty email || is_empty password || is_empty confirm
    then refuse 400 (codes "Please fill out all fields.")
    else if not (text_eq password confirm)
    then refuse 400 (codes "Passwords do not match.")
    else elim (bcrypt.generate salt password) [
      | none ↦ refuse 500 (codes "Server error.")
      | some hash ↦ signed_up username email hash
    ]

abbrev pub is_named : Text → UserRow → Bool
is_named username u = text_eq u.username username

abbrev pub wrong_login : Text
wrong_login = codes "Invalid username or password."

-- `HandlePostLogin`; the answer is the cookie. The page goes on to "/dashboard".
unfoldable pub handle_post_login : Bcrypt → List ℕ → Request → Exec (Reply Text)
handle_post_login bcrypt bytes r =
    let username = r.form (codes "username") in
    let password = r.form (codes "password") in
    if not (is_post r.method)
    then refuse 405 (codes "Method not allowed")
    else if is_empty username || is_empty password
    then refuse 400 (codes "Username and password are required.")
    else or_reply (query (λ db. find_where (is_named username) db.users))
        (λ e. refuse 500 (codes "Server error."))
        (λ found. elim found [
          | none ↦ refuse 401 wrong_login
          | some user ↦
              if not (bcrypt.is_match user.1.password_hash password)
              then refuse 401 wrong_login
              else or_reply (set_session bytes user.0) (λ e. refuse 500 (codes "Server error."))
                  answer
        ])

-- `HandleLogout`
unfoldable pub handle_logout : Request → Exec (Reply (Unit {0}))
handle_logout r = do clear_session r; pure (redirected (codes "/login"))
