-- ===== src/Web/Tokens.antt =====
-- internal/web/handlers_tokens.go: the tokens that workers show.
use satfarm.Prelude.{
  ℕ, ◌==◌, Bool, true, false, not, List, Option, none, some, ok, is_empty, is_some, if◌then◌else◌,
}
use satfarm.Prelude.Int.{ℤ}
use satfarm.Text.{Text, codes, text_eq, parse_int}
use satfarm.World.{find, find_id, find_where, insert, modify, key_of, Token}
use satfarm.World.Exec.{
  constraint, Exec, pure, gets, or_raise, raise_if, put_world, ◌>>=◌, ◌>>◌, call,
}
use satfarm.Web.{Request, is_post, Reply, refuse, answer, or_reply}
use satfarm.Web.Session.{generate_secret, signed_in_user}

abbrev pub has_secret : Text → Token → Bool
has_secret secret t = text_eq t.secret secret

-- `INSERT INTO api_tokens … RETURNING id`: the user exists, and the secret is unique.
unfoldable pub insert_token : ℕ → Text → Text → Exec ℕ
insert_token user label secret = do
  call
  owner ← gets (λ w. find user w.db.users)
  or_raise owner constraint
  old ← gets (λ w. find_where (has_secret secret) w.db.tokens)
  raise_if (is_some old) constraint
  id ← gets (λ w. w.db.tokens.next)
  put_world (λ w. record w {
    db = record (w.db) {
      tokens =
          insert (record { user_id = user; label = label; secret = secret; revoked = false })
            w.db.tokens;
    };
  })
  pure id

pub record NewToken : Type 0 where
  pub id : ℕ
  pub label : Text
  pub secret : Text

-- `HandleCreateToken`
unfoldable pub handle_create_token : List ℕ → Request → Exec (Reply NewToken)
unfolding insert_token
handle_create_token bytes r =
    if not (is_post r.method) then refuse 405 (codes "method not allowed") else (do
      who ← gets (λ w. signed_in_user r.cookie w.sessions)
      elim who [
        | none ↦ refuse 401 (codes "unauthorized")
        | some user ↦
            let label = r.form (codes "label") in
            if not r.is_form
            then refuse 400 (codes "invalid form")
            else if is_empty label
            then refuse 400 (codes "invalid label")
            else or_reply (generate_secret bytes) (λ e. refuse 500 (codes "internal error"))
                (λ secret.
                  or_reply (insert_token user label secret)
                    (λ e. refuse 500 (codes "could not create token"))
                    (λ id. answer (record { id = id; label = label; secret = secret })))
      ])

abbrev pub is_token_of : ℕ → Option Token → Bool
is_token_of user none = false
is_token_of user (some t) = t.user_id == user

abbrev pub revoke_row : Token → Token
revoke_row t = record t { revoked = true }

-- `UPDATE api_tokens SET revoked = TRUE WHERE id = $1 AND user_id = $2`, and the number of rows.
unfoldable pub revoke_token : ℤ → ℕ → Exec ℕ
revoke_token id user = do
  call
  row ← gets (λ w. find_id id w.db.tokens)
  if is_token_of user row
      then (λ w. (
        ok 1,
        record w { db = record (w.db) { tokens = modify (key_of id) revoke_row w.db.tokens } },
      ))
      else pure 0

-- `HandleRevokeToken`
unfoldable pub handle_revoke_token : Request → Exec (Reply ℤ)
unfolding revoke_token
handle_revoke_token r =
    if not (is_post r.method) then refuse 405 (codes "method not allowed") else (do
      who ← gets (λ w. signed_in_user r.cookie w.sessions)
      elim who [
        | none ↦ refuse 401 (codes "unauthorized")
        | some user ↦
            let id = r.form (codes "token_id") in
            if not r.is_form
            then refuse 400 (codes "invalid form")
            else if is_empty id
            then refuse 400 (codes "missing token_id")
            else elim (parse_int id) [
              | none ↦ refuse 400 (codes "invalid token_id")
              | some n ↦
                  or_reply (revoke_token n user) (λ e. refuse 500 (codes "could not revoke token"))
                    (λ rows. if rows == 0 then refuse 404 (codes "token not found") else answer n)
            ]
      ])
