-- ===== src/Web/SignedIn.antt =====
-- Who is signed in behind a login and a logout.
use satfarm.Prelude.{
  ℕ, ◌≡◌, refl, sym, ◌∙◌, Bool, true, false, not, ◌||◌, List, [], ◌∷◌, some, none, ok, is_empty,
}
use satfarm.Text.{Text, codes, text_eq}
use satfarm.Text.Spaces.{text_eq_refl, text_eq_sound}
use satfarm.World.{find, find_where, find_where-row, UserRow, World}
use satfarm.Web.{Request, is_post, answered}
use satfarm.Web.Session.{
  hex_of, generate_secret, set_session, set_session_id, delete_session_id, current_user_id,
  clear_session,
}
use satfarm.Web.Auth.{Bcrypt, is_named, handle_post_login, handle_logout}
use satfarm.World.Gives.{Gives, Gives-bind, Gives-call, Gives-query, Same}
use satfarm.Web.Answers.{Answers, Answers-if, Answers-elim, Answers-Gives, of_answer}

pub Gives-generate_secret :
    (bytes : List ℕ) (w : World)
    → Gives (λ id w'. (id ≡ hex_of bytes) × Same w w') (generate_secret bytes w)
unfolding generate_secret
Gives-generate_secret bytes w = Gives-bind (Gives-call w) (λ _ w1 s. record { at = (refl, s) })

-- The session that a login makes.
IsSession : List ℕ → ℕ → World → Text → World → Type 0
IsSession bytes user w id w' =
    (id ≡ hex_of bytes) × (w'.sessions ≡ set_session_id id user w.sessions)

Gives-set_session :
    (bytes : List ℕ) (user : ℕ) (w : World)
    → Gives (IsSession bytes user w) (set_session bytes user w)
unfolding set_session IsSession
Gives-set_session bytes user w =
    Gives-bind (Gives-generate_secret bytes w)
      (λ id w1 p. record { at = (p.0, rw (p.1.sessions) (refl)) })

-- The user whose name and password the form holds, with the session.
IsLogin : Bcrypt → List ℕ → Request → World → Text → World → Type 0
IsLogin bcrypt bytes r w cookie w' =
    (user : ℕ) × (row : UserRow) × (find user w.db.users ≡ some row)
    × (row.username ≡ r.form (codes "username"))
    × (bcrypt.is_match row.password_hash (r.form (codes "password")) ≡ true)
    × (cookie ≡ hex_of bytes)
    × (w'.sessions ≡ set_session_id cookie user w.sessions)

pub not-false : (b : Bool) → not b ≡ false → b ≡ true
not-false true e = refl
not-false false e = absurd (cc)

Answers-handle_post_login :
    (bcrypt : Bcrypt) (bytes : List ℕ) (r : Request) (w : World)
    → Answers (IsLogin bcrypt bytes r w) (handle_post_login bcrypt bytes r w)
unfolding handle_post_login IsLogin IsSession
Answers-handle_post_login bcrypt bytes r w =
    let username = r.form (codes "username") in
    let password = r.form (codes "password") in
    Answers-if (not (is_post r.method)) _ _ w (λ _. record { at = tt })
      (λ _.
        Answers-if (is_empty username || is_empty password) _ _ w (λ _. record { at = tt })
          (λ _.
            Answers-Gives (Gives-query (λ db. find_where (is_named username) db.users) w)
              (λ e w1. record { at = tt })
              (λ found w1 p1.
                Answers-elim found _ _ w1 (record { at = tt })
                  (λ user got.
                    Answers-if (not (bcrypt.is_match user.1.password_hash password)) _ _ w1
                      (λ _. record { at = tt })
                      (λ good.
                        Answers-Gives (Gives-set_session bytes user.0 w1)
                          (λ e w2. record { at = tt })
                          (λ id w2 p2.
                            let (row, named) =
                              find_where-row (is_named username) w.db.users user.0
                                (sym (p1.0) ∙ got) in
                            record {
                              at = (
                                user.0,
                                user.1,
                                row,
                                text_eq_sound user.1.username username named,
                                not-false _ good,
                                p2.0,
                                (rw (← p1.1.sessions) (p2.1)),
                              );
                            }))))))

pub hex_of_full : (bytes : List ℕ) → is_empty bytes ≡ false → is_empty (hex_of bytes) ≡ false
unfolding hex_of
hex_of_full [] h = absurd (cc)
hex_of_full (b ∷ bs) h = refl

-- Where a login answers with a cookie, and the random bytes are not empty, there is a user with the
-- name of the form whose hash matches the password of the form; the cookie is of that user from then
-- on, any other cookie is of the user of whom it was before, and behind a logout with the cookie it is
-- nobody's.
pub handle_post_login-session :
    (bcrypt : Bcrypt) (bytes : List ℕ) (r : Request) (w w' : World) (cookie other : Text)
    → is_empty bytes ≡ false
    → text_eq other cookie ≡ false
    → handle_post_login bcrypt bytes r w ≡ (ok (answered cookie), w')
    → (user : ℕ) × (row : UserRow) × (find user w.db.users ≡ some row)
      × (row.username ≡ r.form (codes "username"))
      × (bcrypt.is_match row.password_hash (r.form (codes "password")) ≡ true)
      × (current_user_id (some cookie) w'.sessions ≡ some user)
      × (current_user_id (some other) w'.sessions ≡ current_user_id (some other) w.sessions)
      × (current_user_id
            (some cookie)
            (handle_logout (record r { cookie = some cookie }) w').1.sessions
          ≡ none)
unfolding current_user_id handle_logout clear_session delete_session_id set_session_id hex_of
    IsLogin
handle_post_login-session bcrypt bytes r w w' cookie other some_bytes away e =
    let (user, row, found, name, pass, id, sessions) =
      of_answer (Answers-handle_post_login bcrypt bytes r w) e in
    let full : is_empty cookie ≡ false = rw id (hex_of_full bytes some_bytes) in
    (
      user,
      row,
      found,
      name,
      pass,
      rw (full, sessions, text_eq_refl cookie) (refl),
      rw (sessions, away) (refl),
      rw (full) (rw (text_eq_refl cookie) (refl)),
    )
