-- ===== src/Sound/Visits.antt =====
-- The requests to the web server that leave the files alone.
use satfarm.Prelude.{ℕ, not, ◌||◌, List, Option, is_empty, is_some, inl, inr, Option-cases, refl}
use satfarm.Text.{Text, codes, text_eq}
use satfarm.World.{find_where, FilePath, World}
use satfarm.World.Exec.{constraint}
use satfarm.Web.{Request, is_post}
use satfarm.Web.Session.{set_session, generate_secret, clear_session}
use satfarm.Web.Auth.{
  Bcrypt, is_taken, is_named, insert_user, handle_post_signup, handle_post_login, handle_logout,
}
use satfarm.Ledger.Books.{insert-HasBooks}
use satfarm.Sound.Changes.{IsSound-users}
use satfarm.Sound.Stays.{
  Stays, Leaves, Leaves-bind, Leaves-reply, Leaves-if, Leaves-raise_if, Stays-tables, Leaves-call,
  Leaves-query,
}

module _ (path : FilePath) (promise : Type 0) (f : FilePath → Option Text) where
  abbrev S : World → Type 0
  S w = Stays path promise f w

  Leaves-insert_user :
      (username email hash : Text) (w : World) → S w → Leaves S (insert_user username email hash w)
  unfolding insert_user
  Leaves-insert_user username email hash w s =
      Leaves-bind (Leaves-call path promise f w s) (λ _ w1 s1.
        Leaves-raise_if (is_some (find_where (is_taken username email) w1.db.users)) constraint w1 _
          s1
          (λ free. record {
            at = Stays-tables path promise f w1 _ s1 refl (
                IsSound-users f w1.db s1.sound _ _
                  (insert-HasBooks w1.db.users w1.db.transactions s1.sound.books _ refl));
          }))

  pub Leaves-handle_post_signup :
      (bcrypt : Bcrypt) (salt : Text) (r : Request) (w : World)
      → S w
      → Leaves S (handle_post_signup bcrypt salt r w)
  unfolding handle_post_signup
  Leaves-handle_post_signup bcrypt salt r w s =
      let username = r.form (codes "username") in
      let email = r.form (codes "email") in
      let password = r.form (codes "password") in
      let confirm = r.form (codes "confirm_password") in
      Leaves-if (not (is_post r.method)) _ _ w (record { at = s })
        (Leaves-if (is_empty username || is_empty email || is_empty password || is_empty confirm) _
          _ w (record { at = s })
          (Leaves-if (not (text_eq password confirm)) _ _ w (record { at = s })
            (elim (Option-cases (bcrypt.generate salt password)) [
              | inl e ↦ rw e (record { at = s })
              | inr (hash, e) ↦ rw e (
                  Leaves-reply (Leaves-insert_user username email hash w s)
                    (λ e w1 s1. record { at = s1 }) (λ _ w1 s1. record { at = s1 }))
            ])))

  pub Leaves-generate_secret :
      (bytes : List ℕ) (w : World) → S w → Leaves S (generate_secret bytes w)
  unfolding generate_secret
  Leaves-generate_secret bytes w s =
      Leaves-bind (Leaves-call path promise f w s) (λ _ w1 s1. record { at = s1 })

  Leaves-set_session :
      (bytes : List ℕ) (user : ℕ) (w : World) → S w → Leaves S (set_session bytes user w)
  unfolding set_session
  Leaves-set_session bytes user w s =
      Leaves-bind (Leaves-generate_secret bytes w s)
        (λ _ w1 s1. record { at = Stays-tables path promise f w1 _ s1 refl s1.sound })

  pub Leaves-clear_session : (r : Request) (w : World) → S w → Leaves S (clear_session r w)
  unfolding clear_session
  Leaves-clear_session r w s = record { at = Stays-tables path promise f w _ s refl s.sound }

  pub Leaves-handle_post_login :
      (bcrypt : Bcrypt) (bytes : List ℕ) (r : Request) (w : World)
      → S w
      → Leaves S (handle_post_login bcrypt bytes r w)
  unfolding handle_post_login
  Leaves-handle_post_login bcrypt bytes r w s =
      let username = r.form (codes "username") in
      let password = r.form (codes "password") in
      Leaves-if (not (is_post r.method)) _ _ w (record { at = s })
        (Leaves-if (is_empty username || is_empty password) _ _ w (record { at = s })
          (Leaves-reply
            (Leaves-query path promise f (λ db. find_where (is_named username) db.users) w s)
            (λ e w1 s1. record { at = s1 })
            (λ found w1 s1. elim (Option-cases found) [
              | inl e ↦ rw e (record { at = s1 })
              | inr (user, e) ↦ rw e (
                  Leaves-if (not (bcrypt.is_match user.1.password_hash password)) _ _ w1
                    (record { at = s1 })
                    (Leaves-reply (Leaves-set_session bytes user.0 w1 s1)
                      (λ e w2 s2. record { at = s2 }) (λ _ w2 s2. record { at = s2 })))
            ])))

  pub Leaves-handle_logout : (r : Request) (w : World) → S w → Leaves S (handle_logout r w)
  unfolding handle_logout
  Leaves-handle_logout r w s =
      Leaves-bind (Leaves-clear_session r w s) (λ _ w1 s1. record { at = s1 })
