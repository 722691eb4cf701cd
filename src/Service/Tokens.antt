-- ===== src/Service/Tokens.antt =====
-- What a token opens, from its creation to its revocation.
use satfarm.Prelude.{
  ℕ, ◌<◌, ◌/◌, ◌%◌, ◌≡◌, refl, ◌∙◌, true, false, not, List, [], ◌∷◌, Option, none, some, is_some,
  is_empty, ok, inl, inr, Option-cases, All, and_true, arith,
}
use satfarm.Text.{Text, codes, has_prefix, is_space}
use satfarm.Text.Spaces.{text_eq_refl, text_eq_sound}
use satfarm.Text.Blanks.{IsInk}
use satfarm.World.{find, find_where, insert, find_where-row, find_where-insert, Token, Db, World}
use satfarm.World.Exec.{constraint, query, call}
use satfarm.Web.{Request, is_post, answered}
use satfarm.Web.Session.{hex_digit, hex_of, signed_in_user}
use satfarm.Web.Tokens.{has_secret, insert_token, NewToken, handle_create_token}
use satfarm.Web.Bearer.{opens, token_owner, authenticate_worker_from_bearer}
use satfarm.Web.SignedIn.{Gives-generate_secret, hex_of_full}
use satfarm.World.Gives.{Gives, Gives-bind, Gives-or_raise, Gives-raise_if, Gives-call}
use satfarm.Web.Answers.{Answers, Answers-if, Answers-elim, Answers-Gives, of_answer}
use satfarm.Service.Auth.{trim_prefix, validate_token, authenticate_ctx}
use satfarm.Service.Access.{shown, IsWord, authenticate_ctx-worker}

-- Bytes are written in digits, so their text is a word.
hex_digit-IsInk : (n : ℕ) → n < 16 → IsInk (hex_digit n)
unfolding is_space
hex_digit-IsInk n lt = ground arith

pub hex_of-IsInk : (bytes : List ℕ) → All (λ b. b < 256) bytes → All IsInk (hex_of bytes)
unfolding hex_of
hex_of-IsInk [] h = tt
hex_of-IsInk (b ∷ bs) h = (
  hex_digit-IsInk (b / 16) (omega (arith, h.0)),
  (hex_digit-IsInk (b % 16) (omega arith), hex_of-IsInk bs h.1),
)

-- The user of a secret has a token with it, which is not revoked.
pub token_owner-Token :
    (secret : Text) (db : Db) (user : ℕ)
    → token_owner secret db ≡ some user
    → (id : ℕ) × (t : Token) × (find id db.tokens ≡ some t)
      × (t.user_id ≡ user)
      × (t.secret ≡ secret)
      × (t.revoked ≡ false)
unfolding token_owner
token_owner-Token secret db user e = elim (Option-cases (find_where (opens secret) db.tokens)) [
  | inl n ↦ let e' = rw n at e in absurd (cc)
  | inr (x, n) ↦
      let e' = rw n at e in
      let (row, pass) = find_where-row (opens secret) db.tokens x.0 n in
      let (same, live) = and_true _ _ pass in
      (x.0, x.1, row, cc, text_eq_sound x.1.secret secret same, ground arith)
]

-- The new row, which no older one shares its secret with.
IsInserted : ℕ → Text → Text → World → ℕ → World → Type 0
IsInserted user label secret w id w' =
    (find_where (has_secret secret) w.db.tokens ≡ none)
    × (w'.db.tokens
        ≡ insert (record { user_id = user; label = label; secret = secret; revoked = false })
            w.db.tokens)

none_of : {A : Type 0} (o : Option A) → is_some o ≡ false → o ≡ none
none_of none e = refl
none_of (some a) e = absurd (cc)

Gives-insert_token :
    (user : ℕ) (label secret : Text) (w : World)
    → Gives (IsInserted user label secret w) (insert_token user label secret w)
unfolding insert_token IsInserted
Gives-insert_token user label secret w = Gives-bind (Gives-call w) (λ _ w1 s1.
    Gives-or_raise (find user w1.db.users) constraint w1 _ (λ owner e.
      Gives-raise_if (is_some (find_where (has_secret secret) w1.db.tokens)) constraint w1 _
        (λ free. record {
          at = (
            rw (← s1.db) (none_of (find_where (has_secret secret) w1.db.tokens) free),
            rw (s1.db) (refl),
          );
        })))

IsIssued : List ℕ → Request → World → NewToken → World → Type 0
IsIssued bytes r w t w' =
    (user : ℕ) × (signed_in_user r.cookie w.sessions ≡ some user)
    × (t.secret ≡ hex_of bytes)
    × (token_owner t.secret w'.db ≡ some user)

inserted-owner :
    (user : ℕ) (label secret : Text) (w : World) (id : ℕ) (w' : World)
    → IsInserted user label secret w id w'
    → token_owner secret w'.db ≡ some user
unfolding IsInserted token_owner
inserted-owner user label secret w id w' (free, tokens) =
    let t : Token = record { user_id = user; label = label; secret = secret; revoked = false } in
    let mine : opens secret t ≡ true = rw (text_eq_refl secret) refl in
    rw
      (
        tokens,
        find_where-insert (has_secret secret) (opens secret) t w.db.tokens
            (λ x h. (and_true _ _ h).0) free mine,
      )
      refl

Answers-handle_create_token :
    (bytes : List ℕ) (r : Request) (w : World)
    → Answers (IsIssued bytes r w) (handle_create_token bytes r w)
unfolding handle_create_token IsIssued
Answers-handle_create_token bytes r w =
    let label = r.form (codes "label") in
    Answers-if (not (is_post r.method)) _ _ w (λ _. record { at = tt })
      (λ _.
        Answers-elim (signed_in_user r.cookie w.sessions) _ _ w (record { at = tt })
          (λ user who.
            Answers-if (not r.is_form) _ _ w (λ _. record { at = tt })
              (λ _.
                Answers-if (is_empty label) _ _ w (λ _. record { at = tt })
                  (λ _.
                    Answers-Gives (Gives-generate_secret bytes w) (λ e w1. record { at = tt })
                      (λ secret w1 p1.
                        Answers-Gives (Gives-insert_token user label secret w1)
                          (λ e w2. record { at = tt })
                          (λ id w2 p2. record {
                            at = (user, who, p1.0, inserted-owner user label secret w1 id w2 p2);
                          }))))))

-- In a world where no call fails, a secret of a user opens the worker service for the user.
authenticate-owner :
    (secret : Text) (user : ℕ) (w : World)
    → token_owner secret w.db ≡ some user
    → authenticate_ctx (some (shown secret ∷ [])) (record w { faults = [] })
      ≡ (ok user, record w { faults = [] })
unfolding authenticate_ctx validate_token query call has_prefix trim_prefix
authenticate-owner secret user w e = rw e refl

-- Where `HandleCreateToken` answers with a token, and its random bytes are bytes and not none, somebody
-- is signed in, and if no call fails, the token opens the worker service and the worker's pages of the
-- web server for that user.
pub handle_create_token-opens :
    (bytes : List ℕ) (r : Request) (w w' : World) (t : NewToken)
    → All (λ b. b < 256) bytes
    → is_empty bytes ≡ false
    → handle_create_token bytes r w ≡ (ok (answered t), w')
    → (user : ℕ) × (signed_in_user r.cookie w.sessions ≡ some user)
      × (authenticate_ctx (some (shown t.secret ∷ [])) (record w' { faults = [] })
          ≡ (ok user, record w' { faults = [] }))
      × (authenticate_worker_from_bearer (shown t.secret) (record w' { faults = [] })
          ≡ (ok (some user), record w' { faults = [] }))
unfolding IsIssued
handle_create_token-opens bytes r w w' t small full e =
    let (user, who, hex, owner) = of_answer (Answers-handle_create_token bytes r w) e in
    let opened = authenticate-owner t.secret user w' owner in
    let word : IsWord t.secret = rw hex (hex_of-IsInk bytes small, hex_of_full bytes full) in
    (
      user,
      who,
      opened,
      authenticate_ctx-worker t.secret [] (record w' { faults = [] }) word ∙ rw opened refl,
    )
