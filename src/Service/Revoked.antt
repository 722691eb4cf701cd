-- ===== src/Service/Revoked.antt =====
-- Who is let in by the worker service, and who no more.
use satfarm.Prelude.{
  ℕ, ◌≡◌, refl, sym, ap, ◌∙◌, true, false, not, ◌==◌, ==_iff, List, [], ◌∷◌, ◌++◌, Option, none,
  some, is_empty, Result, ok, err, inl, inr, Bool-cases, Option-cases, Result-cases, and_true,
  length, drop, arith,
}
use satfarm.Prelude.Int.{ℤ, pos, negsuc}
use satfarm.Text.{Text, codes, has_prefix, parse_int}
use satfarm.World.{find, find_id, key_of, find-modify, modify, Token, Db, World}
use satfarm.World.Exec.{Error, query, call, outcome}
use satfarm.Web.{Request, is_post, answered}
use satfarm.Web.Session.{signed_in_user}
use satfarm.Web.Tokens.{is_token_of, revoke_row, revoke_token, handle_revoke_token}
use satfarm.Web.Bearer.{token_owner}
use satfarm.World.Gives.{Gives, Gives-bind, Gives-if, Gives-call}
use satfarm.Web.Answers.{Answers, Answers-if, Answers-elim, Answers-Gives, of_answer}
use satfarm.Service.Auth.{bearer_prefix, trim_prefix, validate_token, checked, authenticate_ctx}
use satfarm.Service.Access.{shown}
use satfarm.Service.Tokens.{token_owner-Token}

prefix_split : (s p : Text) → has_prefix s p ≡ true → s ≡ p ++ drop (length p) s
unfolding has_prefix
prefix_split s [] h = refl
prefix_split [] (c ∷ p) h = absurd (cc)
prefix_split (d ∷ s) (c ∷ p) h =
    let (same, rest) = and_true _ _ h in
    rw (← (==_iff d c).0 same) (ap (λ x. d ∷ x) (prefix_split s p rest))

checked_user :
    (r : Result Error (Option ℕ)) (w w' : World) (user : ℕ)
    → checked r w ≡ (ok user, w')
    → r ≡ ok (some user)
checked_user (ok (some x)) w w' user e = cc
checked_user (ok none) w w' user e = absurd (cc)
checked_user (err x) w w' user e = absurd (cc)

query_value :
    (g : Db → Option ℕ) (w : World) (user : ℕ) → (query g w).0 ≡ ok (some user) → g w.db ≡ some user
unfolding query call
query_value g w user e = elim (Result-cases (outcome w.faults)) [
  | inl (u, o) ↦ let e' = rw o at e in cc
  | inr (x, o) ↦ let e' = rw o at e in absurd (cc)
]

-- Whom the worker service lets in is the owner of a token in the table that is not revoked, and the
-- first value of the metadata is "Bearer " and the text of that token.
pub authenticate_ctx-Token :
    (raw : Text) (more : List Text) (w w' : World) (user : ℕ)
    → authenticate_ctx (some (raw ∷ more)) w ≡ (ok user, w')
    → (id : ℕ) × (t : Token) × (find id w.db.tokens ≡ some t)
      × (t.user_id ≡ user)
      × (t.revoked ≡ false)
      × (raw ≡ shown t.secret)
unfolding authenticate_ctx validate_token trim_prefix
authenticate_ctx-Token raw more w w' user e = elim (Bool-cases (has_prefix raw bearer_prefix)) [
  | inr fails ↦ let e' = rw fails at e in absurd (cc)
  | inl fits ↦
      let e' = rw fits at e in
      let secret = drop (length bearer_prefix) raw in
      let got = checked_user (query (token_owner secret) w).0 _ w' user e' in
      let (id, t, row, owner, same, live) =
        token_owner-Token secret w.db user (query_value (token_owner secret) w user got) in
      (id, t, row, owner, live, rw same (prefix_split raw bearer_prefix fits))
]

-- The row with the id is the user's, and is revoked.
IsRevoked : ℤ → ℕ → World → World → Type 0
IsRevoked id user w w' =
    (is_token_of user (find_id id w.db.tokens) ≡ true)
    × (w'.db.tokens ≡ modify (key_of id) revoke_row w.db.tokens)

Gives-revoke_token :
    (id : ℤ) (user : ℕ) (w : World)
    → Gives (λ n w'. ((n == 0) ≡ false) → IsRevoked id user w w') (revoke_token id user w)
unfolding revoke_token IsRevoked
Gives-revoke_token id user w = Gives-bind (Gives-call w) (λ _ w1 s1.
    Gives-if (is_token_of user (find_id id w1.db.tokens)) _ _ w1
      (λ mine. record { at = λ some_row. (rw (← s1.db) mine, rw (s1.db) (refl)) })
      (λ other. record { at = λ some_row. absurd (cc) }))

IsClosed : Request → World → ℤ → World → Type 0
IsClosed r w id w' =
    (user : ℕ) × (signed_in_user r.cookie w.sessions ≡ some user) × IsRevoked id user w w'

Answers-handle_revoke_token :
    (r : Request) (w : World) → Answers (IsClosed r w) (handle_revoke_token r w)
unfolding handle_revoke_token IsClosed
Answers-handle_revoke_token r w =
    let text = r.form (codes "token_id") in
    Answers-if (not (is_post r.method)) _ _ w (λ _. record { at = tt })
      (λ _.
        Answers-elim (signed_in_user r.cookie w.sessions) _ _ w (record { at = tt })
          (λ user who.
            Answers-if (not r.is_form) _ _ w (λ _. record { at = tt })
              (λ _.
                Answers-if (is_empty text) _ _ w (λ _. record { at = tt })
                  (λ _.
                    Answers-elim (parse_int text) _ _ w (record { at = tt })
                      (λ id parsed.
                        Answers-Gives (Gives-revoke_token id user w) (λ e w1. record { at = tt })
                          (λ n w1 p1.
                            Answers-if (n == 0) _ _ w1 (λ _. record { at = tt })
                              (λ some_row. record { at = (user, who, p1 some_row) })))))))

owner_of_token :
    (user : ℕ) (o : Option Token) (t : Token)
    → o ≡ some t
    → is_token_of user o ≡ true
    → t.user_id ≡ user
owner_of_token user o t e h = let h' = rw e at h in (==_iff t.user_id user).0 h'

find_id-key :
    (id : ℤ) (t : Token) (w : World)
    → find_id id w.db.tokens ≡ some t
    → find (key_of id) w.db.tokens ≡ some t
find_id-key (pos n) t w e = e
find_id-key (negsuc n) t w e = absurd (cc)

-- Behind the revocation of a token, whose text no other token has, nobody is the owner of that text,
-- and it was the token of the user who is signed in.
pub handle_revoke_token-closes :
    (r : Request) (w w' : World) (id : ℤ) (t : Token)
    → find_id id w.db.tokens ≡ some t
    → ((k : ℕ) (x : Token) → find k w.db.tokens ≡ some x → x.secret ≡ t.secret → k ≡ key_of id)
    → handle_revoke_token r w ≡ (ok (answered id), w')
    → (signed_in_user r.cookie w.sessions ≡ some t.user_id) × (token_owner t.secret w'.db ≡ none)
unfolding IsClosed IsRevoked
handle_revoke_token-closes r w w' id t row alone e =
    let (user, who, (mine, tokens)) = of_answer (Answers-handle_revoke_token r w) e in
    (
      rw (owner_of_token user (find_id id w.db.tokens) t row mine) who,
      elim (Option-cases (token_owner t.secret w'.db)) [
        | inl closed ↦ closed
        | inr (owner, opened) ↦
            let (k, x, found, _, same, live) = token_owner-Token t.secret w'.db owner opened in
            let found' =
              sym (find-modify k (key_of id) revoke_row w.db.tokens) ∙ (rw tokens at found) in
            elim (Bool-cases (k == key_of id)) [
              | inl here ↦
                  let key = (==_iff k (key_of id)).0 here in
                  let now = rw (here, key, find_id-key id t w row) at found' in absurd (cc)
              | inr away ↦ let key = alone k x (rw away at found') same in absurd (ground arith)
            ]
      ],
    )
