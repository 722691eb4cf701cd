-- ===== src/Service/Access.antt =====
-- Tokens and those who show them, at the web server and at the worker service.
use satfarm.Prelude.{
  ℕ, ◌≡◌, refl, ap, ◌∙◌, true, false, List, [], ◌∷◌, ◌++◌, Option, none, some, is_empty, Result, ok,
  err, All,
}
use satfarm.Text.{Text, codes, text_eq, is_space, has_prefix}
use satfarm.Text.Blanks.{IsInk, fields_pair}
use satfarm.World.{World}
use satfarm.World.Exec.{Error, Exec, query}
use satfarm.Web.Bearer.{
  of_words, token_owner, bearer_secret, or_none, authenticate_worker_from_bearer,
}
use satfarm.Service.Auth.{bearer_prefix, trim_prefix, validate_token, checked, authenticate_ctx}

-- The header that shows a secret.
abbrev pub shown : Text → Text
shown secret = codes "Bearer " ++ secret

-- A secret that `strings.Fields` does not cut.
abbrev pub IsWord : Text → Type 0
IsWord secret = All IsInk secret × (is_empty secret ≡ false)

bearer_secret-shown : (secret : Text) → IsWord secret → bearer_secret (shown secret) ≡ some secret
unfolding bearer_secret
bearer_secret-shown [] (ink, full) = absurd (cc)
bearer_secret-shown (c ∷ s) (ink, full) =
    let bearer : All IsInk (codes "Bearer") =
      unfold is_space in (refl, (refl, (refl, (refl, (refl, (refl, tt)))))) in
    ap of_words (fields_pair b'B' c (codes "earer") s bearer ink) ∙ unfold text_eq in refl

trim_shown :
    (secret : Text)
    → (has_prefix (shown secret) bearer_prefix ≡ true)
      × (trim_prefix bearer_prefix (shown secret) ≡ secret)
unfolding has_prefix trim_prefix
trim_shown secret = (refl, refl)

-- What `authenticateWorkerFromBearer` makes of the result of `authenticateCtx`: an error is no user.
abbrev pub user_of : Result Error ℕ → Option ℕ
user_of (ok user) = some user
user_of (err e) = none

checked-user_of : (r : Result Error (Option ℕ)) (w : World) → user_of (checked r w).0 ≡ or_none r
checked-user_of (ok none) w = refl
checked-user_of (ok (some user)) w = refl
checked-user_of (err e) w = refl

checked_world : (r : Result Error (Option ℕ)) (w : World) → (checked r w).1 ≡ w
checked_world (ok none) w = refl
checked_world (ok (some user)) w = refl
checked_world (err e) w = refl

elim_some :
    {A B : Type 0} (o : Option A) (m : Exec B) (k : A → Exec B) (a : A) (w : World)
    → o ≡ some a
    → (elim o as (λ _. Exec B) [ none ↦ m | some x ↦ k x ]) w ≡ k a w
elim_some o m k a w e = rw e refl

agree :
    (header secret : Text) (more : List Text) (w : World)
    → bearer_secret header ≡ some secret
    → has_prefix header bearer_prefix ≡ true
    → trim_prefix bearer_prefix header ≡ secret
    → authenticate_worker_from_bearer header w
      ≡ (let r = authenticate_ctx (some (header ∷ more)) w in (ok (user_of r.0), r.1))
unfolding authenticate_worker_from_bearer authenticate_ctx validate_token
agree header secret more w found has trim =
    let q = query (token_owner secret) w in
    elim_some (bearer_secret header) _ _ secret w found
    ∙ rw (has, trim) (rw (checked-user_of q.0 q.1, checked_world q.0 q.1) refl)

-- A token whose text is not empty and has no white space, shown as "Bearer " and the text, opens the
-- web server for a user if and only if it opens the worker service for that user, and both calls leave
-- the same world.
pub authenticate_ctx-worker :
    (secret : Text) (more : List Text) (w : World)
    → IsWord secret
    → authenticate_worker_from_bearer (shown secret) w
      ≡ (let r = authenticate_ctx (some (shown secret ∷ more)) w in (ok (user_of r.0), r.1))
authenticate_ctx-worker secret more w word =
    let (has, trim) = trim_shown secret in
    agree (shown secret) secret more w (bearer_secret-shown secret word) has trim
