-- ===== src/Web/Bearer.antt =====
-- `authenticateWorkerFromBearer` of internal/web/handlers_worker.go.
use satfarm.Prelude.{
  ℕ, ◌+◌, leb, ◌&&◌, Bool, not, List, [], ◌∷◌, Option, none, some, Result, ok, err, map,
  if◌then◌else◌,
}
use satfarm.Text.{Text, codes, text_eq, fields}
use satfarm.World.{find_where, Token, Db}
use satfarm.World.Exec.{Error, Exec, pure, ◌>>=◌, query, attempt}

-- `strings.EqualFold` against a word of the letters b, e, a and r, which fold to nothing but
-- themselves in the other case.
abbrev pub lower_rune : ℕ → ℕ
lower_rune c = if leb 65 c && leb c 90 then c + 32 else c

abbrev pub equal_fold : Text → Text → Bool
equal_fold s t = text_eq (map lower_rune s) (map lower_rune t)

abbrev pub opens : Text → Token → Bool
opens secret t = text_eq t.secret secret && not t.revoked

abbrev pub owner_of : Option (ℕ × Token) → Option ℕ
owner_of none = none
owner_of (some (id, t)) = some t.user_id

-- `SELECT user_id FROM api_tokens WHERE secret = $1 AND revoked = FALSE`
unfoldable pub token_owner : Text → Db → Option ℕ
token_owner secret db = owner_of (find_where (opens secret) db.tokens)

-- The secret of the header: the second of two words.
abbrev pub of_words : List Text → Option Text
of_words [] = none
of_words (scheme ∷ []) = none
of_words (scheme ∷ secret ∷ []) = if equal_fold scheme (codes "Bearer") then some secret else none
of_words (scheme ∷ secret ∷ more ∷ rest) = none

unfoldable pub bearer_secret : Text → Option Text
bearer_secret header = of_words (fields header)

-- A failed query is logged; the caller sees no user.
abbrev pub or_none : Result Error (Option ℕ) → Option ℕ
or_none (ok user) = user
or_none (err e) = none

unfoldable pub authenticate_worker_from_bearer : Text → Exec (Option ℕ)
authenticate_worker_from_bearer header = elim (bearer_secret header) [
  | none ↦ pure none
  | some secret ↦ do r ← attempt (query (token_owner secret)); pure (or_none r)
]
