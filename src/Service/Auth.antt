-- ===== src/Service/Auth.antt =====
-- internal/grpc/auth.go and internal/grpc/authinfo.go: who opens a stream.
use satfarm.Prelude.{
  ℕ, not, List, [], ◌∷◌, Option, none, some, Result, ok, err, if◌then◌else◌, drop, length,
}
use satfarm.Text.{Text, codes, has_prefix}
use satfarm.World.Exec.{
  unauthenticated, internal_error, Error, Exec, pure, raise, ◌>>=◌, query, attempt,
}
use satfarm.Web.Bearer.{token_owner}
use satfarm.Service.{connect}

-- `validateToken`: the same query as the web server's.
unfoldable pub validate_token : Text → Exec (Option ℕ)
validate_token secret = query (token_owner secret)

abbrev pub bearer_prefix : Text
bearer_prefix = codes "Bearer "

-- `strings.TrimPrefix` behind `strings.HasPrefix`.
unfoldable pub trim_prefix : Text → Text → Text
trim_prefix prefix text = drop (length prefix) text

abbrev pub checked : Result Error (Option ℕ) → Exec ℕ
checked (err e) = raise internal_error
checked (ok none) = raise unauthenticated
checked (ok (some user)) = pure user

-- `authenticateCtx`, with the values of `authorization` in the metadata of the call, where there is
-- any metadata; the result is the user of `AuthInfo`.
unfoldable pub authenticate_ctx : Option (List Text) → Exec ℕ
authenticate_ctx none = raise unauthenticated
authenticate_ctx (some []) = raise unauthenticated
authenticate_ctx (some (raw ∷ more)) =
    if not (has_prefix raw bearer_prefix)
    then raise unauthenticated
    else (do r ← attempt (validate_token (trim_prefix bearer_prefix raw)); checked r)

-- `AuthStreamInterceptor` around `Work`, which finds the user in the context.
unfoldable pub open_stream : Option (List Text) → Exec ℕ
open_stream metadata = do user ← authenticate_ctx metadata; connect user
