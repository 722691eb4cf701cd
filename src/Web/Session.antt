-- ===== src/Web/Session.antt =====
-- internal/web/session.go: sessions, and the random names of sessions and tokens.
use satfarm.Prelude.{
  ℕ, ◌+◌, ◌/◌, ◌%◌, ltb, List, [], ◌∷◌, Option, none, some, is_empty, if◌then◌else◌, ◌==◌,
}
use satfarm.Text.{Text, text_eq}
use satfarm.World.Exec.{Exec, pure, put_world, ◌>>=◌, ◌>>◌, call}
use satfarm.Web.{Request}

-- `hex.EncodeToString`
abbrev pub hex_digit : ℕ → ℕ
hex_digit n = if ltb n 10 then 48 + n else 87 + n

unfoldable pub hex_of : List ℕ → Text
hex_of [] = []
hex_of (b ∷ bs) = hex_digit (b / 16) ∷ hex_digit (b % 16) ∷ hex_of bs

-- `generateSessionID`, and `generateTokenSecret` of internal/web/handlers_tokens.go, with the bytes
-- that `rand.Read` gives.
unfoldable pub generate_secret : List ℕ → Exec Text
unfolding hex_of
generate_secret bytes = do call; pure (hex_of bytes)

abbrev pub SessionStore : Type 0
SessionStore = Text → Option ℕ

unfoldable pub set_session_id : Text → ℕ → SessionStore → SessionStore
set_session_id id user sessions other = if text_eq other id then some user else sessions other

unfoldable pub delete_session_id : Text → SessionStore → SessionStore
delete_session_id id sessions other = if text_eq other id then none else sessions other

-- `setSession`; the result is the cookie.
unfoldable pub set_session : List ℕ → ℕ → Exec Text
unfolding generate_secret set_session_id
set_session bytes user = do
  id ← generate_secret bytes
  put_world (λ w. record w { sessions = set_session_id id user w.sessions })
  pure id

-- `getCurrentUserID`
unfoldable pub current_user_id : Option Text → SessionStore → Option ℕ
current_user_id none sessions = none
current_user_id (some c) sessions = if is_empty c then none else sessions c

-- The same, with `userID == 0` refused.
unfoldable pub signed_in_user : Option Text → SessionStore → Option ℕ
unfolding current_user_id
signed_in_user cookie sessions = elim (current_user_id cookie sessions) [
  | none ↦ none
  | some user ↦ if user == 0 then none else some user
]

-- `clearSession`
abbrev pub forget : Option Text → SessionStore → SessionStore
forget none sessions = sessions
forget (some c) sessions = if is_empty c then sessions else delete_session_id c sessions

unfoldable pub clear_session : Request → Exec (Unit {0})
unfolding delete_session_id
clear_session r = put_world (λ w. record w { sessions = forget r.cookie w.sessions })
