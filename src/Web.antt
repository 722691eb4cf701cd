-- ===== src/Web.antt =====
-- internal/web: what the handlers take of a request, and what they answer. A request is what
-- net/http and chi hand over: its cookie, its form, its files, its URL parameters.
pub mod Session
pub mod Auth
pub mod Tokens
pub mod Wallet
pub mod Uploads
pub mod Bearer
pub mod Worker
pub mod Jobs
pub mod Detail
pub mod Dashboard
pub mod Router
pub mod Answers
pub mod SignedIn
pub mod Paid
pub mod History
pub mod Posted
pub mod Owned
use satfarm.Prelude.{ℕ, Bool, true, false, Option, ok, err, Result}
use satfarm.Text.{Text}
use satfarm.World.{World}
use satfarm.World.Exec.{Error, Exec, pure}

pub data Method : Type 0 where
  get_method post_method other_method : Method

abbrev pub is_post : Method → Bool
is_post post_method = true
is_post _ = false

abbrev pub is_get : Method → Bool
is_get get_method = true
is_get _ = false

-- A file of a multipart form.
pub record Upload : Type 0 where
  pub filename : Text
  pub content : Text

pub record Request : Type 0 where
  pub method : Method
  -- The cookie `session_id`.
  pub cookie : Option Text
  -- The header `Authorization`, empty where there is none.
  pub authorization : Text
  -- Whether `ParseForm` or `ParseMultipartForm` takes the body, and what `FormValue`, `FormFile` and
  -- `chi.URLParam` find in it; a missing value is empty.
  pub is_form : Bool
  pub form : Text → Text
  pub file : Text → Option Upload
  pub url_param : Text → Text

-- `jsonError` or `http.Error`, with a text or one that tells of an error; `http.Redirect`; and a body.
pub data Reply (B : Type 0) : Type 0 where
  refused : (status : ℕ) → Text → Reply B
  refused_with : (status : ℕ) → Error → Reply B
  redirected : Text → Reply B
  answered : B → Reply B

module _ {B : Type 0} where
  abbrev pub refuse : ℕ → Text → Exec (Reply B)
  refuse status why = pure (refused status why)

  abbrev pub answer : B → Exec (Reply B)
  answer b = pure (answered b)

  -- `if err != nil { …; return }` behind a call.
  abbrev pub reply_of :
      {A : Type 0}
      → Result Error A × World
      → (Error → Exec (Reply B))
      → (A → Exec (Reply B))
      → Result Error (Reply B) × World
  reply_of (ok a, w) fix k = k a w
  reply_of (err e, w) fix k = fix e w

  abbrev pub or_reply :
      {A : Type 0} → Exec A → (Error → Exec (Reply B)) → (A → Exec (Reply B)) → Exec (Reply B)
  or_reply m fix k w = reply_of (m w) fix k
