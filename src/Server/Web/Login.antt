-- ===== src/Server/Web/Login.antt =====
-- control_station_lite/server/web/auth.py, and the users of the pages of deps.py. A page takes the
-- committed tables and gives back those that it commits.
use csl.Prelude.{
  on_error, ◌>>=◌, Result, nat_eq, if◌then◌else◌, Bool, Option, ℕ, Text, Text_Eq, codes, [], ◌∷◌,
  ◌++◌, none, some, true, false, ok, err, ◌==◌,
}
use csl.Server.Auth.Tokens.{decode_access_token, revoke_jti, decode_refresh_token, Security}
use csl.Server.Core.Errors.{uncaught, http_exception, HttpException}
use csl.Server.Auth.Sessions.{active_user, issue, User, admitted, TokenResponse, Tables}

-- What the pages answer with: a redirect with status 302, one with status 303, one with its
-- status, a message and the category of it, a template with its status, and text without a template.
pub data Response : Type 0 where
  redirect : Text → Response
  moved : Text → Response
  see_other : ℕ → Text → Text → Text → Response
  page : ℕ → Text → Response
  html : Text → Response

-- The value of the cookie `_flash` that `set_flash` writes and `read_flash` reads.
abbrev bar : ℕ
bar = b'|'

unfoldable pub set_flash : Text → Text → Text
set_flash message category = category ++ bar ∷ message

-- `"|" in raw` and `raw.split("|", 1)`
unfoldable pub split_bar : Text → Option (Text × Text)
split_bar [] = none
split_bar (c ∷ raw) =
    let rest = split_bar raw in
    if nat_eq c bar
    then some ([], raw)
    else elim rest [ none ↦ none | some (before, behind) ↦ some (c ∷ before, behind) ]

unfoldable pub read_flash : Option Text → Option (Text × Text)
read_flash none = none
read_flash (some raw) = split_bar raw

unfoldable pub redirect_with_flash : Text → Text → Text → ℕ → Response
redirect_with_flash url message category status_code = see_other status_code url message category

-- The redirect of `web_current_user` to /login.
abbrev pub to_login : HttpException
to_login = http_exception 302

module _ (sec : Security) where
  unfoldable pub web_current_user : Option Text → ℕ → Tables → Result HttpException User
  web_current_user none now t = err to_login
  web_current_user (some csl_access) now t = do
    (user_id, role) ← on_error (λ e. to_login) (decode_access_token sec now csl_access)
    on_error (λ e. to_login) (active_user user_id t.users)

  unfoldable pub web_require_admin : Option Text → ℕ → Tables → Result HttpException User
  web_require_admin csl_access now t = do
    user ← web_current_user csl_access now t
    if user.role == codes "admin" then ok user else err (http_exception 403)

  -- Whether a cookie is there and not empty
  abbrev is_cookie_set : Option Text → Bool
  is_cookie_set (some (c ∷ cookie)) = true
  is_cookie_set _ = false

  unfoldable pub login_page : Option Text → Response
  login_page csl_access =
      if is_cookie_set csl_access then redirect (codes "/") else page 200 (codes "login.html")

  -- The answer, the cookies that it sets, and the rows. `jti` is the number of the refresh token to come.
  unfoldable pub login_submit :
      Text → Text → Text → ℕ → Tables → Response × Option TokenResponse × Tables
  login_submit username password jti now t = elim (admitted sec username password t.users) [
    | none ↦ (page 401 (codes "login.html"), none, t)
    | some user ↦
        let (tokens, rows) = issue sec user jti now t.refresh_tokens in
        (redirect (codes "/"), some tokens, record t { refresh_tokens = rows })
  ]

  abbrev logged_out : Response
  logged_out =
      redirect_with_flash (codes "/login") (codes "You have been logged out.") (codes "info") 302

  -- Both cookies are cleared. Several rows with one hash raise.
  unfoldable pub web_logout : Option Text → ℕ → Tables → Result HttpException Response × Tables
  web_logout none now t = (ok logged_out, t)
  web_logout (some refresh_token) now t = elim (decode_refresh_token sec now refresh_token) [
    | err e ↦ (ok logged_out, t)
    | ok (user_id, jti) ↦ elim (revoke_jti sec jti t.refresh_tokens) [
      | err e ↦ (err uncaught, t)
      | ok rows ↦ (ok logged_out, record t { refresh_tokens = rows })
    ]
  ]
