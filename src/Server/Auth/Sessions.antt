-- ===== src/Server/Auth/Sessions.antt =====
-- The endpoints of control_station_lite/server/api/auth.py and the dependencies of
-- server/auth/dependencies.py. A call takes the committed tables and gives back those that it
-- commits: what it has not committed when it raises is lost. The cookie is the part of the answer
-- that carries the refresh token.
use csl.Prelude.{
  Dict, ◌>>=◌, ◌>>◌, Text_Eq, ℕ_Eq, [], not, ◌==◌, ◌||◌, ◌++◌, if◌then◌else◌, err, ok, ◌∷◌, some,
  none, codes, Result, Option, List, ℕ, Text, Bool, true, false,
}
use csl.Server.Auth.Tokens.{
  decode_access_token, validate_refresh_jti, forbidden, revoke_jti, invalid_credentials,
  decode_refresh_token, store_refresh_token, token_invalid, create_refresh_token,
  create_access_token, AuthError, RefreshToken, Security,
}

pub record User : Type 0 where
  pub id : ℕ
  pub username : Text
  pub password_hash : Text
  pub role : Text
  pub disabled : Bool

-- The values that the details of an audit row hold, as JSON.
pub data AuditValue : Type 0 where
  text_value : Text → AuditValue
  number_value : ℕ → AuditValue
  flag_value : Bool → AuditValue

-- A row of `audit_log`. The target is a number, a name or nothing.
pub record AuditRow : Type 0 where
  pub timestamp : ℕ
  pub user_id : Option ℕ
  pub action : Text
  pub target_type : Text
  pub target_id : Option AuditValue
  pub result : Text
  pub details : Dict Text AuditValue

pub record Tables : Type 0 where
  pub users : List User
  pub refresh_tokens : List RefreshToken
  pub audit_log : List AuditRow

pub record TokenResponse : Type 0 where
  pub access_token : Text
  pub cookie : Text

-- The names and the numbers of the users are unique, so that at most one row is found.
unfoldable pub user_named : Text → List User → Option User
user_named name [] = none
user_named name (u ∷ users) = if u.username == name then some u else user_named name users

unfoldable pub user_with_id : ℕ → List User → Option User
user_with_id i [] = none
user_with_id i (u ∷ users) = if u.id == i then some u else user_with_id i users

abbrev id_of : Option User → Option ℕ
id_of none = none
id_of (some u) = some u.id

-- `record_audit` of server/core/audit.py. Its flag `commit` says whether the row is committed at once,
-- or with what the caller commits.
abbrev pub record_audit :
    ℕ → Text → Text → Option AuditValue → Text → Option ℕ → Dict Text AuditValue → AuditRow
record_audit now action target_type target_id result user_id details = record {
  timestamp = now;
  user_id = user_id;
  action = action;
  target_type = target_type;
  target_id = target_id;
  result = result;
  details = details;
}

abbrev numbered_value : Option ℕ → Option AuditValue
numbered_value none = none
numbered_value (some n) = some (number_value n)

abbrev audit_login : ℕ → Option User → Bool → Text → AuditRow
audit_login now user success name =
    record_audit now (codes "auth.login") (codes "user") (numbered_value (id_of user))
      (if success then codes "success" else codes "failure") (id_of user)
      ((codes "username", text_value name) ∷ [])

abbrev audit_logout : ℕ → Option ℕ → AuditRow
audit_logout now user_id =
    record_audit now (codes "auth.logout") (codes "user") (numbered_value user_id) (codes "success")
      user_id []

abbrev pub active_user : ℕ → List User → Result AuthError User
active_user i users = elim (user_with_id i users) [
  | none ↦ err token_invalid
  | some u ↦ if u.disabled then err token_invalid else ok u
]

module _ (sec : Security) where
  -- Both new tokens of a user, and the table with the row of the refresh token.
  unfoldable pub issue : User → Text → ℕ → List RefreshToken → TokenResponse × List RefreshToken
  issue u jti now rows = (
    record {
      access_token = create_access_token sec u.id u.role now;
      cookie = create_refresh_token sec u.id jti now;
    },
    store_refresh_token sec u.id jti now rows,
  )

  -- The user that `login` lets in.
  unfoldable pub admitted : Text → Text → List User → Option User
  admitted name password users = elim (user_named name users) [
    | none ↦ none
    | some u ↦
        if u.disabled || not (sec.verify_password password u.password_hash) then none else some u
  ]

  -- `jti` is the number of the refresh token to come.
  unfoldable pub login : Text → Text → Text → ℕ → Tables → Result AuthError TokenResponse × Tables
  login name password jti now t = elim (admitted name password t.users) [
    | none ↦ (
      err invalid_credentials,
      record t {
        audit_log = t.audit_log ++ (audit_login now (user_named name t.users) false name ∷ []);
      },
    )
    | some u ↦
        let (r, rows) = issue u jti now t.refresh_tokens in
        (
          ok r,
          record t {
            refresh_tokens = rows;
            audit_log = t.audit_log ++ (audit_login now (some u) true u.username ∷ []);
          },
        )
  ]

  -- The body of `refresh`: the answer and the rows to commit.
  unfoldable pub rotate :
      Option Text → Text → ℕ → Tables → Result AuthError (TokenResponse × List RefreshToken)
  rotate none jti now t = err token_invalid
  rotate (some token) jti now t = do
    (user_id, old_jti) ← decode_refresh_token sec now token
    validate_refresh_jti sec old_jti now t.refresh_tokens
    user ← active_user user_id t.users
    rows ← revoke_jti sec old_jti t.refresh_tokens
    ok (issue user jti now rows)

  unfoldable pub refresh : Option Text → Text → ℕ → Tables → Result AuthError TokenResponse × Tables
  refresh token jti now t = elim (rotate token jti now t) [
    | err e ↦ (err e, t)
    | ok (r, rows) ↦ (ok r, record t { refresh_tokens = rows })
  ]

  -- The user of a token that is read, and the rows to commit.
  unfoldable pub forget : Option Text → ℕ → Tables → Result AuthError (Option ℕ × List RefreshToken)
  forget none now t = ok (none, t.refresh_tokens)
  forget (some token) now t = elim (decode_refresh_token sec now token) [
    | err e ↦ ok (none, t.refresh_tokens)
    | ok (user_id, jti) ↦ do rows ← revoke_jti sec jti t.refresh_tokens; ok (some user_id, rows)
  ]

  unfoldable pub logout : Option Text → ℕ → Tables → Result AuthError (Unit {0}) × Tables
  logout token now t = elim (forget token now t) [
    | err e ↦ (err e, t)
    | ok (user_id, rows) ↦ (
      ok tt,
      record t {
        refresh_tokens = rows;
        audit_log = t.audit_log ++ (audit_logout now user_id ∷ []);
      },
    )
  ]

  -- server/auth/dependencies.py
  unfoldable pub current_user : Text → ℕ → Tables → Result AuthError User
  current_user token now t = do
    (user_id, role) ← decode_access_token sec now token
    active_user user_id t.users

  unfoldable pub require_admin : Text → ℕ → Tables → Result AuthError User
  require_admin token now t = do
    u ← current_user token now t
    if not (u.role == codes "admin") then err forbidden else ok u
