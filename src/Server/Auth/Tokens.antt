-- ===== src/Server/Auth/Tokens.antt =====
-- control_station_lite/server/auth/jwt.py, and the table of refresh tokens with the three helpers of
-- server/api/auth.py that read and write it. Times are seconds.
use csl.Prelude.{
  none, some, Text_Eq, ◌==◌, some, ltb, [], if◌then◌else◌, ◌≡◌, err, ok, ◌++◌, ◌∷◌, ◌≤◌, ◌*◌,
  Result, ◌+◌, List, Option, ℕ, Text, Bool, true, false,
}

-- server/core/errors.py, the codes of this component. `server_error` is an exception that no
-- handler catches, as the one of `scalar_one_or_none` for several rows.
pub data AuthError : Type 0 where
  invalid_credentials token_invalid token_revoked token_expired forbidden server_error : AuthError

-- The claims of a token. `sub` is the number that `str` writes and `int` reads.
pub data Payload : Type 0 where
  access : ℕ → Text → ℕ → Payload
  refresh_claims : ℕ → Text → ℕ → Payload

abbrev pub expires : Payload → ℕ
expires (access sub role exp) = exp
expires (refresh_claims sub jti exp) = exp

-- `jose.jwt` with the key of the server, `hashlib.sha256` and the check of a password. A token that
-- the server signs is read back as long as it has not expired, and what is
-- read does not depend on the time.
pub record Security : Type 0 where
  pub encode : Payload → Text
  pub decode : ℕ → Text → Option Payload
  pub sha256 : Text → Text
  pub verify_password : Text → Text → Bool
  pub decode-encode : (now : ℕ) (p : Payload) → now ≤ expires p → decode now (encode p) ≡ some p
  pub decode-stable :
      (now later : ℕ) (token : Text) (p q : Payload)
      → decode now token ≡ some p
      → decode later token ≡ some q
      → p ≡ q

abbrev minutes : ℕ
minutes = 60

abbrev days : ℕ
days = 86400

module _ (sec : Security) where
  unfoldable pub create_access_token : ℕ → Text → ℕ → Text
  create_access_token user_id role now = sec.encode (access user_id role (now + 30 * minutes))

  -- `jti` is the `uuid4` that the call draws.
  unfoldable pub create_refresh_token : ℕ → Text → ℕ → Text
  create_refresh_token user_id jti now = sec.encode (refresh_claims user_id jti (now + 14 * days))

  unfoldable pub decode_access_token : ℕ → Text → Result AuthError (ℕ × Text)
  decode_access_token now token = elim (sec.decode now token) [
    | none ↦ err token_invalid
    | some (access sub role exp) ↦ ok (sub, role)
    | some (refresh_claims sub jti exp) ↦ err token_invalid
  ]

  unfoldable pub decode_refresh_token : ℕ → Text → Result AuthError (ℕ × Text)
  decode_refresh_token now token = elim (sec.decode now token) [
    | none ↦ err token_invalid
    | some (access sub role exp) ↦ err token_invalid
    | some (refresh_claims sub jti exp) ↦ ok (sub, jti)
  ]

-- A row of `refresh_tokens`
pub record RefreshToken : Type 0 where
  pub user_id : ℕ
  pub token_hash : Text
  pub issued_at : ℕ
  pub expires_at : ℕ
  pub revoked : Bool

-- What `scalar_one_or_none` finds: nothing, one row, or too many.
pub data Found (A : Type 0) : Type 0 where
  no_row many_rows : Found A
  one_row : A → Found A

abbrev pub also : {A : Type 0} → A → Found A → Found A
also a no_row = one_row a
also a (one_row b) = many_rows
also a many_rows = many_rows

unfoldable pub find_hash : Text → List RefreshToken → Found RefreshToken
find_hash h [] = no_row
find_hash h (r ∷ rows) =
    let rest = find_hash h rows in if r.token_hash == h then also r rest else rest

module _ (sec : Security) where
  unfoldable pub store_refresh_token : ℕ → Text → ℕ → List RefreshToken → List RefreshToken
  store_refresh_token user_id jti now rows =
      rows
      ++ (record {
        user_id = user_id;
        token_hash = sec.sha256 jti;
        issued_at = now;
        expires_at = now + 14 * days;
        revoked = false;
      }
          ∷ [])

-- `row.revoked = True` for the rows with a hash
unfoldable pub set_revoked : Text → List RefreshToken → List RefreshToken
set_revoked h [] = []
set_revoked h (r ∷ rows) =
    (if r.token_hash == h then record r { revoked = true } else r) ∷ set_revoked h rows

module _ (sec : Security) where
  unfoldable pub revoke_jti : Text → List RefreshToken → Result AuthError (List RefreshToken)
  revoke_jti jti rows = elim (find_hash (sec.sha256 jti) rows) [
    | no_row ↦ ok rows
    | one_row r ↦ ok (set_revoked (sec.sha256 jti) rows)
    | many_rows ↦ err server_error
  ]

  unfoldable pub validate_refresh_jti : Text → ℕ → List RefreshToken → Result AuthError (Unit {0})
  validate_refresh_jti jti now rows = elim (find_hash (sec.sha256 jti) rows) [
    | no_row ↦ err token_revoked
    | one_row r ↦
        if r.revoked
        then err token_revoked
        else if ltb r.expires_at now
        then err token_expired
        else ok tt
    | many_rows ↦ err server_error
  ]
