-- ===== src/Server/Cli/Entered.antt =====
-- The administrator that the command line makes gets into the pages.
use csl.Prelude.{
  text_eq, inr, ==_refl, inl, Option-cases, ℕ_Eq, ◌==◌, if◌then◌else◌, List, ℕ, Text, Text_Eq, [],
  ◌∷◌, ◌++◌, none, some, true, false, ok, ◌≡◌, ◌≤◌, ◌+◌, ◌*◌, arith, refl, >>=-eq-ok,
}
use csl.Server.Auth.Sessions.{
  admitted, issue, User, Tables, TokenResponse, user_named, user_with_id,
}
use csl.Server.Core.MagicPacket.{strip}
use csl.Server.Cli.{create_admin, check_entries, admin_row}
use csl.Server.Web.Login.{login_submit, web_require_admin, web_current_user}
use csl.Server.Web.Admins.{is_active_admin}
use csl.Server.Auth.Tokens.{access, create_access_token, decode_access_token, Security}

user_named-snoc :
    (name : Text) (users : List User) (u : User)
    → user_named name users ≡ none
    → user_named name (users ++ (u ∷ [])) ≡ (if u.username == name then some u else none)
unfolding user_named
user_named-snoc name [] u e = ground arith
user_named-snoc name (v ∷ users) u e = ground (arith, user_named-snoc name users u)

user_with_id-snoc :
    (i : ℕ) (users : List User) (u : User)
    → user_with_id i users ≡ none
    → user_with_id i (users ++ (u ∷ [])) ≡ (if u.id == i then some u else none)
unfolding user_with_id
user_with_id-snoc i [] u e = ground arith
user_with_id-snoc i (v ∷ users) u e = ground (arith, user_with_id-snoc i users u)

module _ (sec : Security) (hash_password : Text → Text) where
  created-row :
      (i : ℕ) (typed password confirm : Text) (t : Tables) {t' : Tables}
      → create_admin hash_password i typed password confirm t ≡ ok t'
      → (user_named (strip typed) t.users ≡ none)
        × (t' ≡ record t {
          users = t.users ++ (admin_row i (strip typed) (hash_password password) ∷ []);
        })
  unfolding create_admin
  created-row i typed password confirm t {t'} e =
      let (u, p, e1) = >>=-eq-ok (check_entries (strip typed) password confirm) _ e in
      elim (Option-cases (user_named (strip typed) t.users)) [
        | inl n ↦ (n, ground arith)
        | inr (v, n) ↦ absurd (ground arith)
      ]

  -- An access cookie is let in as its user, as long as the row says administrator.
  cookie-let_in :
      (u : User) (now later : ℕ) (t : Tables)
      → user_with_id u.id t.users ≡ some u
      → is_active_admin u ≡ true
      → later ≤ now + 30 * 60
      → web_require_admin sec (some (create_access_token sec u.id u.role now)) later t ≡ ok u
  unfolding web_require_admin web_current_user decode_access_token create_access_token
  cookie-let_in u now later t e h l =
      ground (arith, sec.decode-encode later (access u.id u.role (now + 30 * 60)) l)

  -- The password that was hashed for the last row is let in under its name.
  last-admitted :
      (users : List User) (u : User) (password : Text)
      → user_named u.username users ≡ none
      → sec.verify_password password u.password_hash ≡ true
      → u.disabled ≡ false
      → admitted sec u.username password (users ++ (u ∷ [])) ≡ some u
  unfolding admitted
  last-admitted users u password e v h =
      ground (arith, user_named-snoc u.username users u e, ==_refl u.username)

  -- Whoever logs in as an enabled administrator gets a cookie that is let in.
  login_submit-let_in :
      (name password : Text) (u : User) (jti : Text) (now later : ℕ) (t : Tables)
      → admitted sec name password t.users ≡ some u
      → user_with_id u.id t.users ≡ some u
      → is_active_admin u ≡ true
      → later ≤ now + 30 * 60
      → let (answer, tokens, after) = login_submit sec name password jti now t in
        (cookies : TokenResponse) × (tokens ≡ some cookies)
        × (web_require_admin sec (some cookies.access_token) later after ≡ ok u)
  unfolding login_submit issue
  login_submit-let_in name password u jti now later t a e h l =
      let (tokens, rows) = issue sec u jti now t.refresh_tokens in
      rw (login_submit, a)
        (tokens, refl, cookie-let_in u now later (record t { refresh_tokens = rows }) e h l)

  -- An administrator whom the command line has made gets into the pages: the password that was typed
  -- logs in, and the access cookie that this sets is let in as that administrator until it expires.
  -- The password is one that the check of its hash accepts, and the number of the row is new.
  pub create_admin-login :
      (i : ℕ) (typed password confirm : Text) (t : Tables) (jti : Text) (now later : ℕ)
      {t' : Tables}
      → create_admin hash_password i typed password confirm t ≡ ok t'
      → sec.verify_password password (hash_password password) ≡ true
      → user_with_id i t.users ≡ none
      → later ≤ now + 30 * 60
      → let (answer, tokens, after) = login_submit sec (strip typed) password jti now t' in
        (cookies : TokenResponse) × (tokens ≡ some cookies)
        × (web_require_admin sec (some cookies.access_token) later after
            ≡ ok (admin_row i (strip typed) (hash_password password)))
  create_admin-login i typed password confirm t jti now later {t'} e v fresh l =
      let u = admin_row i (strip typed) (hash_password password) in
      let users = t.users ++ (u ∷ []) in
      let (free, made) = created-row i typed password confirm t {t' = t'} e in
      let row : user_with_id i users ≡ some u =
        ground (arith, user_with_id-snoc i t.users u fresh) in
      rw made (
        login_submit-let_in (strip typed) password u jti now later (record t { users = users })
          (last-admitted t.users u password free v refl) row (unfold text_eq in refl) l)
