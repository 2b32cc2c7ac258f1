-- ===== src/Server/Auth/SingleUse.antt =====
-- A refresh token is good for one refresh, whatever requests of whichever users come between.
use csl.Prelude.{
  inr, inl, Result-cases, none, some, >>=-eq-ok, >>=-eq-ok, some, Result, Text_Eq, text_eq_iff, err,
  ok, ◌==◌, if◌then◌else◌, [], true, false, ◌∷◌, ◌++◌, Bool, arith, ◌≡◌, List, Option, ℕ, Text,
}
use csl.Server.Auth.Tokens.{
  decode_refresh_token, store_refresh_token, revoke_jti, validate_refresh_jti, many_rows, no_row,
  one_row, RefreshToken, set_revoked, Found, Security, find_hash,
}
use csl.Server.Auth.Sessions.{
  active_user, TokenResponse, forget, rotate, User, issue, logout, refresh, login, Tables,
}

pub data Request : Type 0 where
  log_in : Text → Text → Request
  rotate_it log_out : Option Text → Request

unfoldable pub step : (sec : Security) → Request → Text → ℕ → Tables → Tables
step sec (log_in name password) jti now t = (login sec name password jti now t).1
step sec (rotate_it token) jti now t = (refresh sec token jti now t).1
step sec (log_out token) jti now t = (logout sec token now t).1

-- Requests with the numbers that the server draws, and their times.
unfoldable pub run : (sec : Security) → List (Request × Text × ℕ) → Tables → Tables
run sec [] t = t
run sec ((q, jti, now) ∷ qs) t = run sec qs (step sec q jti now t)

-- No row of a hash lets a token pass: there is a row, and if it is alone, it is revoked.
abbrev spent_row : Found RefreshToken → Bool
spent_row no_row = false
spent_row (one_row r) = r.revoked
spent_row many_rows = true

abbrev pub IsSpent : Text → List RefreshToken → Type 0
IsSpent h rows = spent_row (find_hash h rows) ≡ true

abbrev before_last : Found RefreshToken → RefreshToken → Found RefreshToken
before_last no_row r = one_row r
before_last f r = many_rows

find_hash-append :
    (h : Text) (rows : List RefreshToken) (r : RefreshToken)
    → find_hash h (rows ++ (r ∷ []))
      ≡ (if r.token_hash == h then before_last (find_hash h rows) r else find_hash h rows)
unfolding find_hash
find_hash-append h [] r = ground arith
find_hash-append h (q ∷ rows) r = ground (arith, find_hash-append h rows r)

abbrev marked : Found RefreshToken → Found RefreshToken
marked no_row = no_row
marked (one_row r) = one_row (record r { revoked = true })
marked many_rows = many_rows

find_hash-set_revoked :
    (h k : Text) (rows : List RefreshToken)
    → find_hash h (set_revoked k rows)
      ≡ (if k == h then marked (find_hash h rows) else find_hash h rows)
unfolding find_hash set_revoked
find_hash-set_revoked h k [] = ground arith
find_hash-set_revoked h k (q ∷ rows) = ground (
  arith,
  find_hash-set_revoked h k rows,
  text_eq_iff q.token_hash k,
  text_eq_iff q.token_hash h,
  text_eq_iff k h,
)

IsSpent-store :
    (sec : Security) (h jti : Text) (u now : ℕ) (rows : List RefreshToken)
    → IsSpent h rows
    → IsSpent h (store_refresh_token sec u jti now rows)
unfolding store_refresh_token
IsSpent-store sec h jti u now rows s = grind (arith, find_hash-append)

IsSpent-revoke_jti :
    (sec : Security) (h jti : Text) (rows : List RefreshToken) {after : List RefreshToken}
    → revoke_jti sec jti rows ≡ ok after
    → IsSpent h rows
    → IsSpent h after
unfolding revoke_jti
IsSpent-revoke_jti sec h jti rows e s =
    ground (arith, find_hash-set_revoked h (sec.sha256 jti) rows)

-- A row that passes is spent by the revocation.
revoke_jti-IsSpent :
    (sec : Security) (jti : Text) (now : ℕ) (rows : List RefreshToken) {after : List RefreshToken}
    → validate_refresh_jti sec jti now rows ≡ ok tt
    → revoke_jti sec jti rows ≡ ok after
    → IsSpent (sec.sha256 jti) after
unfolding revoke_jti validate_refresh_jti
revoke_jti-IsSpent sec jti now rows v e = ground (
  arith,
  find_hash-set_revoked (sec.sha256 jti) (sec.sha256 jti) rows,
  text_eq_iff (sec.sha256 jti) (sec.sha256 jti),
)

abbrev pub is_refused {ℓ} : {A : Type ℓ} {E : Type ℓ} → Result E A → Bool
is_refused (ok a) = false
is_refused (err e) = true

spent_refused :
    (sec : Security) (jti : Text) (now : ℕ) (rows : List RefreshToken)
    → IsSpent (sec.sha256 jti) rows
    → is_refused (validate_refresh_jti sec jti now rows) ≡ true
unfolding validate_refresh_jti
spent_refused sec jti now rows s = ground arith

-- What a refresh that succeeds has found and done.
abbrev Rotated : (sec : Security) → Text → Text → ℕ → Tables → List RefreshToken → Type 0
Rotated sec token jti now t after =
    (user_id : ℕ) × (old_jti : Text) × (user : User) × (rows : List RefreshToken)
    × (decode_refresh_token sec now token ≡ ok (user_id, old_jti))
    × (validate_refresh_jti sec old_jti now t.refresh_tokens ≡ ok tt)
    × (revoke_jti sec old_jti t.refresh_tokens ≡ ok rows)
    × (after ≡ store_refresh_token sec user.id jti now rows)

rotate-Rotated :
    (sec : Security) (token jti : Text) (now : ℕ) (t : Tables)
    {x : TokenResponse × List RefreshToken}
    → rotate sec (some token) jti now t ≡ ok x
    → Rotated sec token jti now t x.1
unfolding rotate issue
rotate-Rotated sec token jti now t e =
    let ((user_id, old_jti), d, e1) = >>=-eq-ok (decode_refresh_token sec now token) _ e in
    let (u, v, e2) = >>=-eq-ok (validate_refresh_jti sec old_jti now t.refresh_tokens) _ e1 in
    let (user, a, e3) = >>=-eq-ok (active_user user_id t.users) _ e2 in
    let (rows, w, e4) = >>=-eq-ok (revoke_jti sec old_jti t.refresh_tokens) _ e3 in
    (user_id, old_jti, user, rows, d, v, w, ground arith)

IsSpent-rotate :
    (sec : Security) (h token jti : Text) (now : ℕ) (t : Tables)
    {x : TokenResponse × List RefreshToken}
    → rotate sec (some token) jti now t ≡ ok x
    → IsSpent h t.refresh_tokens
    → IsSpent h x.1
IsSpent-rotate sec h token jti now t e s =
    let (user_id, old_jti, user, rows, d, v, w, a) = rotate-Rotated sec token jti now t e in
    rw a (
      IsSpent-store sec h jti user.id now rows
        (IsSpent-revoke_jti sec h old_jti t.refresh_tokens w s))

IsSpent-refresh :
    (sec : Security) (h token jti : Text) (now : ℕ) (t : Tables)
    → IsSpent h t.refresh_tokens
    → IsSpent h (refresh sec (some token) jti now t).1.refresh_tokens
unfolding refresh
IsSpent-refresh sec h token jti now t s = grind (arith, IsSpent-rotate)

-- Every request keeps what is spent.
IsSpent-step :
    (sec : Security) (h : Text) (q : Request) (jti : Text) (now : ℕ) (t : Tables)
    → IsSpent h t.refresh_tokens
    → IsSpent h (step sec q jti now t).refresh_tokens
unfolding step
IsSpent-step sec h (log_in name password) jti now t s =
    unfold login issue in grind (arith, IsSpent-store)
IsSpent-step sec h (rotate_it none) jti now t s = unfold refresh rotate in s
IsSpent-step sec h (rotate_it (some token)) jti now t s = IsSpent-refresh sec h token jti now t s
IsSpent-step sec h (log_out none) jti now t s = unfold logout forget in s
IsSpent-step sec h (log_out (some token)) jti now t s =
    unfold logout forget in grind (arith, IsSpent-revoke_jti)

IsSpent-run :
    (sec : Security) (h : Text) (qs : List (Request × Text × ℕ)) (t : Tables)
    → IsSpent h t.refresh_tokens
    → IsSpent h (run sec qs t).refresh_tokens
unfolding run
IsSpent-run sec h [] t s = s
IsSpent-run sec h ((q, jti, now) ∷ qs) t s =
    IsSpent-run sec h qs (step sec q jti now t) (IsSpent-step sec h q jti now t s)

decode_refresh_token-stable :
    (sec : Security) (now later : ℕ) (token : Text) (x y : ℕ × Text)
    → decode_refresh_token sec now token ≡ ok x
    → decode_refresh_token sec later token ≡ ok y
    → x ≡ y
unfolding decode_refresh_token
decode_refresh_token-stable sec now later token x y d e = grind (arith, sec.decode-stable)

-- A token whose row is spent is refused.
spent-refresh :
    (sec : Security) (token jti : Text) (now later : ℕ) (t : Tables) (user_id : ℕ) (old_jti : Text)
    → decode_refresh_token sec now token ≡ ok (user_id, old_jti)
    → IsSpent (sec.sha256 old_jti) t.refresh_tokens
    → is_refused (refresh sec (some token) jti later t).0 ≡ true
unfolding refresh
spent-refresh sec token jti now later t user_id old_jti d s =
    elim (Result-cases (rotate sec (some token) jti later t)) [
      | inl (x, e) ↦
          let (i, j, user, rows, d', v, w, a) = rotate-Rotated sec token jti later t e in
          let same = decode_refresh_token-stable sec now later token _ _ d d' in
          ground (arith, spent_refused sec j later t.refresh_tokens)
      | inr (e, h) ↦ ground arith
    ]

refresh_tokens-refresh :
    (sec : Security) (token jti : Text) (now : ℕ) (t : Tables)
    {x : TokenResponse × List RefreshToken}
    → rotate sec (some token) jti now t ≡ ok x
    → (refresh sec (some token) jti now t).1.refresh_tokens ≡ x.1
unfolding refresh
refresh_tokens-refresh sec token jti now t e = ground arith

-- After a refresh with a token has succeeded, the same token is refused, whichever requests have
-- come in between and at whatever time.
pub refresh-single_use :
    (sec : Security) (token jti : Text) (now : ℕ) (t : Tables) {r : TokenResponse}
    (qs : List (Request × Text × ℕ)) (jti' : Text) (later : ℕ)
    → (refresh sec (some token) jti now t).0 ≡ ok r
    → is_refused
        (refresh sec (some token) jti' later (run sec qs (refresh sec (some token) jti now t).1)).0
      ≡ true
refresh-single_use sec token jti now t qs jti' later h =
    elim (Result-cases (rotate sec (some token) jti now t)) [
      | inl (x, e) ↦
          let (i, j, user, rows, d, v, w, a) = rotate-Rotated sec token jti now t e in
          let spent =
            IsSpent-store sec (sec.sha256 j) jti user.id now rows
              (revoke_jti-IsSpent sec j now t.refresh_tokens v w) in
          let next = (refresh sec (some token) jti now t).1 in
          let kept : IsSpent (sec.sha256 j) next.refresh_tokens =
            rw (refresh_tokens-refresh sec token jti now t e, a) spent in
          spent-refresh sec token jti' now later (run sec qs next) i j d
            (IsSpent-run sec (sec.sha256 j) qs next kept)
      | inr (e, h') ↦ unfold refresh in ground arith
    ]
