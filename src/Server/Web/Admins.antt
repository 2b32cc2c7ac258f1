-- ===== src/Server/Web/Admins.antt =====
-- Who is left to administer, whatever is asked of the user management.
use csl.Prelude.{
  on_error-ok, on_error, >>=-eq-ok, Result-cases, Option, ==_iff, refl, inl, ℕ_Eq, not, arith, ◌&&◌,
  Option-cases, inr, List, Bool-cases, Bool, any, ℕ, Text, Text_Eq, codes, [], ◌∷◌, none, some,
  true, false, ok, ◌==◌, ◌≡◌,
}
use csl.Server.Web.Users.{
  user_request, user_requests, is_role, set_role, toggle, with_role, UserRequest, admin_user_role,
  change_user, toggled, role_found, admin_user_toggle, answer,
}
use csl.Server.Auth.Sessions.{active_user, Tables, user_with_id, User}
use csl.Server.Auth.Tokens.{decode_access_token, Security}
use csl.Server.Web.Login.{to_login, web_current_user, web_require_admin}

abbrev pub is_active_admin : User → Bool
is_active_admin u = u.role == codes "admin" && not u.disabled

abbrev pub HasAdmin : Tables → Type 0
HasAdmin t = any is_active_admin t.users ≡ true

user_with_id-id : (i : ℕ) (users : List User) {u : User} → user_with_id i users ≡ some u → u.id ≡ i
unfolding user_with_id
user_with_id-id i [] e = ground arith
user_with_id-id i (v ∷ users) {u} e = ground (arith, user_with_id-id i users {u = u})

user_with_id-any :
    (p : User → Bool) (i : ℕ) (users : List User) {u : User}
    → user_with_id i users ≡ some u
    → p u ≡ true
    → any p users ≡ true
unfolding user_with_id any
user_with_id-any p i [] e h = ground arith
user_with_id-any p i (v ∷ users) {u} e h = ground (arith, user_with_id-any p i users {u = u})

-- A change of another row leaves a row as it is, and one of the row is seen there.
user_with_id-other :
    (i k : ℕ) (f : User → User) (users : List User) {u : User}
    → ((v : User) → (f v).id ≡ v.id)
    → (i == k) ≡ false
    → user_with_id k users ≡ some u
    → user_with_id k (change_user i f users) ≡ some u
unfolding user_with_id change_user
user_with_id-other i k f [] keeps d e = ground arith
user_with_id-other i k f (v ∷ users) {u} keeps d e =
    ground (arith, keeps v, user_with_id-other i k f users {u = u} keeps d)

user_with_id-changed :
    (k : ℕ) (f : User → User) (users : List User) {u : User}
    → ((v : User) → (f v).id ≡ v.id)
    → user_with_id k users ≡ some u
    → user_with_id k (change_user k f users) ≡ some (f u)
unfolding user_with_id change_user
user_with_id-changed k f [] keeps e = ground arith
user_with_id-changed k f (v ∷ users) {u} keeps e =
    ground (arith, keeps v, user_with_id-changed k f users {u = u} keeps)

-- An enabled administrator under a number.
abbrev pub Administers : ℕ → Tables → Type 0
Administers k t = (u : User) × (user_with_id k t.users ≡ some u) × (is_active_admin u ≡ true)

toggle-Administers :
    (user_id : ℕ) (admin : User) (t : Tables)
    → user_with_id admin.id t.users ≡ some admin
    → is_active_admin admin ≡ true
    → Administers admin.id (admin_user_toggle user_id admin t).1
unfolding admin_user_toggle toggled
toggle-Administers user_id admin t e h = elim (Option-cases (user_with_id user_id t.users)) [
  | inl p ↦ rw (admin_user_toggle, p) (admin, e, h)
  | inr (target, p) ↦ elim (Bool-cases (target.id == admin.id)) [
    | inl q ↦ rw (admin_user_toggle, p, q) (admin, e, h)
    | inr q ↦
        rw (admin_user_toggle, p, q)
          (admin, user_with_id-other target.id admin.id toggled t.users (λ v. refl) q e, h)
  ]
]

role_found-Administers :
    (target : User) (role : Text) (admin : User) (t : Tables)
    → user_with_id admin.id t.users ≡ some admin
    → is_active_admin admin ≡ true
    → Administers admin.id (role_found target role admin t).1
unfolding role_found
role_found-Administers target role admin t e h = elim (Bool-cases (target.id == admin.id)) [
  | inr q ↦
      rw (role_found, q)
        (admin, user_with_id-other target.id admin.id (with_role role) t.users (λ v. refl) q e, h)
  | inl q ↦ elim (Bool-cases (role == codes "admin")) [
    | inr r ↦ rw (role_found, q, r) (admin, e, h)
    | inl r ↦
        rw (role_found, q, r, (==_iff target.id admin.id).0 q)
          (
            with_role role admin,
            user_with_id-changed admin.id (with_role role) t.users (λ v. refl) e,
            ground arith,
          )
  ]
]

answer-Administers :
    (q : UserRequest) (admin : User) (t : Tables)
    → user_with_id admin.id t.users ≡ some admin
    → is_active_admin admin ≡ true
    → Administers admin.id (answer q admin t).1
unfolding answer admin_user_role
answer-Administers (toggle user_id) admin t e h = toggle-Administers user_id admin t e h
answer-Administers (set_role user_id role) admin t e h = elim (Bool-cases (is_role role)) [
  | inr r ↦ rw (admin_user_role, r) (admin, e, h)
  | inl r ↦ elim (Option-cases (user_with_id user_id t.users)) [
    | inl p ↦ rw (admin_user_role, r, p) (admin, e, h)
    | inr (target, p) ↦ rw (admin_user_role, r, p) (role_found-Administers target role admin t e h)
  ]
]

Administers→HasAdmin : (k : ℕ) (t : Tables) → Administers k t → HasAdmin t
Administers→HasAdmin k t (u, e, h) = user_with_id-any is_active_admin k t.users e h

module _ (sec : Security) where
  active_user-row :
      (i : ℕ) (users : List User) {u : User}
      → active_user i users ≡ ok u
      → (user_with_id u.id users ≡ some u) × (u.disabled ≡ false)
  active_user-row i users {u} e = elim (Option-cases (user_with_id i users)) [
    | inl p ↦ absurd (ground arith)
    | inr (v, p) ↦ ground (arith, user_with_id-id i users {u = v} p)
  ]

  -- Whom `web_require_admin` lets in: a user of the table, as it is then.
  web_require_admin-row :
      (csl_access : Option Text) (now : ℕ) (t : Tables) {u : User}
      → web_require_admin sec csl_access now t ≡ ok u
      → (user_with_id u.id t.users ≡ some u) × (is_active_admin u ≡ true)
  unfolding web_require_admin web_current_user
  web_require_admin-row none now t e = absurd (ground arith)
  web_require_admin-row (some token) now t {u} e =
      let (v, p, e1) = >>=-eq-ok (web_current_user sec (some token) now t) _ e in
      let ((i, role), q, p1) =
        >>=-eq-ok (on_error (λ x. to_login) (decode_access_token sec now token)) _ p in
      let (row, enabled) =
        active_user-row i t.users {u = v}
          (on_error-ok (λ x. to_login) (active_user i t.users) p1) in
      ground arith

  user_request-HasAdmin :
      (csl_access : Option Text) (now : ℕ) (q : UserRequest) (t : Tables)
      → HasAdmin t
      → HasAdmin (user_request sec csl_access now q t).1
  unfolding user_request
  user_request-HasAdmin csl_access now q t h =
      elim (Result-cases (web_require_admin sec csl_access now t)) [
        | inr (x, e) ↦ rw (user_request, e) h
        | inl (admin, e) ↦
            let (row, active) = web_require_admin-row csl_access now t e in
            rw (user_request, e)
              (Administers→HasAdmin admin.id (answer q admin t).1
                (answer-Administers q admin t row active))
      ]

  -- Whatever requests come to the user management, with whatever cookies and at whatever times, an
  -- enabled administrator is left if there was one.
  pub user_requests-HasAdmin :
      (qs : List (Option Text × ℕ × UserRequest)) (t : Tables)
      → HasAdmin t
      → HasAdmin (user_requests sec qs t)
  unfolding user_requests
  user_requests-HasAdmin [] t h = h
  user_requests-HasAdmin ((csl_access, now, q) ∷ qs) t h =
      user_requests-HasAdmin qs (user_request sec csl_access now q t).1
        (user_request-HasAdmin csl_access now q t h)
