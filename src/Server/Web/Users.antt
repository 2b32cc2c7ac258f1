-- ===== src/Server/Web/Users.antt =====
-- The user management of control_station_lite/server/web/admin.py.
use csl.Prelude.{
  Result, ◌&&◌, ℕ_Eq, ◌||◌, not, Option, List, if◌then◌else◌, Bool, ℕ, Text, Text_Eq, codes, [],
  ◌∷◌, ◌++◌, none, some, ok, err, ◌==◌,
}
use csl.Server.Web.Login.{web_require_admin, redirect_with_flash, Response}
use csl.Server.Auth.Sessions.{user_with_id, Tables, User}
use csl.Server.Auth.Tokens.{Security}
use csl.Server.Core.Errors.{HttpException}

-- The row with a number, the primary key, is changed.
unfoldable pub change_user : ℕ → (User → User) → List User → List User
change_user i f [] = []
change_user i f (u ∷ users) =
    let rest = change_user i f users in if u.id == i then f u ∷ users else u ∷ rest

abbrev pub with_disabled : Bool → User → User
with_disabled b u = record u { disabled = b }

abbrev pub with_role : Text → User → User
with_role role u = record u { role = role }

abbrev to_users : Text → Text → Response
to_users message category = redirect_with_flash (codes "/admin/users") message category 303

-- `not target.disabled`, written to the row
unfoldable pub toggled : User → User
toggled u = with_disabled (not u.disabled) u

abbrev toggle_message : User → Text
toggle_message u =
    codes "User '" ++ u.username ++ (if u.disabled then codes "' disabled." else codes "' enabled.")

-- `admin_user_toggle`, for the administrator that `web_require_admin` lets in.
unfoldable pub admin_user_toggle : ℕ → User → Tables → Response × Tables
admin_user_toggle user_id current_admin t = elim (user_with_id user_id t.users) [
  | none ↦ (to_users (codes "User not found.") (codes "error"), t)
  | some target ↦
      if target.id == current_admin.id
      then (to_users (codes "Cannot disable your own account.") (codes "error"), t)
      else (
        to_users (toggle_message (toggled target)) (codes "success"),
        record t { users = change_user target.id toggled t.users },
      )
]

abbrev pub is_role : Text → Bool
is_role role = role == codes "admin" || role == codes "user"

abbrev role_message : User → Text → Text
role_message u role = codes "User '" ++ u.username ++ codes "' role set to '" ++ role ++ codes "'."

unfoldable pub role_found : User → Text → User → Tables → Response × Tables
role_found target role current_admin t =
    if target.id == current_admin.id && not (role == codes "admin")
    then (to_users (codes "Cannot demote your own account.") (codes "error"), t)
    else (
      to_users (role_message target role) (codes "success"),
      record t { users = change_user target.id (with_role role) t.users },
    )

unfoldable pub admin_user_role : ℕ → Text → User → Tables → Response × Tables
admin_user_role user_id role current_admin t =
    if not (is_role role)
    then (to_users (codes "Invalid role.") (codes "error"), t)
    else elim (user_with_id user_id t.users) [
      | none ↦ (to_users (codes "User not found.") (codes "error"), t)
      | some target ↦ role_found target role current_admin t
    ]

pub data UserRequest : Type 0 where
  toggle : ℕ → UserRequest
  set_role : ℕ → Text → UserRequest

unfoldable pub answer : UserRequest → User → Tables → Response × Tables
answer (toggle user_id) admin t = admin_user_toggle user_id admin t
answer (set_role user_id role) admin t = admin_user_role user_id role admin t

module _ (sec : Security) where
  -- A request with its cookie.
  unfoldable pub user_request :
      Option Text → ℕ → UserRequest → Tables → Result HttpException Response × Tables
  user_request csl_access now q t = elim (web_require_admin sec csl_access now t) [
    | err e ↦ (err e, t)
    | ok admin ↦ let (r, t') = answer q admin t in (ok r, t')
  ]

  unfoldable pub user_requests : List (Option Text × ℕ × UserRequest) → Tables → Tables
  user_requests [] t = t
  user_requests ((csl_access, now, q) ∷ qs) t = user_requests qs (user_request csl_access now q t).1
