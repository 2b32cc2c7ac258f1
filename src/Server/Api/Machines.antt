-- ===== src/Server/Api/Machines.antt =====
-- control_station_lite/server/api/machines.py: the rows, who has access to a machine, and the endpoints
-- that need no connection to it.
pub mod Version
mod Majors
pub mod Register
pub mod Registered
pub mod Consistent
pub mod Access
use csl.Prelude.{
  ℕ, ℤ, Text, Dict, Text_Eq, ◌==◌, codes, [], ◌∷◌, ◌++◌, List, none, some, true, ok, err, Bool, not,
  ◌&&◌, nat_eq, any, filter, Result, Option, if◌then◌else◌, ◌>>=◌, ◌>>◌,
}
use csl.Shared.Registration.{Json}
use csl.Server.Auth.Sessions.{User, AuditRow, AuditValue, text_value, number_value, record_audit}
use csl.Server.Core.Errors.{HttpException, http_exception}

pub record Machine : Type 0 where
  pub id : ℕ
  pub name : Text
  pub ssh_host : Text
  pub ssh_port : ℤ
  pub ssh_user : Json
  pub ssh_key_encrypted : Text
  pub key_fingerprint : Json
  pub ssh_host_key : Option Text
  pub agent_token_encrypted : Option Text
  pub agent_port : ℤ
  pub scripts_dir : Json
  pub platform : Json
  pub mac_address : Option Text
  pub created_at : ℕ

-- The bookmarks are pairs of a user and a machine.
pub record MachineTables : Type 0 where
  pub machines : List Machine
  pub user_machines : List (ℕ × ℕ)
  pub audit_log : List AuditRow

unfoldable pub find_machine : ℕ → List Machine → Option Machine
find_machine machine_id [] = none
find_machine machine_id (m ∷ machines) =
    if nat_eq m.id machine_id then some m else find_machine machine_id machines

-- `_get_machine_or_404`
unfoldable pub get_machine_or_404 : ℕ → List Machine → Result HttpException Machine
get_machine_or_404 machine_id machines = elim (find_machine machine_id machines) [
  | none ↦ err (http_exception 404)
  | some m ↦ ok m
]

abbrev pub is_bookmark : ℕ → ℕ → ℕ × ℕ → Bool
is_bookmark user_id machine_id p = nat_eq p.0 user_id && nat_eq p.1 machine_id

abbrev pub has_bookmark : ℕ → ℕ → List (ℕ × ℕ) → Bool
has_bookmark user_id machine_id = any (is_bookmark user_id machine_id)

-- `_assert_access`
unfoldable pub assert_access : User → ℕ → List (ℕ × ℕ) → Result HttpException (Unit {0})
assert_access user machine_id user_machines =
    if user.role == codes "admin"
    then ok tt
    else if has_bookmark user.id machine_id user_machines
    then ok tt
    else err (http_exception 403)

-- The rows come in no order of their own: here, that of the table.
unfoldable pub list_machines : User → MachineTables → List Machine
list_machines user t =
    if user.role == codes "admin"
    then t.machines
    else filter (λ m. has_bookmark user.id m.id t.user_machines) t.machines

unfoldable pub get_machine : ℕ → User → MachineTables → Result HttpException Machine
get_machine machine_id user t = do
  machine ← get_machine_or_404 machine_id t.machines
  assert_access user machine_id t.user_machines
  ok machine

-- The endpoints below answer with nothing and status 204.
abbrev pub Done : Type 0
Done = Result HttpException (Unit {0}) × MachineTables

abbrev audit_machine : ℕ → Text → ℕ → ℕ → Dict Text AuditValue → AuditRow
audit_machine now action machine_id user_id details =
    record_audit now action (codes "machine") (some (number_value machine_id)) (codes "success")
      (some user_id) details

unfoldable pub delete_machine : ℕ → ℕ → User → MachineTables → Done
delete_machine now machine_id admin t = elim (get_machine_or_404 machine_id t.machines) [
  | err e ↦ (err e, t)
  | ok machine ↦ (
    ok tt,
    record {
      machines = filter (λ m. not (nat_eq m.id machine_id)) t.machines;
      user_machines = filter (λ p. not (nat_eq p.1 machine_id)) t.user_machines;
      audit_log =
          t.audit_log
          ++ (audit_machine now (codes "machine.delete") machine_id admin.id
                ((codes "name", text_value machine.name) ∷ [])
              ∷ []);
    },
  )
]

unfoldable pub add_bookmark : ℕ → ℕ → User → MachineTables → Done
add_bookmark now machine_id user t = elim (get_machine_or_404 machine_id t.machines) [
  | err e ↦ (err e, t)
  | ok machine ↦ (
    ok tt,
    if has_bookmark user.id machine_id t.user_machines then t else record t {
      user_machines = t.user_machines ++ ((user.id, machine_id) ∷ []);
      audit_log =
          t.audit_log ++ (audit_machine now (codes "machine.bookmark") machine_id user.id [] ∷ []);
    },
  )
]

unfoldable pub remove_bookmark : ℕ → ℕ → User → MachineTables → Done
remove_bookmark now machine_id user t = elim (get_machine_or_404 machine_id t.machines) [
  | err e ↦ (err e, t)
  | ok machine ↦ (
    ok tt,
    record t {
      user_machines = filter (λ p. not (is_bookmark user.id machine_id p)) t.user_machines;
      audit_log =
          t.audit_log
          ++ (audit_machine now (codes "machine.unbookmark") machine_id user.id [] ∷ []);
    },
  )
]
