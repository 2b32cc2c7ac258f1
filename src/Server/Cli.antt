-- ===== src/Server/Cli.antt =====
-- control_station_lite/server/cli.py: the first administrator, and the seeding. What is typed in and the
-- hashing of passwords are arguments.
pub mod Entered
use csl.Prelude.{
  Dict, Bool, on_error, ℕ, Text, Text_Eq, codes, [], ◌∷◌, ◌++◌, none, some, true, false, ok, err,
  ◌==◌, not, ltb, length, leb, ◌>>◌, ◌>>=◌, Result, Option, List, if◌then◌else◌,
}
use csl.Server.Auth.Sessions.{User, Tables, user_named}
use csl.Server.Core.MagicPacket.{strip}
use csl.Server.Core.Registry.Table.{ScriptTables, RegistryError}
use csl.Server.Core.Builtin.{seed_builtin_scripts, SeedResult}

-- Why a command ends with status 1; the last is an exception that it does not catch.
pub data CliError : Type 0 where
  empty_username passwords_differ short_password no_admin seeding_failed : CliError
  user_exists : Text → CliError

abbrev pub admin_row : ℕ → Text → Text → User
admin_row i username password_hash = record {
  id = i;
  username = username;
  password_hash = password_hash;
  role = codes "admin";
  disabled = false;
}

-- The checks before the session is opened.
unfoldable pub check_entries : Text → Text → Text → Result CliError (Unit {0})
check_entries [] password confirm = err empty_username
check_entries (c ∷ username) password confirm =
    if not (password == confirm)
    then err passwords_differ
    else if ltb (length password) 8
    then err short_password
    else ok tt

abbrev free_name : Text → List User → Result CliError (Unit {0})
free_name username users = elim (user_named username users) [
  | none ↦ ok tt
  | some u ↦ err (user_exists username)
]

-- `i` is the number that the table gives the row.
unfoldable pub create_admin :
    (Text → Text) → ℕ → Text → Text → Text → Tables → Result CliError Tables
create_admin hash_password i typed password confirm t = do
  check_entries (strip typed) password confirm
  free_name (strip typed) t.users
  ok (record t { users = t.users ++ (admin_row i (strip typed) (hash_password password) ∷ []) })

-- The lower of a number and one that may be missing.
abbrev lower : ℕ → Option ℕ → ℕ
lower i none = i
lower i (some j) = if leb i j then i else j

-- `order_by(User.id).limit(1)` among the administrators
unfoldable pub earliest_admin : List User → Option ℕ
earliest_admin [] = none
earliest_admin (u ∷ users) =
    let rest = earliest_admin users in
    if u.role == codes "admin" then some (lower u.id rest) else rest

abbrev seeded :
    Result RegistryError (ScriptTables × SeedResult) → Result CliError (ScriptTables × SeedResult)
seeded r = on_error (λ e. seeding_failed) r

module _ (md5 : Text → Text) (parse_persistent : Text → Option Bool)
    (new_id : ScriptTables → ℕ) where
  -- The earliest administrator owns the rows.
  unfoldable pub seed_scripts :
      Dict Text Text → ℕ → List User → ScriptTables → Result CliError (ScriptTables × SeedResult)
  seed_scripts base now users t = elim (earliest_admin users) [
    | none ↦ err no_admin
    | some admin_id ↦ seeded (seed_builtin_scripts md5 parse_persistent new_id base admin_id now t)
  ]
