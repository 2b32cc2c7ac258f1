-- ===== src/Server/Api/Scripts.antt =====
-- control_station_lite/server/api/scripts.py: the endpoints over the registry.
use csl.Prelude.{
  ℕ, Text, Dict, Text_Eq, codes, [], ◌∷◌, ◌++◌, List, none, some, ok, err, Bool, Result, Option,
  on_error, lookup,
}
use csl.Server.Auth.Sessions.{User, AuditRow, AuditValue, text_value, record_audit}
use csl.Server.Core.Errors.{HttpException, http_exception}
use csl.Server.Core.Registry.Table.{
  ScriptTables, ScriptRow, RegistryError, already_exists, no_script, invalid_meta, create_script,
  update_script, delete_script, get_script_or_raise,
}

pub record ScriptIn : Type 0 where
  pub name : Text
  pub content : Text
  pub meta_yaml : Option Text

pub record ScriptUpdateIn : Type 0 where
  pub content : Text
  pub meta_yaml : Option Text

-- The tables of the registry, and the audit log.
pub record Registry : Type 0 where
  pub tables : ScriptTables
  pub audit_log : List AuditRow

-- The status of an update that raises: 404 if the message says "not found".
unfoldable pub update_exception : RegistryError → HttpException
update_exception (no_script name) = http_exception 404
update_exception (already_exists name) = http_exception 422
update_exception invalid_meta = http_exception 422

module _ (md5 : Text → Text) (parse_persistent : Text → Option Bool) where
  abbrev pub Answer : Type 0 → Type 0
  Answer A = Result HttpException A × Registry

  abbrev audit_script : ℕ → Text → Text → User → Dict Text AuditValue → AuditRow
  audit_script now action name admin details =
      record_audit now action (codes "script") (some (text_value name)) (codes "success")
        (some admin.id) details

  -- The row that was written, from the tables after the change.
  abbrev row_named : Text → ScriptTables → Result HttpException ScriptRow
  row_named name t =
      on_error (λ e. http_exception 404) (get_script_or_raise md5 parse_persistent name t)

  abbrev md5_details : Text → ScriptTables → Dict Text AuditValue
  md5_details name t = elim (lookup name t.scripts) [
    | none ↦ []
    | some r ↦ (codes "md5", text_value r.md5) ∷ []
  ]

  unfoldable pub get_script_endpoint : Text → Registry → Result HttpException ScriptRow
  get_script_endpoint name s = row_named name s.tables

  -- `i` is the number that the table gives the row.
  unfoldable pub create_script_endpoint : ℕ → ℕ → ScriptIn → User → Registry → Answer ScriptRow
  create_script_endpoint i now body admin s =
      elim (create_script md5 parse_persistent i body.name body.content body.meta_yaml admin.id now
        s.tables) [
          | err e ↦ (err (http_exception 409), s)
          | ok t ↦ (
            row_named body.name t,
            record {
              tables = t;
              audit_log =
                  s.audit_log
                  ++ (audit_script now (codes "script.create") body.name admin
                        (md5_details body.name t)
                      ∷ []);
            },
          )
        ]

  unfoldable pub update_script_endpoint :
      ℕ → Text → ScriptUpdateIn → User → Registry → Answer ScriptRow
  update_script_endpoint now name body admin s =
      elim (update_script md5 parse_persistent name body.content body.meta_yaml admin.id now
        s.tables) [
          | err e ↦ (err (update_exception e), s)
          | ok t ↦ (
            row_named name t,
            record {
              tables = t;
              audit_log =
                  s.audit_log
                  ++ (audit_script now (codes "script.update") name admin (md5_details name t)
                      ∷ []);
            },
          )
        ]

  unfoldable pub delete_script_endpoint : ℕ → Text → User → Registry → Answer (Unit {0})
  delete_script_endpoint now name admin s =
      elim (delete_script md5 parse_persistent name s.tables) [
        | err e ↦ (err (http_exception 404), s)
        | ok t ↦ (
          ok tt,
          record {
            tables = t;
            audit_log =
                s.audit_log ++ (audit_script now (codes "script.delete") name admin [] ∷ []);
          },
        )
      ]
