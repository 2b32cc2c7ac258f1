-- ===== src/Server/Core/Registry/Table.antt =====
-- The functions of script_registry.py on the tables of a session. MD5 in hexadecimal and the reading
-- of metadata, down to its `persistent`, are parameters.
use csl.Prelude.{
  erase, insert, ◌>>=◌, ◌>>◌, Text_Eq, lookup, nat_eq, member, if◌then◌else◌, Result, Bool, List,
  Option, Text, Dict, ℕ, none, some, [], ◌∷◌, false, ok, err,
}
use csl.Server.Core.ScriptSync.Sync.{ScriptTargetState}

pub record ScriptRow : Type 0 where
  pub id : ℕ
  pub content : Text
  pub meta_yaml : Option Text
  pub md5 : Text
  pub persistent : Bool
  pub updated_at : ℕ
  pub updated_by : ℕ

pub record ScriptTables : Type 0 where
  pub scripts : Dict Text ScriptRow
  pub target_states : List ScriptTargetState

-- The causes of a `ScriptRegistryError`.
pub data RegistryError : Type 0 where
  already_exists no_script : Text → RegistryError
  invalid_meta : RegistryError

-- The rows of other scripts.
unfoldable pub without_script : ℕ → List ScriptTargetState → List ScriptTargetState
without_script i [] = []
without_script i (row ∷ rows) =
    let rest = without_script i rows in if nat_eq row.script_id i then rest else row ∷ rest

module _ (md5 : Text → Text) (parse_persistent : Text → Option Bool) where
  unfoldable pub validate_meta : Option Text → Result RegistryError (Unit {0})
  validate_meta none = ok tt
  validate_meta (some meta) = elim (parse_persistent meta) [
    | none ↦ err invalid_meta
    | some b ↦ ok tt
  ]

  unfoldable pub is_persistent : Option Text → Bool
  is_persistent none = false
  is_persistent (some []) = false
  is_persistent (some (c ∷ meta)) = elim (parse_persistent (c ∷ meta)) [ none ↦ false | some b ↦ b ]

  abbrev pub new_row : ℕ → Text → Option Text → ℕ → ℕ → ScriptRow
  new_row i content meta_yaml user_id now = record {
    id = i;
    content = content;
    meta_yaml = meta_yaml;
    md5 = md5 content;
    persistent = is_persistent meta_yaml;
    updated_at = now;
    updated_by = user_id;
  }

  -- `i` is the number that the table gives the row.
  unfoldable pub create_script :
      ℕ → Text → Text → Option Text → ℕ → ℕ → ScriptTables → Result RegistryError ScriptTables
  create_script i name content meta_yaml user_id now t =
      if member name t.scripts then err (already_exists name) else (do
        validate_meta meta_yaml
        ok (record t { scripts = insert name (new_row i content meta_yaml user_id now) t.scripts }))

  unfoldable pub get_script_or_raise : Text → ScriptTables → Result RegistryError ScriptRow
  get_script_or_raise name t = elim (lookup name t.scripts) [
    | none ↦ err (no_script name)
    | some r ↦ ok r
  ]

  unfoldable pub update_script :
      Text → Text → Option Text → ℕ → ℕ → ScriptTables → Result RegistryError ScriptTables
  update_script name content meta_yaml user_id now t = do
    r ← get_script_or_raise name t
    validate_meta meta_yaml
    ok (record t { scripts = insert name (new_row r.id content meta_yaml user_id now) t.scripts })

  unfoldable pub delete_script : Text → ScriptTables → Result RegistryError ScriptTables
  delete_script name t = do
    r ← get_script_or_raise name t
    ok (record t {
      scripts = erase name t.scripts;
      target_states = without_script r.id t.target_states;
    })
