-- ===== src/Server/Core/Builtin.antt =====
-- control_station_lite/server/core/builtin_scripts.py: the scripts that come with the package, and their
-- way into the registry.
pub mod Seeded
mod Tests
use csl.Prelude.{
  err, true, ℕ, Text, Dict, Text_Eq, ◌==◌, codes, [], ◌∷◌, ◌++◌, List, false, ok, Bool, not, ◌-◌,
  any, member, lookup, take, length, Result, Option, if◌then◌else◌, ◌>>=◌,
}
use csl.Agent.Runner.{suffix_from}
use csl.Server.Core.Registry.Table.{ScriptTables, RegistryError, create_script}

pub record BuiltinScript : Type 0 where
  pub name : Text
  pub content : Text
  pub meta_yaml : Option Text

pub record SeedResult : Type 0 where
  pub created : List Text
  pub skipped : List Text

-- _SCRIPT_EXTENSIONS
abbrev script_extensions : List Text
script_extensions = codes ".sh" ∷ codes ".ps1" ∷ []

-- f"{path.stem}.meta.yaml"
unfoldable pub meta_path : Text → Text
meta_path name = take (length name - length (suffix_from false name)) name ++ codes ".meta.yaml"

-- The loop over the files that are left, `base` being all of them.
unfoldable pub builtins_of : Dict Text Text → Dict Text Text → List BuiltinScript
builtins_of base [] = []
builtins_of base ((name, content) ∷ files) =
    let rest = builtins_of base files in
    if not (any (λ e. e == suffix_from false name) script_extensions)
    then rest
    else record { name = name; content = content; meta_yaml = lookup (meta_path name) base } ∷ rest

-- `base` holds the regular files of the directory, with their texts, in the order of their names.
unfoldable pub iter_builtin_scripts : Dict Text Text → List BuiltinScript
iter_builtin_scripts base = builtins_of base base

-- The outcome with one more name, of a script that was created or skipped.
abbrev pub with_name :
    Bool
    → Text
    → Result RegistryError (ScriptTables × SeedResult)
    → Result RegistryError (ScriptTables × SeedResult)
with_name created name (err e) = err e
with_name true name (ok (t, r)) = ok (t, record r { created = name ∷ r.created })
with_name false name (ok (t, r)) = ok (t, record r { skipped = name ∷ r.skipped })

module _ (md5 : Text → Text) (parse_persistent : Text → Option Bool)
    (new_id : ScriptTables → ℕ) where
  -- The loop over the scripts; an exception of `create_script` ends it.
  unfoldable pub seed_all :
      List BuiltinScript → ℕ → ℕ → ScriptTables → Result RegistryError (ScriptTables × SeedResult)
  seed_all [] user_id now t = ok (t, record { created = []; skipped = [] })
  seed_all (b ∷ builtins) user_id now t =
      if member b.name t.scripts
      then with_name false b.name (seed_all builtins user_id now t)
      else elim (create_script md5 parse_persistent (new_id t) b.name b.content b.meta_yaml user_id
          now t) [
            | err e ↦ err e
            | ok t' ↦ with_name true b.name (seed_all builtins user_id now t')
          ]

  unfoldable pub seed_builtin_scripts :
      Dict Text Text → ℕ → ℕ → ScriptTables → Result RegistryError (ScriptTables × SeedResult)
  seed_builtin_scripts base user_id now t = seed_all (iter_builtin_scripts base) user_id now t
