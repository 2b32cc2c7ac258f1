-- ===== src/Server/Core/Builtin/Tests.antt =====
-- A package with one script and its metadata.
use csl.Prelude.{
  ℕ, Text, Dict, codes, [], ◌∷◌, some, true, ok, Bool, map, lookup, member, any, Option, ◌≡◌, refl,
  text_eq, insert,
}
use csl.Agent.Runner.{suffix_from}
use csl.Server.Core.Registry.Table.{ScriptTables, create_script, validate_meta, is_persistent}
use csl.Server.Core.Builtin.{
  seed_builtin_scripts, iter_builtin_scripts, builtins_of, meta_path, seed_all,
}
use csl.Server.Core.Builtin.Seeded.{Keeps, seed_builtin_scripts-Keeps}

abbrev shipped : Dict Text Text
shipped = (codes "nap.meta.yaml", codes "m") ∷ (codes "nap.sh", codes "zzz") ∷ []

abbrev same : Text → Text
same s = s

abbrev lasting : Text → Option Bool
lasting s = some true

abbrev next_id : ScriptTables → ℕ
next_id t = 1

abbrev empty : ScriptTables
empty = record { scripts = []; target_states = [] }

abbrev seeded : ScriptTables
seeded = record {
  scripts =
      (
        codes "nap.sh",
        record {
          id = 1;
          content = codes "zzz";
          meta_yaml = some (codes "m");
          md5 = codes "zzz";
          persistent = true;
          updated_at = 5;
          updated_by = 1;
        },
      )
      ∷ [];
  target_states = [];
}

seed_builtin_scripts-Keeps_example :
    Keeps same lasting next_id empty seeded
    × (seed_builtin_scripts same lasting next_id shipped 2 9 seeded
        ≡ ok (
          seeded,
          record { created = []; skipped = map (λ b. b.name) (iter_builtin_scripts shipped) },
        ))
unfolding seed_builtin_scripts iter_builtin_scripts builtins_of meta_path seed_all create_script
    validate_meta is_persistent suffix_from any text_eq lookup member insert
seed_builtin_scripts-Keeps_example =
    seed_builtin_scripts-Keeps same lasting next_id shipped 1 5 empty 2 9 {after = seeded}
      {r = record { created = codes "nap.sh" ∷ []; skipped = [] }} refl
