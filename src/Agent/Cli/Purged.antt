-- ===== src/Agent/Cli/Purged.antt =====
-- What a purge takes away.
use csl.Prelude.{Option, Bool, Text, Text_Eq, none, some, ◌≡◌, lookup, if◌then◌else◌, ◌==◌, ◌&&◌}
use csl.Shared.Models.{ScriptDescriptor}
use csl.Agent.Approvals.Data.{ScriptRecord, Platform, Disk, descriptor}
use csl.Agent.Approvals.Files.{NoMeta}
use csl.Agent.Cli.{Option, Bool, is_orphan}

module _ (io : Platform) (j : Text) (plain : NoMeta j) where
  -- The files of a script, whatever others were cleared.
  abbrev SameFiles : Disk io.Doc → Disk io.Doc → Type 0
  SameFiles d d' =
      (lookup j d'.scripts_dir ≡ lookup j d.scripts_dir)
      × (lookup j d'.pending_dir ≡ lookup j d.pending_dir)

  -- The entry `j` has a descriptor among those and its file is missing.
  abbrev orphaned : Disk io.Doc → ScriptDescriptor → Bool
  orphaned disk d = d.name == j && is_orphan io d disk

  abbrev pub kept_record : Disk io.Doc → Option ScriptRecord → Option ScriptRecord
  kept_record disk none = none
  kept_record disk (some r) = if is_orphan io (descriptor j r) disk then none else some r
