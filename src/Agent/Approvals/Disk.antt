-- ===== src/Agent/Approvals/Disk.antt =====
-- What the methods do to the two script directories, to the records and to the audit log.
use csl.Prelude.{
  Text, Option, none, some, [], ◌∷◌, ◌++◌, lookup, insert, erase, Result, ok, err, Text_Eq,
}
use csl.Shared.Models.{ApprovalState, ApprovalState_Eq}
use csl.Agent.Approvals.Data.{ScriptRecord, Disk, Action, Host, ApprovalError, not_found, meta_name}

module _ {Doc : Type 0} where
  -- `src.replace(dst)` from the pending to the scripts directory, behind `if src.exists()`
  unfoldable pub move : Text → Disk Doc → Disk Doc
  move f d = elim (lookup f d.pending_dir) [
    | none ↦ d
    | some c ↦ record d {
      pending_dir = erase f d.pending_dir;
      scripts_dir = insert f c d.scripts_dir;
    }
  ]

  -- The script, and its metadata if there is any.
  unfoldable pub promote : Text → Disk Doc → Disk Doc
  unfolding move
  promote name d = move (meta_name name) (move name d)

  unfoldable pub remove_files : Text → Disk Doc → Disk Doc
  remove_files name d = record d {
    scripts_dir = erase (meta_name name) (erase name d.scripts_dir);
    pending_dir = erase (meta_name name) (erase name d.pending_dir);
  }

  unfoldable pub write_pending : Text → Text → Option Text → Disk Doc → Disk Doc
  write_pending name content none d = record d { pending_dir = insert name content d.pending_dir }
  write_pending name content (some meta) d = record d {
    pending_dir = insert (meta_name name) meta (insert name content d.pending_dir);
  }

  -- `self._store.scripts[name] = record`, and `self._store.scripts.pop(name, None)`
  abbrev pub put_record : Text → ScriptRecord → Host Doc → Host Doc
  put_record name r h = record h {
    manager = record h.manager { store = insert name r h.manager.store };
  }

  abbrev pub pop_record : Text → Host Doc → Host Doc
  pop_record name h = record h { manager = record h.manager { store = erase name h.manager.store } }

  abbrev pub on_disk : (Disk Doc → Disk Doc) → Host Doc → Host Doc
  on_disk f h = record h { disk = f h.disk }

  -- `_audit`
  abbrev pub log_audit : Action → Text → ApprovalState → ApprovalState → Host Doc → Host Doc
  log_audit action name from to h = record h {
    audit =
        h.audit ++ record { action = action; script = name; from_state = from; to_state = to } ∷ [];
  }

  abbrev pub require_record : Text → Host Doc → Result ApprovalError ScriptRecord
  require_record name h = elim (lookup name h.manager.store) [
    | none ↦ err (not_found name)
    | some r ↦ ok r
  ]
