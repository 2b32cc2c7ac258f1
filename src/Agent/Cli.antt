-- ===== src/Agent/Cli.antt =====
-- control_station_lite/agent/cli/cmd_approvals.py: the commands with which the owner of a target reviews
-- scripts. A command makes a manager from the disk; what it prints is given as far as it is read there.
pub mod Reviewed
pub mod Purged
mod Tests
use csl.Prelude.{
  lookup, member, if◌then◌else◌, List, on_error, Bool, Result, Option, ◌>>=◌, ℕ, Text, Text_Eq,
  codes, [], ◌∷◌, none, some, true, false, ok, err, ◌==◌, ◌||◌, not, ◌+◌, suc,
}
use csl.Agent.Approvals.Data.{is_reviewable, Disk, ApprovalError, Answer, Host, Platform}
use csl.Shared.Models.{
  ApprovalState_Eq, update_pending, approved, ScriptDescriptor, rejected, ApprovalState,
}
use csl.Agent.Approvals.Manager.{init, list_all, get_state, reject, approve, clear}

-- Why a command ends with status 1, or with a traceback.
pub data CommandError : Type 0 where
  wrong_for_command : ApprovalState → CommandError
  no_pending_file : CommandError
  approval_failed : ApprovalError → CommandError
  traceback : CommandError

abbrev pub Printed : Type 0 → Type 0 → Type 0
Printed Doc A = Result CommandError A × Host Doc

unfoldable pub file_or : CommandError → Option Text → Result CommandError Text
file_or e none = err e
file_or e (some content) = ok content

-- What the loop of `purge` counts, and the host after it.
pub record Purge (Doc : Type 0) : Type 0 where
  pub removed : ℕ
  pub skipped : ℕ
  pub host : Host Doc

module _ (io : Platform) where
  -- `_load_approvals`: a manager that has just read the file.
  unfoldable pub load_approvals : Host io.Doc → Host io.Doc
  load_approvals h = record h { manager = (init io h.manager.auto_approve h.disk).manager }

  unfoldable pub cmd_approvals_show : Text → Host io.Doc → Printed io.Doc Text
  cmd_approvals_show name h =
      let (d, h') = get_state io name (load_approvals h) in
      (
        if not (is_reviewable d.state)
            then err (wrong_for_command d.state)
            else file_or no_pending_file (lookup name h'.disk.pending_dir),
        h',
      )

  -- The two texts that `difflib` compares; the approved one is read first.
  unfoldable pub cmd_approvals_diff : Text → Host io.Doc → Printed io.Doc (Text × Text)
  cmd_approvals_diff name h =
      let (d, h') = get_state io name (load_approvals h) in
      (
        if not (d.state == update_pending) then err (wrong_for_command d.state) else (do
          approved_text ← file_or traceback (lookup name h'.disk.scripts_dir)
          pending_text ← file_or traceback (lookup name h'.disk.pending_dir)
          ok (approved_text, pending_text)),
        h',
      )

  abbrev reviewed : Answer io.Doc (Unit {0}) → Printed io.Doc (Unit {0})
  reviewed (r, h) = (on_error approval_failed r, h)

  unfoldable pub cmd_approvals_approve : Text → ℕ → Host io.Doc → Printed io.Doc (Unit {0})
  cmd_approvals_approve name now h = reviewed (approve io name now (load_approvals h))

  unfoldable pub cmd_approvals_reject : Text → ℕ → Host io.Doc → Printed io.Doc (Unit {0})
  cmd_approvals_reject name now h = reviewed (reject io name now (load_approvals h))

  unfoldable pub cmd_approvals_clear : Text → ℕ → Host io.Doc → Printed io.Doc (Unit {0})
  cmd_approvals_clear name now h = reviewed (clear io name now (load_approvals h))

  -- An entry whose file is missing: the approved one, or the pending one.
  unfoldable pub is_orphan : ScriptDescriptor → Disk io.Doc → Bool
  is_orphan d disk =
      if d.state == approved
      then not (member d.name disk.scripts_dir)
      else if is_reviewable d.state
      then not (member d.name disk.pending_dir)
      else false

  abbrev was_cleared : Result ApprovalError (Unit {0}) → ℕ
  was_cleared (ok u) = 1
  was_cleared (err e) = 0

  -- The body of the loop over the descriptors; the flag is `dry_run`.
  unfoldable pub purge_one : Bool → ℕ → ScriptDescriptor → Host io.Doc → Purge io.Doc
  purge_one dry_run now d h =
      let (answer, h') = clear io d.name now h in
      if not (is_orphan d h.disk)
      then record { removed = 0; skipped = 1; host = h }
      else if dry_run
      then record { removed = 0; skipped = 0; host = h }
      else record { removed = was_cleared answer; skipped = 0; host = h' }

  unfoldable pub purge_all : Bool → ℕ → List ScriptDescriptor → Host io.Doc → Purge io.Doc
  purge_all dry_run now [] h = record { removed = 0; skipped = 0; host = h }
  purge_all dry_run now (d ∷ ds) h =
      let first = purge_one dry_run now d h in
      let rest = purge_all dry_run now ds first.host in
      record rest { removed = first.removed + rest.removed; skipped = first.skipped + rest.skipped }

  unfoldable pub cmd_approvals_purge : Bool → ℕ → Host io.Doc → Purge io.Doc
  cmd_approvals_purge dry_run now h =
      let (descriptors, h') = list_all io (load_approvals h) in purge_all dry_run now descriptors h'
