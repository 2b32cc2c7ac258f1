-- ===== src/Agent/Approvals/Manager.antt =====
-- The methods of `ApprovalsManager`. Each takes the time at which it runs, and returns its answer
-- with the new host; an `ApprovalError` leaves the host as it was.
use csl.Prelude.{
  member, ℕ, Text, Bool, true, false, Option, none, some, List, [], map, lookup, ok, err, opt_eq,
  ◌==◌, Text_Eq, ◌&&◌, not, nat_eq, if◌then◌else◌,
}
use csl.Shared.Models.{
  absent, ApprovalState, ApprovalState_Eq, approved, rejected, ScriptDescriptor,
}
use csl.Agent.Approvals.Data.{
  describe, approve_action, cli, pending_missing, reject_action, rejected_record, wrong_state,
  clear_action, auto, ScriptRecord, Store, Platform, File, Disk, stage_action, Host, is_rejected,
  Answer, state_of, is_reviewable, is_auto, approved_record, pending_record, update_record,
  descriptor,
}
use csl.Agent.Approvals.Disk.{
  promote, remove_files, write_pending, put_record, pop_record, on_disk, log_audit, require_record,
}

-- The returns of `stage` that write nothing: a state for the answer, if there is one.
unfoldable pub already_staged : Option ScriptRecord → Text → Option ApprovalState
already_staged none md5 = none
already_staged (some r) md5 =
    if r.state == approved && opt_eq r.approved_md5 (some md5)
    then some approved
    else if is_reviewable r.state && opt_eq r.pending_md5 (some md5)
    then some r.state
    else none

-- `new_record` of `stage`
unfoldable pub staged_record : Option ScriptRecord → Bool → Text → ℕ → ScriptRecord
staged_record found true md5 now = approved_record (some md5) now auto
staged_record none false md5 now = pending_record md5
staged_record (some r) false md5 now =
    if r.state == approved then update_record r md5 else pending_record md5

unfoldable pub same_sig : ℕ × ℕ → ℕ × ℕ → Bool
same_sig (m, s) (m', s') = nat_eq m m' && nat_eq s s'

module _ (io : Platform) where
  -- `_current_sig`
  unfoldable pub current_sig : Option (File io.Doc) → ℕ × ℕ
  current_sig none = (0, 0)
  current_sig (some f) = (f.mtime, io.size f.doc)

  -- `_load`: a file that does not parse is an empty store
  unfoldable pub load : Option (File io.Doc) → Store
  load none = []
  load (some f) = elim (io.parse f.doc) [ none ↦ [] | some s ↦ s ]

  -- `_save`
  unfoldable pub save : ℕ → Host io.Doc → Host io.Doc
  unfolding current_sig
  save now h =
      let f : Option (File io.Doc) =
        some (record { doc = io.dump h.manager.store; mtime = io.stamp now }) in
      record h {
        disk = record h.disk { approvals_path = f };
        manager = record h.manager { sig = current_sig f };
      }

  -- `_sync_from_disk`
  unfoldable pub sync_from_disk : Host io.Doc → Host io.Doc
  unfolding current_sig load same_sig
  sync_from_disk h =
      let sig = current_sig h.disk.approvals_path in
      if not (same_sig sig h.manager.sig)
      then record h { manager = record h.manager { store = load h.disk.approvals_path; sig = sig } }
      else h

  -- `__init__`
  unfoldable pub init : List Text → Disk io.Doc → Host io.Doc
  unfolding current_sig load
  init names d = record {
    manager = record {
      auto_approve = names;
      store = load d.approvals_path;
      sig = current_sig d.approvals_path;
    };
    disk = d;
    audit = [];
  }

  unfoldable pub get_state : Text → Host io.Doc → ScriptDescriptor × Host io.Doc
  unfolding sync_from_disk
  get_state name h = let h' = sync_from_disk h in (describe name (lookup name h'.manager.store), h')

  unfoldable pub list_all : Host io.Doc → List ScriptDescriptor × Host io.Doc
  unfolding sync_from_disk
  list_all h = let h' = sync_from_disk h in (map (λ (n, r). descriptor n r) h'.manager.store, h')

  -- The part of `stage` behind its early returns.
  unfoldable pub stage_write :
      Text
      → Text
      → Text
      → Option Text
      → ℕ
      → Option ScriptRecord
      → Host io.Doc
      → Answer io.Doc ApprovalState
  stage_write name content md5 meta_yaml now found h =
      let by_policy = is_auto name h.manager.auto_approve in
      let r = staged_record found by_policy md5 now in
      let written = on_disk (write_pending name content meta_yaml) h in
      let placed = if by_policy then on_disk (promote name) written else written in
      (
        ok r.state,
        log_audit stage_action name (state_of found) r.state (save now (put_record name r placed)),
      )

  unfoldable pub stage :
      Text → Text → Text → Option Text → ℕ → Host io.Doc → Answer io.Doc ApprovalState
  unfolding stage_write
  stage name content md5 meta_yaml now h =
      let found = lookup name h.manager.store in
      if state_of found == rejected
      then (err (is_rejected name), h)
      else elim (already_staged found md5) [
        | some s ↦ (ok s, h)
        | none ↦ stage_write name content md5 meta_yaml now found h
      ]

  -- The part of `approve` behind the look-up of the record.
  unfoldable pub approve_record : Text → ℕ → ScriptRecord → Host io.Doc → Answer io.Doc (Unit {0})
  approve_record name now r h =
      if not (is_reviewable r.state)
      then (err (wrong_state name r.state), h)
      else if not (member name h.disk.pending_dir)
      then (err (pending_missing name), h)
      else let placed =
          put_record name (approved_record r.pending_md5 now cli) (on_disk (promote name) h) in
        (ok tt, log_audit approve_action name r.state approved (save now placed))

  unfoldable pub approve : Text → ℕ → Host io.Doc → Answer io.Doc (Unit {0})
  unfolding approve_record
  approve name now h = elim (require_record name h) [
    | err e ↦ (err e, h)
    | ok r ↦ approve_record name now r h
  ]

  unfoldable pub reject_record : Text → ℕ → ScriptRecord → Host io.Doc → Answer io.Doc (Unit {0})
  reject_record name now r h =
      if not (is_reviewable r.state)
      then (err (wrong_state name r.state), h)
      else let removed = put_record name (rejected_record now) (on_disk (remove_files name) h) in
        (ok tt, log_audit reject_action name r.state rejected (save now removed))

  unfoldable pub reject : Text → ℕ → Host io.Doc → Answer io.Doc (Unit {0})
  unfolding reject_record
  reject name now h = elim (require_record name h) [
    | err e ↦ (err e, h)
    | ok r ↦ reject_record name now r h
  ]

  unfoldable pub clear_record : Text → ℕ → ScriptRecord → Host io.Doc → Answer io.Doc (Unit {0})
  clear_record name now r h =
      let removed = pop_record name (on_disk (remove_files name) h) in
      (ok tt, log_audit clear_action name r.state absent (save now removed))

  unfoldable pub clear : Text → ℕ → Host io.Doc → Answer io.Doc (Unit {0})
  unfolding clear_record
  clear name now h = elim (require_record name h) [
    | err e ↦ (err e, h)
    | ok r ↦ clear_record name now r h
  ]
