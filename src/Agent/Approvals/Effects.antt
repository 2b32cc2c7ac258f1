-- ===== src/Agent/Approvals/Effects.antt =====
-- What each method leaves in the store, one record at a time.
use csl.Prelude.{
  ℕ, Text, Text_Eq, Bool, Option, none, some, ◌≡◌, refl, arith, lookup, member, ◌==◌, text_eq_iff,
  if◌then◌else◌, lookup-insert, lookup-erase, not,
}
use csl.Shared.Models.{ApprovalState_Eq, rejected}
use csl.Agent.Approvals.Data.{
  ScriptRecord, Platform, Host, is_auto, state_of, is_reviewable, approved_record, rejected_record,
  cli,
}
use csl.Agent.Approvals.Manager.{save, already_staged, staged_record, stage, approve, reject, clear}

-- The record of a name after `stage`, from the one before.
abbrev pub staged : Option ScriptRecord → Bool → Text → ℕ → Option ScriptRecord
staged found by_policy md5 now =
    if state_of found == rejected then found else elim (already_staged found md5) [
      | some s ↦ found
      | none ↦ some (staged_record found by_policy md5 now)
    ]

-- After `approve`; the flag says whether the pending file is there.
abbrev pub approved_from : Option ScriptRecord → Bool → ℕ → Option ScriptRecord
approved_from none there now = none
approved_from (some r) there now =
    if not (is_reviewable r.state)
    then some r
    else if not there
    then some r
    else some (approved_record r.pending_md5 now cli)

abbrev pub rejected_from : Option ScriptRecord → ℕ → Option ScriptRecord
rejected_from none now = none
rejected_from (some r) now =
    if not (is_reviewable r.state) then some r else some (rejected_record now)

module _ (io : Platform) (name : Text) (now : ℕ) (h : Host io.Doc) (j : Text) where
  pub store-stage :
      (content md5 : Text) (meta : Option Text)
      → lookup j (stage io name content md5 meta now h).1.manager.store ≡ (
          if name == j
          then staged (lookup name h.manager.store) (is_auto name h.manager.auto_approve) md5 now
          else lookup j h.manager.store)
  unfolding stage save
  store-stage content md5 meta =
      let found = lookup name h.manager.store in
      let by_policy = is_auto name h.manager.auto_approve in
      ground (
        arith,
        text_eq_iff name j,
        lookup-insert name j (staged_record found by_policy md5 now) h.manager.store,
      )

  store-approve_found :
      (found : Option ScriptRecord)
      → lookup name h.manager.store ≡ found
      → lookup j (approve io name now h).1.manager.store ≡ (
          if name == j
          then approved_from found (member name h.disk.pending_dir) now
          else lookup j h.manager.store)
  unfolding approve save
  store-approve_found none e = ground (arith, text_eq_iff name j)
  store-approve_found (some r) e = ground (
    arith,
    text_eq_iff name j,
    lookup-insert name j (approved_record r.pending_md5 now cli) h.manager.store,
  )

  pub store-approve : lookup j (approve io name now h).1.manager.store ≡ (
      if name == j
      then approved_from (lookup name h.manager.store) (member name h.disk.pending_dir) now
      else lookup j h.manager.store)
  store-approve = store-approve_found (lookup name h.manager.store) refl

  pub store-reject : lookup j (reject io name now h).1.manager.store ≡ (
      if name == j
      then rejected_from (lookup name h.manager.store) now
      else lookup j h.manager.store)
  unfolding reject save
  store-reject =
      ground (arith, text_eq_iff name j, lookup-insert name j (rejected_record now) h.manager.store)

  pub store-clear :
      lookup j (clear io name now h).1.manager.store
      ≡ (if name == j then none else lookup j h.manager.store)
  unfolding clear save
  store-clear = ground (arith, text_eq_iff name j, lookup-erase name j h.manager.store)
