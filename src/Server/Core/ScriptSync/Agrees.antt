-- ===== src/Server/Core/ScriptSync/Agrees.antt =====
-- What a synchronisation on which every request succeeds answers is what the agent then holds.
use csl.Prelude.{
  [], ◌∷◌, ◌∷◌, false, refl, opt_eq_iff, text_eq_iff, ◌≢◌, arith, none, some, Text_Eq, ok, ◌≡◌,
  lookup, opt_eq, ◌||◌, List, ◌==◌, not, some, true, Option, ℕ, Text, Bool,
}
use csl.Server.Core.ScriptSync.Sync.{
  upsert_state, row_of, TargetState, sync_found, agent_state, ScriptTargetState, Script, resolve,
  sync_script,
}
use csl.Agent.Approvals.Manager.{staged_record, sync_from_disk, already_staged, stage, get_state}
use csl.Agent.Approvals.Data.{
  pending_record, absent_descriptor, describe, is_auto, state_of, Host, Platform, ScriptRecord,
}
use csl.Shared.Models.{pending, ScriptDescriptor, rejected, ApprovalState_Eq, approved}
use csl.Agent.Approvals.Effects.{staged, store-stage}

-- The record is not one that is approved with another content.
abbrev pub is_current : Option ScriptRecord → Text → Bool
is_current none md5 = true
is_current (some r) md5 = not (r.state == approved) || opt_eq r.approved_md5 (some md5)

stage-answer :
    (io : Platform) (name content md5 : Text) (meta : Option Text) (now : ℕ) (h : Host io.Doc)
    → state_of (lookup name h.manager.store) ≢ rejected
    → (stage io name content md5 meta now h).0
      ≡ ok (
          state_of
            (staged (lookup name h.manager.store) (is_auto name h.manager.auto_approve) md5 now))
unfolding stage already_staged
stage-answer io name content md5 meta now h n = ground arith

sync_found-agrees :
    (io : Platform) (machine_id : ℕ) (script : Script) (now : ℕ) (h : Host io.Doc)
    (rows : List ScriptTargetState) (found : Option ScriptRecord)
    → lookup script.name h.manager.store ≡ found
    → let after = sync_found io machine_id script now (describe script.name found) h rows in
      let r = lookup script.name after.1.manager.store in
      (after.0 ≡ ok (agent_state (state_of r))) × (is_current r script.md5 ≡ true)
unfolding sync_found resolve already_staged staged_record
sync_found-agrees io machine_id script now h rows found e = ground (
  arith,
  stage-answer io script.name script.content script.md5 script.meta_yaml now h,
  store-stage io script.name now h script.name script.content script.md5 script.meta_yaml,
  text_eq_iff script.name script.name,
  opt_eq_iff (some script.md5) (some script.md5),
)

-- It always succeeds. Its answer is the state that the agent has for the script
-- afterwards, never `approved_stale`, and if that is `approved`, the content that is approved is the
-- one of the control station.
pub sync_script-agrees :
    (io : Platform) (machine_id : ℕ) (script : Script) (now : ℕ) (h : Host io.Doc)
    (rows : List ScriptTargetState)
    → let after = sync_script io machine_id script now h rows in
      let r = lookup script.name after.1.manager.store in
      (after.0 ≡ ok (agent_state (state_of r))) × (is_current r script.md5 ≡ true)
unfolding sync_script get_state
sync_script-agrees io machine_id script now h rows =
    let next = sync_from_disk io h in
    sync_found-agrees io machine_id script now next rows (lookup script.name next.manager.store)
      refl

abbrev pub row_with : ℕ → ℕ → TargetState → ScriptDescriptor → ℕ → ScriptTargetState
row_with machine_id script_id state desc now = record {
  machine_id = machine_id;
  script_id = script_id;
  state = state;
  approved_md5 = desc.approved_md5;
  pending_md5 = desc.pending_md5;
  last_refreshed_at = now;
}

pub row_of-upsert_state :
    (m s : ℕ) (t : TargetState) (desc : ScriptDescriptor) (now : ℕ) (rows : List ScriptTargetState)
    → row_of m s (upsert_state m s t desc now rows) ≡ some (row_with m s t desc now)
unfolding row_of upsert_state
row_of-upsert_state m s t desc now [] = ground arith
row_of-upsert_state m s t desc now (row ∷ rows) =
    ground (arith, row_of-upsert_state m s t desc now rows)

-- The first `sync_script` of a script that the agent does not know and that its policy does not
-- approve leaves a row that says `pending` and has no pending MD5, although the agent has one: the
-- row takes its MD5s from the look before the staging.
pub sync_script-lags :
    (io : Platform) (machine_id : ℕ) (script : Script) (now : ℕ) (h : Host io.Doc)
    (rows : List ScriptTargetState)
    → lookup script.name (sync_from_disk io h).manager.store ≡ none
    → is_auto script.name (sync_from_disk io h).manager.auto_approve ≡ false
    → let after = sync_script io machine_id script now h rows in
      (row_of machine_id script.id after.2
        ≡ some (
            row_with machine_id script.id
              (agent_state pending)
              (absent_descriptor script.name)
              now))
      × (lookup script.name after.1.manager.store ≡ some (pending_record script.md5))
unfolding sync_script get_state sync_found resolve already_staged staged_record
sync_script-lags io machine_id script now h rows e p =
    let next = sync_from_disk io h in
    ground (
      arith,
      stage-answer io script.name script.content script.md5 script.meta_yaml now next,
      store-stage io script.name now next script.name script.content script.md5 script.meta_yaml,
      text_eq_iff script.name script.name,
      row_of-upsert_state machine_id script.id (agent_state pending) (absent_descriptor script.name)
          now rows,
    )
