-- ===== src/Server/Core/ScriptSync/Sync.antt =====
-- The parts of control_station_lite/server/core/script_sync.py, and what its `sync_script` comes to when
-- every request succeeds: `sync_script` here is the specification of the one over the client, in
-- Remote.antt. A request is then the call of the manager's method that the endpoint makes.
use csl.Prelude.{
  [], ◌∷◌, none, ok, err, Text_Eq, ◌||◌, opt_eq, not, ◌==◌, Result, some, ◌∷◌, none, false,
  if◌then◌else◌, ◌&&◌, nat_eq, List, true, Option, ℕ, Text, Bool,
}
use csl.Shared.Models.{ApprovalState_Eq, absent, approved, ScriptDescriptor, ApprovalState}
use csl.Agent.Approvals.Data.{ApprovalError, Host, Platform}
use csl.Agent.Approvals.Manager.{stage, get_state}

-- The states of `script_target_state`: those of the agent and one more.
pub data TargetState : Type 0 where
  agent_state : ApprovalState → TargetState
  approved_stale : TargetState

-- The columns of `Script` that are read here.
pub record Script : Type 0 where
  pub id : ℕ
  pub name : Text
  pub content : Text
  pub meta_yaml : Option Text
  pub md5 : Text

pub record ScriptTargetState : Type 0 where
  pub machine_id : ℕ
  pub script_id : ℕ
  pub state : TargetState
  pub approved_md5 : Option Text
  pub pending_md5 : Option Text
  pub last_refreshed_at : ℕ

-- The server-side state before any staging.
unfoldable pub resolve : ScriptDescriptor → Text → TargetState
resolve d md5 =
    if d.state == approved
    then (if not (opt_eq d.approved_md5 (some md5)) then approved_stale else agent_state approved)
    else agent_state d.state

abbrev pub is_stale : TargetState → Bool
is_stale approved_stale = true
is_stale (agent_state s) = false

abbrev has_key : ℕ → ℕ → ScriptTargetState → Bool
has_key machine_id script_id row =
    nat_eq row.machine_id machine_id && nat_eq row.script_id script_id

-- `_upsert_state`: the row of the machine and the script, the primary key, is changed or added.
unfoldable pub upsert_state :
    ℕ → ℕ → TargetState → ScriptDescriptor → ℕ → List ScriptTargetState → List ScriptTargetState
upsert_state machine_id script_id resolved desc now [] =
    record {
      machine_id = machine_id;
      script_id = script_id;
      state = resolved;
      approved_md5 = desc.approved_md5;
      pending_md5 = desc.pending_md5;
      last_refreshed_at = now;
    }
    ∷ []
upsert_state machine_id script_id resolved desc now (row ∷ rows) =
    if has_key machine_id script_id row
    then record row {
      state = resolved;
      approved_md5 = desc.approved_md5;
      pending_md5 = desc.pending_md5;
      last_refreshed_at = now;
    }
      ∷ rows
    else row ∷ upsert_state machine_id script_id resolved desc now rows

unfoldable pub row_of : ℕ → ℕ → List ScriptTargetState → Option ScriptTargetState
row_of machine_id script_id [] = none
row_of machine_id script_id (row ∷ rows) =
    if has_key machine_id script_id row then some row else row_of machine_id script_id rows

module _ (io : Platform) where
  -- What follows the look at the state on the agent: the answer, the agent and the rows after it.
  unfoldable pub sync_found :
      ℕ
      → Script
      → ℕ
      → ScriptDescriptor
      → Host io.Doc
      → List ScriptTargetState
      → Result ApprovalError TargetState × Host io.Doc × List ScriptTargetState
  sync_found machine_id script now desc h rows =
      let resolved = resolve desc script.md5 in
      let (answer, staged) =
        stage io script.name script.content script.md5 script.meta_yaml now h in
      if desc.state == absent || is_stale resolved
      then (elim answer [
        | err e ↦ (err e, staged, rows)
        | ok s ↦ (
          ok (agent_state s),
          staged,
          upsert_state machine_id script.id (agent_state s) desc now rows,
        )
      ])
      else (ok resolved, h, upsert_state machine_id script.id resolved desc now rows)

  unfoldable pub sync_script :
      ℕ
      → Script
      → ℕ
      → Host io.Doc
      → List ScriptTargetState
      → Result ApprovalError TargetState × Host io.Doc × List ScriptTargetState
  sync_script machine_id script now h rows =
      let (desc, h') = get_state io script.name h in sync_found machine_id script now desc h' rows
