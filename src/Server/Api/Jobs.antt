-- ===== src/Server/Api/Jobs.antt =====
-- control_station_lite/server/api/jobs.py: the rows, and the refusals.
pub mod Client
pub mod Submit
pub mod Submitted
pub mod Refused
pub mod Running
pub mod Killed
mod Tests
use csl.Prelude.{
  ℕ, ℤ, Text, Dict, Text_Eq, ◌==◌, codes, [], ◌∷◌, List, none, some, ok, err, Bool, Result, Option,
  if◌then◌else◌,
}
use csl.Shared.Models.{ApprovalState, JobStatus, approved, absent, update_pending, rejected}
use csl.Server.Auth.Sessions.{AuditRow}
use csl.Server.Core.Errors.{
  HttpException, http_exception, csl_exception, approval_pending, approval_rejected,
}
use csl.Server.Core.Registry.Table.{ScriptRow}
use csl.Server.Core.ScriptSync.Sync.{ScriptTargetState, TargetState, agent_state, approved_stale}
use csl.Server.Api.Machines.{Machine}

pub record JobRow : Type 0 where
  pub job_uuid : Text
  pub machine_id : ℕ
  pub script_id : Option ℕ
  pub user_id : ℕ
  pub params_json : Text
  pub status : JobStatus
  pub persistent : Bool
  pub started_at : ℕ
  pub ended_at : Option ℕ
  pub exit_code : Option ℤ

-- The tables that the endpoints read and write; the key of a script is its name.
pub record JobTables : Type 0 where
  pub machines : List Machine
  pub user_machines : List (ℕ × ℕ)
  pub scripts : Dict Text ScriptRow
  pub target_states : List ScriptTargetState
  pub jobs : List JobRow
  pub audit_log : List AuditRow

unfoldable pub find_job : Text → List JobRow → Option JobRow
find_job uuid [] = none
find_job uuid (j ∷ jobs) = if j.job_uuid == uuid then some j else find_job uuid jobs

-- `_get_job_or_404`
unfoldable pub get_job_or_404 : Text → List JobRow → Result HttpException JobRow
get_job_or_404 uuid jobs = elim (find_job uuid jobs) [
  | none ↦ err (http_exception 404)
  | some j ↦ ok j
]

-- `_approval_error_response`
unfoldable pub approval_error_response : TargetState → HttpException
approval_error_response (agent_state ApprovalState.pending) = csl_exception 409 approval_pending
approval_error_response (agent_state update_pending) = csl_exception 409 approval_pending
approval_error_response (agent_state rejected) = csl_exception 409 approval_rejected
approval_error_response (agent_state absent) = csl_exception 409 approval_pending
approval_error_response (agent_state approved) = csl_exception 409 approval_pending
approval_error_response approved_stale = csl_exception 409 approval_pending

-- The value of a state in the enumeration
unfoldable pub state_name : TargetState → Text
state_name (agent_state ApprovalState.pending) = codes "pending"
state_name (agent_state update_pending) = codes "update_pending"
state_name (agent_state rejected) = codes "rejected"
state_name (agent_state absent) = codes "absent"
state_name (agent_state approved) = codes "approved"
state_name approved_stale = codes "approved_stale"
