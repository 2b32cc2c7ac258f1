-- ===== src/Shared/Models.antt =====
-- control_station_lite/shared/models.py. A `datetime` is a number of ticks.
use csl.Prelude.{ℕ, ℤ, Text, Bool, true, false, Option, arith, ◌≡◌, ◌↔◌, nat_eq, Eq}

pub data ApprovalState : Type 0 where
  absent pending approved update_pending rejected : ApprovalState

-- The place of a state in the enumeration, by which two states are compared.
abbrev place : ApprovalState → ℕ
place absent = 0
place pending = 1
place approved = 2
place update_pending = 3
place rejected = 4

abbrev state_eq : ApprovalState → ApprovalState → Bool
state_eq s t = nat_eq (place s) (place t)

pub state_eq_iff : (s t : ApprovalState) → (state_eq s t ≡ true) ↔ (s ≡ t)
state_eq_iff s t = ground arith

instance abbrev pub ApprovalState_Eq : Eq ApprovalState
ApprovalState_Eq = record { beq = state_eq; beq_iff = state_eq_iff }

pub ApprovalState-discrete : Discrete ApprovalState
ApprovalState-discrete = hlevel

pub data JobStatus : Type 0 where
  pending running completed failed killed : JobStatus

-- `status == JobStatus.running`
abbrev pub is_running : JobStatus → Bool
is_running JobStatus.running = true
is_running _ = false

pub record ScriptDescriptor : Type 0 where
  pub name : Text
  pub state : ApprovalState
  pub persistent : Bool
  pub approved_md5 : Option Text
  pub pending_md5 : Option Text

pub record JobStatusResponse : Type 0 where
  pub job_uuid : Text
  pub script_name : Text
  pub status : JobStatus
  pub persistent : Bool
  pub started_at : ℕ
  pub ended_at : Option ℕ
  pub exit_code : Option ℤ

-- The parameters are those of the script runner.
pub record JobRequest (Params : Type 0) : Type 0 where
  pub job_uuid : Text
  pub script_name : Text
  pub params : Params
  pub persistent : Bool
  pub expected_md5 : Option Text

pub record AgentHealth : Type 0 where
  pub running_persistent_jobs : ℕ
  pub idle_seconds : ℕ

pub record StageScriptRequest : Type 0 where
  pub content : Text
  pub md5 : Text
  pub meta_yaml : Option Text
