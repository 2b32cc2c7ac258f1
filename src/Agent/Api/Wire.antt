-- ===== src/Agent/Api/Wire.antt =====
-- What the endpoints of the agent keep, and what they answer.
use csl.Prelude.{
  ◌&&◌, Dict, ℤ, all, List, Bool, ◌++◌, Option, Result, ℕ, Text, codes, true, false, ok, err,
}
use csl.Agent.Runner.{
  bad_meta, script_not_found, script_integrity, Outcome, bad_params, script_not_approved, RunError,
}
use csl.Agent.Processes.Records.{Processes, Os}
use csl.Shared.Models.{approved, ApprovalState}
use csl.Agent.Approvals.Data.{Host}
use csl.Shared.ScriptName.{validate_script_name, is_allowed}
use csl.Agent.Lifecycle.{IdleTracker}

-- The details of an `HTTPException`: a text, or the object that the control station reads.
pub data Detail : Type 0 where
  message : Detail
  approval_detail : Text → ApprovalState → Detail
  validation_detail : Detail

pub record HttpError : Type 0 where
  pub status : ℕ
  pub detail : Detail

abbrev pub http_error : ℕ → HttpError
http_error status = record { status = status; detail = message }

-- The exceptions that `submit_job` turns into answers; that of the metadata reader is none of them,
-- and ends as an internal error.
unfoldable pub run_http_error : RunError → HttpError
run_http_error (script_not_approved state) = http_error 403
run_http_error (bad_params es) = record { status = 422; detail = validation_detail }
run_http_error script_integrity = record {
  status = 409;
  detail = approval_detail (codes "integrity") approved;
}
run_http_error script_not_found = http_error 404
run_http_error bad_meta = http_error 500

-- `application.state`, with the directory of the logs. The store of the approvals and `running.json`
-- are written in formats of their own.
pub record Agent (ApprovalsDoc StateDoc : Type 0) : Type 0 where
  pub api_token : Option Text
  pub log_tail_lines : ℤ
  pub host : Host ApprovalsDoc
  pub processes : Processes StateDoc
  pub tracker : IdleTracker
  pub logs : Dict Text Text

-- What the machine does during one request: the time, its processes, the number that it gives to
-- the process of a command and its environment, and how a command ends that is run to its end.
pub record Moment : Type 0 where
  pub now : ℕ
  pub os : Os
  pub spawn : List Text → Dict Text Text → ℕ
  pub execute : List Text → Dict Text Text → Outcome

-- f"{job_uuid}.log"
abbrev pub log_name : Text → Text
log_name job_uuid = job_uuid ++ codes ".log"

-- _NAME: the expression, whose `$` is the end of the text in the regular expressions of pydantic, and
-- the validator.
abbrev pub accepted {ℓ} : {E A : Type ℓ} → Result E A → Bool
accepted (ok a) = true
accepted (err e) = false

unfoldable pub is_path_name : Text → Bool
is_path_name name = all is_allowed name && accepted (validate_script_name name)
